-- ===== src/Executor/Run.antt =====
-- `Execute` (execute.go): the steps of a plan in their order, then the check of the services' final
-- states. Go maps are lists of entries; the goroutines of the final check run one after the other, in
-- the order of the entries, and the map and the flag that they share are passed on.
use materia.Base.{
  ℕ, ◌+◌, ◌-◌, ◌^◌, String, Bool, true, false, ◌&&◌, not, Option, none, some, List, [], ◌∷◌, ◌==◌,
  if◌then◌else◌,
}
use materia.Errors.{Error, Result, ok, err, ◌>>=◌, unknown_final_action, final_state_unhealthy}
use materia.Deps.{Deps, assoc_put}
use materia.Services.{
  Service, ServiceState, new_service_state, state_active, state_inactive, state_unknown,
}
use materia.Components.Kind.{kind_eq, host}
use materia.Components.Resource.{service_of}
use materia.Actions.{
  ActionType, start, stop, restart, reload, enable, disable, Action, is_service_action, todo_eq,
}
use materia.Plan.Build.{Plan, steps, is_empty_plan}
use materia.Planner.Host.{is_service_not_found}
use materia.Executor.Host.{Host, Executor, wait_until_state}
use materia.Executor.Services.{until_state}
use materia.Executor.Table.{execute_action}

abbrev pub Expected : Type 0
Expected = List (String × ServiceState)

-- lastAction, expectedServices and steps
pub record Progress : Type 0 where
  pub last_action : List (String × ActionType)
  pub expected : Expected
  pub done : ℕ

abbrev pub no_progress : Progress
no_progress = record { last_action = []; expected = []; done = 0 }

-- the -1 of a plan that has nothing to do, as an int's 64-bit pattern
abbrev pub minus_one : ℕ
minus_one = 2 ^ 64 - 1

module _ ⦃D : Deps⦄ where
  -- what a service step leaves to check; one with a known state to wait for is not counted
  unfoldable pub note_service : Action → Option String → Progress → Progress
  note_service v (some state) p = record p {
    expected = assoc_put (service_of v.target) (new_service_state state) p.expected;
  }
  note_service v none p = record p {
    last_action = assoc_put (service_of v.target) v.todo p.last_action;
    done = p.done + 1;
  }

  unfoldable pub note_step : Action → Progress → Progress
  unfolding is_service_action kind_eq
  note_step v p =
      if is_service_action v.todo && not (kind_eq v.target.kind host)
      then note_service v (until_state v.metadata) p
      else record p { done = p.done + 1 }

  -- the state that the last action on a unit asks for
  unfoldable pub expect : ActionType → Service → Expected → Result Expected
  expect restart serv expected = ok (assoc_put serv.name state_active expected)
  expect start serv expected = ok (assoc_put serv.name state_active expected)
  expect reload serv expected = ok (assoc_put serv.name state_active expected)
  expect stop serv expected = ok (assoc_put serv.name state_inactive expected)
  expect enable serv expected = ok expected
  expect disable serv expected = ok expected
  expect _ serv expected = err unknown_final_action

  unfoldable pub expect_found : ActionType → Result Service → Expected → Result Expected
  unfolding is_service_not_found todo_eq
  expect_found a (err why) expected =
      if is_service_not_found why && todo_eq a stop then ok expected else err why
  expect_found a (ok serv) expected = expect a serv expected

  module _ {S : Type 0} (h : Host S) (e : Executor) where
    -- goes on with the next step unless this one failed
    unfoldable pub carry :
        Progress
        → S × Result (Unit {0})
        → (S → S × (Progress × Option Error))
        → S × (Progress × Option Error)
    carry p (s, err why) next = (s, (p, some why))
    carry p (s, ok u) next = next s

    -- the loop over the steps, up to the first that fails
    unfoldable pub run_steps : List Action → Progress → S → S × (Progress × Option Error)
    run_steps [] p s = (s, (p, none))
    run_steps (v ∷ rest) p s = carry p (execute_action h e v s) (run_steps rest (note_step v p))

    unfoldable pub expect_all : List (String × ActionType) → S → Expected → Result Expected
    expect_all [] s expected = ok expected
    expect_all ((k, a) ∷ rest) s expected =
        expect_found a (h.get_service k s) expected >>= λ expected'. expect_all rest s expected'

    -- the state that is reported for a unit that did not reach its state
    unfoldable pub report : String → ServiceState → Result Service → Expected → Expected
    unfolding is_service_not_found
    report name state (ok serv) final = assoc_put name serv.state final
    report name state (err why) final =
        if is_service_not_found why && state == state_inactive
        then final
        else assoc_put name state_unknown final

    -- badState and finalServices
    unfoldable pub check_one :
        String → ServiceState → Bool × Expected → S × Result (Unit {0}) → S × (Bool × Expected)
    check_one name state (bad, final) (s, ok u) = (s, (bad, assoc_put name state final))
    check_one name state (bad, final) (s, err why) =
        (s, (true, report name state (h.get_service name s) final))

    unfoldable pub check_rest :
        S × (Bool × Expected)
        → (Bool × Expected → S → S × (Bool × Expected))
        → S × (Bool × Expected)
    check_rest (s, found) next = next found s

    unfoldable pub check_all : Expected → Bool × Expected → S → S × (Bool × Expected)
    check_all [] found s = (s, found)
    check_all ((name, state) ∷ rest) found s =
        check_rest
          (check_one name state found (h.perform (wait_until_state name state e.default_timeout) s))
          (check_all rest)

    unfoldable pub verdict : ℕ → S × (Bool × Expected) → S × (ℕ × Option Error)
    verdict done (s, (true, final)) = (s, (done, some final_state_unhealthy))
    verdict done (s, (false, final)) = (s, (done, none))

    unfoldable pub check_expected : ℕ → S → Result Expected → S × (ℕ × Option Error)
    check_expected done s (err why) = (s, (done, some why))
    check_expected done s (ok expected) = verdict done (check_all expected (false, []) s)

    unfoldable pub check_services : S × (Progress × Option Error) → S × (ℕ × Option Error)
    check_services (s, (p, some why)) = (s, (p.done, some why))
    check_services (s, (p, none)) = check_expected p.done s (expect_all p.last_action s p.expected)

    unfoldable pub execute_plan : Plan → S → S × (ℕ × Option Error)
    execute_plan p s =
        if is_empty_plan p
        then (s, (minus_one, none))
        else check_services (run_steps (steps p) no_progress s)
