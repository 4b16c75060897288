-- ===== src/Hostman/Units.antt =====
-- The service manager (pkg/services) as the part of the host that the executor starts and waits for
-- units with: `HostManager` has its methods by embedding it.
use materia.Base.{
  All, ℕ, String, ◌≡◌, false, none, ◌⊎◌, inl, inr, [], ◌∷◌, Bool-cases, ◌==◌, eq_iff,
}
use materia.Errors.{Result, ok}
use materia.Deps.{Deps, assoc_get}
use materia.Services.{ServiceState, state_wildcard}
use materia.Services.Manager
use materia.Services.Manager.{Bus, ServiceManager}
use materia.Services.Waiting.{Waited, wait_until_state-Waited, wait_wildcard}
use materia.Plan.Build.{Plan, steps, is_empty_plan}
use materia.Executor.Host.{
  Host, Executor, Call, apply_service, wait_until_state, run_oneshot_command,
}
use materia.Executor.Expects.{Expects}
use materia.Executor.Noted.{last_on, state_on}
use materia.Executor.Run.{Expected, Progress, no_progress, run_steps, execute_plan}
use materia.Executor.Success.{Ran, Reached, reached_all, both_ways, reached, execute_plan-Succeeded}

module _ ⦃D : Deps⦄ {S : Type 0} (b : Bus S) (m : ServiceManager) (h : Host S) where
  unfoldable pub unit_call : Call → S → S × Result (Unit {0})
  unit_call (apply_service name command timeout) = Manager.apply_service b m name command timeout
  unit_call (wait_until_state name state timeout) = Manager.wait_until_state b name state timeout
  unit_call (run_oneshot_command timeout name actions) =
      Manager.run_oneshot_command b timeout name actions
  unit_call call = h.perform call

  abbrev pub with_services : Host S
  with_services = record h { perform = unit_call; get_service = Manager.get_service b }

  module _ (e : Executor) where
    -- nothing is waited for if any state will do; else the unit is in its state behind the wait
    abbrev pub Met : String → ServiceState → S → S → Type 0
    Met name state s s' =
        ((state ≡ state_wildcard) × (s' ≡ s))
        ⊎ Waited b (b.rounds e.default_timeout s).ticks name state s s'

    -- at some moment the wait for the state was begun, and it ended without an error
    abbrev pub SeenIn : String × ServiceState → Type 0
    SeenIn (name, state) =
        (t : S) × (t' : S) × (Manager.wait_until_state b name state e.default_timeout t
          ≡ (t', ok tt))
        × Met name state t t'

    call-Met :
        (name : String) (state : ServiceState) (s s' : S)
        → unit_call (wait_until_state name state e.default_timeout) s ≡ (s', ok tt)
        → Met name state s s'
    unfolding unit_call
    call-Met name state s s' w = elim (Bool-cases (state == state_wildcard)) [
      | inl q ↦
          let any_state = (eq_iff state state_wildcard).0 q in
          inl (any_state, wait_wildcard b name state e.default_timeout s s' any_state w)
      | inr q ↦ inr (
          wait_until_state-Waited b name state e.default_timeout s s'
            (λ z. absurd (both_ways _ ((eq_iff state state_wildcard).1 z) q)) w)
    ]

    Reached-SeenIn :
        (expected : Expected) (s s' : S)
        → Reached with_services e expected s s'
        → All SeenIn expected
    unfolding unit_call
    Reached-SeenIn [] s s' reached_all = tt
    Reached-SeenIn ((name, state) ∷ rest) s s' (reached n st q others) =
        ((s, _, q, call-Met name state s _ q), Reached-SeenIn rest _ s' others)

    -- what a run has done and noted, and what systemd has told of the services behind it
    pub record Seen (p : Plan) (s : S) : Type 0 where
      pub progress : Progress
      pub expected : Expected
      pub middle : S
      pub ran_steps : Ran with_services e (steps p) s middle
      pub noted : run_steps with_services e (steps p) no_progress s ≡ (middle, (progress, none))
      pub last : (k : String) → assoc_get k progress.last_action ≡ last_on k none (steps p)
      pub states : (k : String) → assoc_get k progress.expected ≡ state_on k none (steps p)
      pub asked : Expects with_services middle progress.last_action progress.expected expected
      pub seen : All SeenIn expected

    -- On a host whose units are those of the service manager, if executing a plan that is not
    -- empty returns no error, then all of its steps have run without an error. The run has noted,
    -- for each unit, the last of the service steps on it that have no state to wait for, and the
    -- state to wait for of the last that has one, and the states to expect were determined from
    -- these: active behind a start, restart or reload, inactive behind a stop. For each state that
    -- is expected of a unit, a wait for it was begun and ended without an error, and unless it is
    -- the wildcard, the wait took at least a second, behind which systemd gave the unit an active
    -- state that stands for it.
    pub execute_plan-Seen :
        (p : Plan) (s s' : S) (n : ℕ)
        → is_empty_plan p ≡ false
        → execute_plan with_services e p s ≡ (s', (n, none))
        → Seen p s
    execute_plan-Seen p s s' n full x =
        let done = execute_plan-Succeeded with_services e p s s' n full x in
        record {
          progress = done.progress;
          expected = done.expected;
          middle = done.middle;
          ran_steps = done.ran_steps;
          noted = done.noted;
          last = done.last;
          states = done.states;
          asked = done.asked;
          seen = Reached-SeenIn done.expected done.middle s' done.reached_states;
        }
