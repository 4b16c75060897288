-- ===== src/Engine/Execution.antt =====
-- execute.go, materia.go: Execute with its final cleanup, ValidateComponents, CleanComponent and
-- PurgeComponenet.
use materia.Base.{
  ℕ, String, Bool, true, false, Option, none, some, List, [], ◌∷◌, if◌then◌else◌, contains,
}
use materia.Errors.{
  Error, Result, ok, err, ◌>>=◌, lock_failed, need_rollback, not_installed, service_unhealthy,
  final_state_unhealthy,
}
use materia.Deps.{Deps}
use materia.Plan.Build.{Plan}
use materia.Planner.Planning.{make_plan}
use materia.Executor.Run.{execute_plan}
use materia.Engine.Backend.{Materia, with_lock}
use materia.Engine.Planning.{load_host_component}

pub record ExecutionReport : Type 0 where
  pub steps_completed : ℕ
  pub rolled_back : Bool
  pub error : Option Error

abbrev pub no_report : ExecutionReport
no_report = record { steps_completed = 0; rolled_back = false; error = none }

-- `ErrServiceUnhealthy` and `ErrFinalStateUnhealthy`
unfoldable pub is_unhealthy : Error → Bool
is_unhealthy service_unhealthy = true
is_unhealthy final_state_unhealthy = true
is_unhealthy _ = false

-- what `Execute` makes of the executor's result
unfoldable pub reported : Bool → ℕ × Option Error → ExecutionReport × Option Error
unfolding is_unhealthy
reported rollback (steps, none) =
    (record { steps_completed = steps; rolled_back = false; error = none }, none)
reported rollback (steps, some e) =
    if is_unhealthy e
    then (if rollback
        then (
          record { steps_completed = steps; rolled_back = true; error = some e },
          some need_rollback,
        )
        else (no_report, some e))
    else (no_report, some e)

module _ ⦃D : Deps⦄ {S : Type 0} (m : Materia S) where
  unfoldable pub run_executor : Plan → S → S × (ExecutionReport × Option Error)
  run_executor p s =
      let (t, result) = execute_plan m.host m.executor p s in (t, reported m.rollback result)

  is_err : {A : Type 0} → Result A → Bool
  is_err (ok a) = false
  is_err (err e) = true

  unfoldable pub invalid_of : S → List String → List String
  unfolding is_err
  invalid_of s [] = []
  invalid_of s (n ∷ ns) =
      let rest = invalid_of s ns in
      if is_err ((m.host_reader s).get_component n) then n ∷ rest else rest

  -- the names of the components that cannot be loaded, and none where they cannot be listed
  unfoldable pub validate_components : S → Result (List String)
  unfolding invalid_of
  validate_components s = m.list_component_names s >>= λ names. ok (invalid_of s names)

  or_none : Result (List String) → List String
  or_none (ok names) = names
  or_none (err e) = []

  -- a failed purge is logged
  unfoldable pub purge_all : List String → S → S
  purge_all [] s = s
  purge_all (n ∷ ns) s = purge_all ns (m.purge_component_by_name n s).0

  unfoldable pub validate_post_execute : S → S
  unfolding validate_components or_none purge_all
  validate_post_execute s = purge_all (or_none (validate_components s)) s

  unfoldable pub cleaned :
      S × (ExecutionReport × Option Error) → S × (ExecutionReport × Option Error)
  unfolding validate_post_execute
  cleaned (s, r) = (if m.executor.config.cleanup_components then validate_post_execute s else s, r)

  -- the deferred cleanup runs behind the deferred unlock, and also if there is no lock
  unfoldable pub execute : Plan → S → S × (ExecutionReport × Option Error)
  unfolding run_executor cleaned
  execute p s = cleaned (with_lock m.locker (no_report, some lock_failed) (run_executor p) s)

  unfoldable pub removal_plan : String → S → Result Plan
  removal_plan name s = do
    c ← load_host_component m s name
    make_plan (m.host_state s) m.planner (c ∷ []) []

  execute_removal : Result Plan → S → S × Option Error
  execute_removal (err e) s = (s, some e)
  execute_removal (ok p) s = let (t, r) = execute_plan m.host m.executor p s in (t, r.1)

  removed_if : String → Result (List String) → S → S × Option Error
  unfolding execute_removal
  removed_if name (err e) s = (s, some e)
  removed_if name (ok names) s =
      if contains names name
      then execute_removal (removal_plan name s) s
      else (s, some not_installed)

  unfoldable pub clean_component : String → S → S × Option Error
  unfolding removed_if removal_plan
  clean_component name s = removed_if name (m.list_component_names s) s

  unfoldable pub purge_componenet : String → S → S × Result (Unit {0})
  purge_componenet name s = m.purge_component_by_name name s
