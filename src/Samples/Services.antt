-- ===== src/Samples/Services.antt =====
-- A unit that gets active after two seconds, and a plan that starts it and waits for it.
use materia.Components.Resource.{validate_resource, service_of}
use materia.Actions.{validate_action, checked_diff}
use materia.Executor.Services.{
  modify_service, is_no_service, get_service_type, service_type, marked, wait_service, wait_if,
  until_state,
}
use materia.Executor.Handlers.{service_action}
use materia.Executor.Table.{execute_action, dispatch, handler_for, handle}
use materia.Plan.Steps.{
  merge_steps_into_plan, coalesce_services, switches, actions_at, paths_of, slots_of, update_slot,
  open_slot, has_slot, action_at, raise,
}
use materia.Deps.{assoc_get, keys_of, assoc_put}
use materia.Base.{
  ℕ, ◌+◌, ◌≡◌, ◌≢◌, refl, [], ◌∷◌, none, if◌then◌else◌, ltb, true, false, sort_stable, sort_texts,
  replace_all, base_name,
}
use materia.Errors.{ok}
use materia.Deps.Model.{list_deps}
use materia.Services.{state_active, new_service_state}
use materia.Services.Manager.{
  Bus, ServiceManager, answered, timer_fired, text, wait_until_state, wait_listed, wait_loop,
  apply_service, job_done, wait_for_callback, get_service,
}
use materia.Services.Waiting.{Waited, wait_until_state-Waited}
use materia.Plan.Build.{
  Plan, is_empty_plan, steps, resource_steps, list_components, without_root, get_resource_changes,
  changes_at, reload_steps, service_steps, get_service_changes,
}
use materia.Executor.Run.{
  execute_plan, check_services, run_steps, carry, check_expected, expect_all, note_step,
  note_service, expect_found, expect, verdict, check_all, check_rest, check_one,
}
use materia.Hostman.Units.{with_services, Seen, execute_plan-Seen, unit_call}
use materia.Samples.Data.{start_web}
use materia.Samples.Executions.{good_host, sample_executor}

-- the host is the time on its clock
abbrev slow_bus : Bus ℕ
slow_bus = record {
  list_units_by_names = λ names s. ok (record { load_state = "loaded" } ∷ []);
  get_all_properties = λ name s. ok (
      ("ActiveState", text (if ltb s 2 then "activating" else "active"))
      ∷ ("UnitFileState", text "disabled")
      ∷ []);
  reload = λ s. (s, ok tt);
  unit_job = λ job name s. (s, ok tt);
  enable_unit_files = λ names s. (s, ok tt);
  disable_unit_files = λ names s. (s, ok tt);
  start_transient_unit = λ name actions s. (s, ok tt);
  callback = λ timeout s. (s, answered "done");
  generator = λ args s. (s, ok tt);
  rounds = λ timeout s. record { ticks = timeout; ending = timer_fired };
  second = λ s. s + 1;
}

abbrev root_manager : ServiceManager
root_manager = record { is_root = true; dryrun_quadlets = false }

abbrev start_plan : Plan
start_plan = record {
  size = 1;
  changes_map = ("web", record { resource_changes = []; service_changes = start_web ∷ [] }) ∷ [];
  need_reload = false;
}

slow-wait : wait_until_state slow_bus "web.service" state_active 90 0 ≡ (2, ok tt)
unfolding wait_until_state wait_listed wait_loop assoc_get new_service_state
slow-wait = refl

active_apart : state_active ≢ "wildcard"
active_apart e = cc

wait_until_state-Waited_example : Waited slow_bus 90 "web.service" state_active 0 2
wait_until_state-Waited_example =
    wait_until_state-Waited slow_bus "web.service" state_active 90 0 2 active_apart slow-wait

start_plan-full : is_empty_plan start_plan ≡ false
unfolding is_empty_plan
start_plan-full = refl

start_plan-runs :
    execute_plan (with_services slow_bus root_manager good_host) sample_executor start_plan 0
    ≡ (2, (1, none))
unfolding execute_plan is_empty_plan check_services run_steps steps merge_steps_into_plan
    resource_steps list_components without_root keys_of get_resource_changes changes_at assoc_get
    reload_steps sort_stable service_steps coalesce_services switches get_service_changes actions_at
    sort_texts paths_of slots_of update_slot open_slot has_slot carry execute_action dispatch
    handler_for action_at raise handle service_action modify_service validate_action
    validate_resource checked_diff is_no_service get_service_type service_type marked unit_call
    apply_service job_done wait_for_callback wait_service wait_if until_state check_expected
    expect_all note_step note_service assoc_put expect_found get_service service_of replace_all
    base_name expect verdict check_all check_rest check_one wait_until_state wait_listed wait_loop
    new_service_state
start_plan-runs = refl

execute_plan-Seen_example : Seen slow_bus root_manager good_host sample_executor start_plan 0
execute_plan-Seen_example =
    execute_plan-Seen slow_bus root_manager good_host sample_executor start_plan 0 2 1
      start_plan-full start_plan-runs
