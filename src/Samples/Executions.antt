-- ===== src/Samples/Executions.antt =====
-- Running the computed plan, and single steps, on hosts that count the calls.
use materia.Base.{
  ℕ, ◌+◌, ◌≡◌, ◌↔◌, refl, [], ◌∷◌, true, false, none, some, insert_stable, sort_stable, insert_text,
  sort_texts, replace_all, has_suffix, base_name, ext,
}
use materia.Errors.{ok, err, host_failure}
use materia.Deps.Model.{list_deps}
use materia.Deps.{assoc_get, assoc_put, tree_put, keys_of, values_of, insert_by, has_by}
use materia.Services.{
  new_service_state, started, path_to_service, compare_service, find_service, add_service,
  list_services, names_of as service_names, list_service_names, get_service_of, add_services,
  union_services, missing_from, difference_services,
}
use materia.Components.Kind.{kind_code, kind_eq, kind_is_quadlet, kind_is_file}
use materia.Components.Resource.{validate_resource, name_of, service_of, is_quadlet, is_file}
use materia.Components.ResourceSet.{
  is_there, or_not_found, contains_resource, add_resource, list_resources, get_resource,
  or_unchanged, try_add, add_where, intersection_resources, difference_resources,
}
use materia.Components.ServiceConfigs.{
  compare_service_resource, find_config, add_config, list_configs, get_config,
}
use materia.Components.Component.{
  is_unknown, is_instanced, instance_name, instantiate_resource, validate_component, wanted_service,
  add_wanted, to_service_state,
}
use materia.Actions.{
  todo_code, todo_eq, is_service_action, is_resource_action, is_nil, checked_diff, validate_action,
  get_content_as_diffs, name_of_parent, parent_name,
}
use materia.Plan.Priority.{
  quadlet_row, network_row, volume_row, host_row, priority_of, or_invalid, get_default_priority,
}
use materia.Plan.Steps.{
  due, not_due, merge_steps_into_plan, raise_to, raise, has_slot, open_slot, update_slot, is_switch,
  switches, slots_of, paths_of, or_zero, action_at, actions_at, coalesce_services,
}
use materia.Plan.Build.{
  or_empty, changes_at, add_resource_change, add_service_change, counted, place_default,
  add_defaulted, add_manual, add_action, append_actions, is_empty_plan, without_root,
  list_components, get_resource_changes, get_service_changes, resource_steps, service_steps,
  reload_steps, steps,
}
use materia.Plan.Validator.{
  installs_unit, reloads_units, reload_loop, validate_reload, validate_combined, lacks_object,
  validate_quadlets, removes_volume, dumps_volume, note_removal, dump_loop, validate_dumps,
  install_loop, validate_installs, validate_plan,
}
use materia.Planner.Host.{is_service_not_found}
use materia.Planner.Graph.{
  names_differ, both_missing, add_tree, trees_at, list_trees, host_tree, add_installed, source_tree,
  add_assigned, build_component_graph,
}
use materia.Planner.ServiceActions.{
  service_action_with_metadata, container_action, parsed_container, resource_action_with_metadata,
  action_on, get_service_action, step_if, is_absent, is_enabled, service_state_helper,
}
use materia.Planner.Resources.{
  shown_content, install_action, install_all, cleanup_if, is_user_dropin, remove_missing,
  has_changes, migrate_if, update_one, update_common, generate_updated_component_resources,
}
use materia.Planner.Triggers.{
  or_nil, add_trigger, add_triggers, config_triggers, is_there as has_triggers, own_triggers,
  generate_component_service_triggers, active_only, triggered_by, process_triggered_updates,
}
use materia.Planner.Ensure.{
  questionable, object_exists, ensure_one, ensure_each, generate_quadlet_ensurements,
}
use materia.Planner.ServicePlan.{
  services_of, live_entry, add_live, actions_for, is_running, configured_actions, stop_untracked,
  stop_each, live_or_zero, assign_each, generate_service_actions,
}
use materia.Planner.Planning.{
  pre_step, post_step, is_current, with_version, version_step, state_after, changed_steps,
  plan_updated_component, plan_sides, plan_tree, plan_trees, names_of, make_plan,
}
use materia.Actions.{Action}
use materia.Executor.Services.{
  service_type, get_service_type, or_default, timeout_of, is_no_service, marked, modify_service,
  wait_for, until_state, wait_if, wait_service,
}
use materia.Executor.Handlers.{install_or_update_file, remove_file, service_action}
use materia.Executor.Table.{
  file_handlers, volume_handlers, kube_handlers, pod_handlers, container_handlers, network_handlers,
  build_handlers, host_handlers, or_no_handler, handler_for, handle, dispatch, execute_action,
}
use materia.Executor.Run.{
  note_service, note_step, expect, expect_found, carry, run_steps, expect_all, check_one,
  check_rest, check_all, verdict, check_expected, check_services, execute_plan,
}
use materia.Executor.Run.{no_progress}
use materia.Executor.Host.{Host, Executor}
use materia.Executor.Coverage.{is_handled, unhandled, handler_for-priority_of}
use materia.Executor.Success.{Stopped, Succeeded, run_steps-Stopped, execute_plan-Succeeded}
use materia.Components.Kind.{container}
use materia.Actions.{Action, make_action, start, no_metadata}
use materia.Services.{state_wildcard}
use materia.Samples.Data.{source_web, new_web, running_web, install_web}
use materia.Samples.Planners.{web_plan}

-- every call succeeds and is counted
abbrev pub good_host : Host ℕ
good_host = record {
  perform = λ c s. (s + 1, ok tt);
  get_service = λ name s. ok running_web;
  containers_with_volume = λ name s. ok [];
  containers_with_image = λ name s. ok [];
  network_containers = λ name s. ok [];
}

-- every call fails
abbrev bad_host : Host ℕ
bad_host = record good_host { perform = λ c s. (s + 1, err host_failure) }

abbrev pub sample_executor : Executor
sample_executor = record {
  config = record {
    cleanup_components = false;
    materia_dir = "/var/lib/materia";
    quadlet_dir = "/etc/containers/systemd";
    scripts_dir = "/usr/local/bin";
    service_dir = "/etc/systemd/system";
    output_dir = "/var/lib/materia/output";
  };
  default_timeout = 90;
}

-- five steps of one call each, and the wait for the service at the end
pub web_plan-runs :
    (is_empty_plan web_plan ≡ false)
    × (execute_plan good_host sample_executor web_plan 0 ≡ (6, (5, none)))
unfolding insert_stable sort_stable insert_text sort_texts replace_all has_suffix base_name ext
    assoc_get assoc_put tree_put keys_of values_of insert_by has_by new_service_state started
    path_to_service compare_service find_service add_service list_services service_names
    list_service_names get_service_of add_services union_services missing_from difference_services
    kind_code kind_eq kind_is_quadlet kind_is_file validate_resource name_of service_of is_quadlet
    is_file is_there or_not_found contains_resource add_resource list_resources get_resource
    or_unchanged try_add add_where intersection_resources difference_resources
    compare_service_resource find_config add_config list_configs get_config is_unknown is_instanced
    instance_name instantiate_resource validate_component wanted_service add_wanted to_service_state
    todo_code todo_eq is_service_action is_resource_action is_nil checked_diff validate_action
    get_content_as_diffs name_of_parent parent_name quadlet_row network_row volume_row host_row
    priority_of or_invalid get_default_priority due not_due merge_steps_into_plan raise_to raise
    has_slot open_slot update_slot is_switch switches slots_of paths_of or_zero action_at actions_at
    coalesce_services or_empty changes_at add_resource_change add_service_change counted
    place_default add_defaulted add_manual add_action append_actions is_empty_plan without_root
    list_components get_resource_changes get_service_changes resource_steps service_steps
    reload_steps steps installs_unit reloads_units reload_loop validate_reload validate_combined
    lacks_object validate_quadlets removes_volume dumps_volume note_removal dump_loop validate_dumps
    install_loop validate_installs validate_plan is_service_not_found names_differ both_missing
    add_tree trees_at list_trees host_tree add_installed source_tree add_assigned
    build_component_graph service_action_with_metadata container_action parsed_container
    resource_action_with_metadata action_on get_service_action step_if is_absent is_enabled
    service_state_helper shown_content install_action install_all cleanup_if is_user_dropin
    remove_missing has_changes migrate_if update_one update_common
    generate_updated_component_resources or_nil add_trigger add_triggers config_triggers
    has_triggers own_triggers generate_component_service_triggers active_only triggered_by
    process_triggered_updates questionable object_exists ensure_one ensure_each
    generate_quadlet_ensurements services_of live_entry add_live actions_for is_running
    configured_actions stop_untracked stop_each live_or_zero assign_each generate_service_actions
    pre_step post_step is_current with_version version_step state_after changed_steps
    plan_updated_component plan_sides plan_tree plan_trees names_of make_plan service_type
    get_service_type or_default timeout_of is_no_service marked modify_service wait_for until_state
    wait_if wait_service install_or_update_file remove_file service_action file_handlers
    volume_handlers kube_handlers pod_handlers container_handlers network_handlers build_handlers
    host_handlers or_no_handler handler_for handle dispatch execute_action note_service note_step
    expect expect_found carry run_steps expect_all check_one check_rest check_all verdict
    check_expected check_services execute_plan
web_plan-runs = (refl, refl)

execute_plan-Succeeded_example : Succeeded good_host sample_executor web_plan 0 6 5
execute_plan-Succeeded_example =
    execute_plan-Succeeded good_host sample_executor web_plan 0 6 5 web_plan-runs.0 web_plan-runs.1

install-fails :
    run_steps bad_host sample_executor (install_web ∷ []) no_progress 0
    ≡ (1, (no_progress, some host_failure))
unfolding run_steps carry execute_action dispatch handle handler_for or_no_handler
    container_handlers pod_handlers kube_handlers file_handlers install_or_update_file
    get_content_as_diffs is_resource_action todo_eq todo_code
install-fails = refl

run_steps-Stopped_example : Stopped bad_host sample_executor (install_web ∷ []) 0 1 host_failure
run_steps-Stopped_example =
    run_steps-Stopped bad_host sample_executor (install_web ∷ []) no_progress 0 1 no_progress
      host_failure install-fails

start_priority : priority_of container start ≡ some 6
unfolding priority_of quadlet_row
start_priority = refl

handler_for-priority_of_example :
    (is_handled (handler_for container start) ≡ true) ↔ (unhandled container start ≡ false)
handler_for-priority_of_example = handler_for-priority_of container start 6 start_priority

abbrev pub start_once : Action
start_once = record (make_action start source_web new_web) {
  metadata = some (record no_metadata { service_until_state = some state_wildcard });
}
