-- ===== src/Samples/Planners.antt =====
-- A plan for an empty host and an update of a running component, computed.
use materia.Base.{String, ◌≡◌, refl, List, [], ◌∷◌}
use materia.Errors.{Result, ok, err}
use materia.Deps.Model.{list_deps}
use materia.Base.{insert_stable, sort_stable, insert_text, sort_texts}
use materia.Base.{replace_all, has_suffix, base_name, ext}
use materia.Deps.{assoc_get, assoc_put, tree_put, keys_of, values_of, insert_by, has_by}
use materia.Services.{
  new_service_state, started, path_to_service, compare_service, find_service, add_service,
  list_services, names_of as service_names, list_service_names, get_service_of, add_services,
  union_services, missing_from, difference_services,
}
use materia.Components.Kind.{kind_code, kind_eq, kind_is_quadlet, kind_is_file}
use materia.Components.Resource.{validate_resource, name_of, service_of, is_quadlet, is_file}
use materia.Components.ResourceSet.{
  is_there, or_not_found, contains_resource, add_resource, list_resources, get_resource,
  or_unchanged, try_add, add_where, intersection_resources, difference_resources,
}
use materia.Components.ServiceConfigs.{
  compare_service_resource, find_config, add_config, list_configs, get_config,
}
use materia.Components.Component.{
  is_unknown, is_instanced, instance_name, instantiate_resource, validate_component, wanted_service,
  add_wanted, to_service_state,
}
use materia.Actions.{
  todo_code, todo_eq, is_service_action, is_nil, checked_diff, validate_action, name_of_parent,
  parent_name,
}
use materia.Plan.Priority.{
  quadlet_row, network_row, volume_row, host_row, priority_of, or_invalid, get_default_priority,
}
use materia.Plan.Steps.{
  due, not_due, merge_steps_into_plan, raise_to, raise, has_slot, open_slot, update_slot, is_switch,
  switches, slots_of, paths_of, or_zero, action_at, actions_at, coalesce_services,
}
use materia.Plan.Build.{
  Plan, new_plan, or_empty, changes_at, add_resource_change, add_service_change, counted,
  place_default, add_defaulted, add_manual, add_action, append_actions, without_root,
  list_components, get_resource_changes, get_service_changes, resource_steps, service_steps,
  reload_steps, steps,
}
use materia.Plan.Validator.{
  installs_unit, reloads_units, reload_loop, validate_reload, validate_combined, lacks_object,
  validate_quadlets, removes_volume, dumps_volume, note_removal, dump_loop, validate_dumps,
  install_loop, validate_installs, validate_plan,
}
use materia.Planner.Host.{is_service_not_found}
use materia.Planner.Graph.{
  names_differ, both_missing, add_tree, trees_at, list_trees, host_tree, add_installed, source_tree,
  add_assigned, build_component_graph,
}
use materia.Planner.ServiceActions.{
  service_action_with_metadata, container_action, parsed_container, resource_action_with_metadata,
  action_on, get_service_action, step_if, is_absent, is_enabled, service_state_helper,
}
use materia.Planner.Resources.{
  shown_content, install_action, install_all, cleanup_if, is_user_dropin, remove_missing,
  has_changes, migrate_if, update_one, update_common, generate_updated_component_resources,
}
use materia.Planner.Triggers.{
  or_nil, add_trigger, add_triggers, config_triggers, is_there as has_triggers, own_triggers,
  generate_component_service_triggers, active_only, triggered_by, process_triggered_updates,
}
use materia.Planner.Ensure.{
  questionable, object_exists, ensure_one, ensure_each, generate_quadlet_ensurements,
}
use materia.Planner.ServicePlan.{
  services_of, live_entry, add_live, actions_for, is_running, configured_actions, stop_untracked,
  stop_each, live_or_zero, assign_each, generate_service_actions,
}
use materia.Planner.Planning.{
  pre_step, post_step, is_current, with_version, version_step, state_after, changed_steps,
  plan_updated_component, plan_sides, plan_tree, plan_trees, names_of, make_plan,
}
use materia.Actions.{ActionType, Action, install, reload, remove, restart, update}
use materia.Plan.Checks.{IsValid}
use materia.Plan.Order.{IsOrdered}
use materia.Planner.Validity.{make_plan-IsValid}
use materia.Planner.Host.{default_planner_config}
use materia.Samples.Data.{host_web, source_web, quiet_host}

abbrev pub outline : List Action → List (ActionType × String)
outline [] = []
outline (a ∷ rest) = (a.todo, a.target.path) ∷ outline rest

abbrev pub plan_or_new : Result Plan → Plan
plan_or_new (ok p) = p
plan_or_new (err e) = new_plan

abbrev pub web_plan : Plan
web_plan =
    plan_or_new (make_plan quiet_host default_planner_config (host_web ∷ []) (source_web ∷ []))

-- the volume goes, the network comes, the container changes and restarts
pub plan-done :
    (make_plan quiet_host default_planner_config (host_web ∷ []) (source_web ∷ []) ≡ ok web_plan)
    × (outline (steps web_plan)
        ≡ (remove, "data.volume")
          ∷ (install, "front.network")
          ∷ (update, "web.container")
          ∷ (reload, "")
          ∷ (restart, "web.container")
          ∷ [])
unfolding insert_stable sort_stable insert_text sort_texts replace_all has_suffix base_name ext
    assoc_get assoc_put tree_put keys_of values_of insert_by has_by new_service_state started
    path_to_service compare_service find_service add_service list_services service_names
    list_service_names get_service_of add_services union_services missing_from difference_services
    kind_code kind_eq kind_is_quadlet kind_is_file validate_resource name_of service_of is_quadlet
    is_file is_there or_not_found contains_resource add_resource list_resources get_resource
    or_unchanged try_add add_where intersection_resources difference_resources
    compare_service_resource find_config add_config list_configs get_config is_unknown is_instanced
    instance_name instantiate_resource validate_component wanted_service add_wanted to_service_state
    todo_code todo_eq is_service_action is_nil checked_diff validate_action name_of_parent
    parent_name quadlet_row network_row volume_row host_row priority_of or_invalid
    get_default_priority due not_due merge_steps_into_plan raise_to raise has_slot open_slot
    update_slot is_switch switches slots_of paths_of or_zero action_at actions_at coalesce_services
    or_empty changes_at add_resource_change add_service_change counted place_default add_defaulted
    add_manual add_action append_actions without_root list_components get_resource_changes
    get_service_changes resource_steps service_steps reload_steps steps installs_unit reloads_units
    reload_loop validate_reload validate_combined lacks_object validate_quadlets removes_volume
    dumps_volume note_removal dump_loop validate_dumps install_loop validate_installs validate_plan
    is_service_not_found names_differ both_missing add_tree trees_at list_trees host_tree
    add_installed source_tree add_assigned build_component_graph service_action_with_metadata
    container_action parsed_container resource_action_with_metadata action_on get_service_action
    step_if is_absent is_enabled service_state_helper shown_content install_action install_all
    cleanup_if is_user_dropin remove_missing has_changes migrate_if update_one update_common
    generate_updated_component_resources or_nil add_trigger add_triggers config_triggers
    has_triggers own_triggers generate_component_service_triggers active_only triggered_by
    process_triggered_updates questionable object_exists ensure_one ensure_each
    generate_quadlet_ensurements services_of live_entry add_live actions_for is_running
    configured_actions stop_untracked stop_each live_or_zero assign_each generate_service_actions
    pre_step post_step is_current with_version version_step state_after changed_steps
    plan_updated_component plan_sides plan_tree plan_trees names_of make_plan
plan-done = (refl, refl)

make_plan-IsValid_example : IsValid (names_of (host_web ∷ [])) (steps web_plan) × IsOrdered web_plan
make_plan-IsValid_example =
    make_plan-IsValid quiet_host default_planner_config (host_web ∷ []) (source_web ∷ []) web_plan
      plan-done.0
