-- ===== src/Samples/Engines.antt =====
-- Planning and executing under a lock, with readers that give the sample components.
use materia.Planner.Planning
use materia.Plan.Validator.{validate_plan}
use materia.Components.ServiceConfigs.{add_config}
use materia.Planner.Graph.{build_component_graph, list_trees}
use materia.Planner.Planning.{
  make_plan, plan_trees, plan_tree, plan_sides, plan_updated_component, pre_step, with_version,
  is_current, changed_steps, post_step, version_step,
}
use materia.Components.ResourceSet.{list_resources, set_resource}
use materia.Executor.Services.{
  modify_service, is_no_service, get_service_type, service_type, marked, wait_service, wait_if,
  until_state, wait_for,
}
use materia.Executor.Handlers.{service_action}
use materia.Executor.Table.{execute_action, dispatch, handler_for, handle}
use materia.Plan.Steps.{
  merge_steps_into_plan, coalesce_services, switches, actions_at, paths_of, slots_of, update_slot,
  open_slot, has_slot, action_at, raise,
}
use materia.Plan.Priority.{get_default_priority, or_invalid, priority_of}
use materia.Actions.{validate_action, checked_diff, parent_name}
use materia.Base.{
  subst, trim_suffix, ext, ℕ, ◌+◌, ◌-◌, ◌≡◌, ◌≢◌, refl, Bool, true, false, none, some, [], ◌∷◌,
  sort_texts, if◌then◌else◌, sort_stable, contains_text, base_name, trim_suffix,
}
use materia.Errors.{
  >>=-eq-ok, ok_injective, Result, ok, err, need_rollback, host_failure, service_unhealthy,
  state_change_failed,
}
use materia.Deps.{assoc_get, keys_of, tree_put, values_of, assoc_put, insert_by}
use materia.Deps.Model.{list_deps}
use materia.Manifests.{ComponentManifest, no_settings, validate_service_config}
use materia.Manifests.Hosts.{MateriaManifest, get_component_override, get_component_extension}
use materia.Components.Component.{
  Component, new_component, validate_component, is_instanced, apply_manifest, add_service_configs,
  mark_scripts, add_secrets, instantiate_service_config,
}
use materia.Components.Resource.{validate_resource, is_quadlet, get_host_object}
use materia.Loader.Stages.{
  ComponentReader, SecretsManager, component_init, manifest_load, resource_discovery,
  component_instance, quadlet_object_extractor, secret_discovery, state_injector,
  template_processor, secret_injector, quadlet_expander,
}
use materia.Loader.Pipeline.{
  source_component_pipeline, load, host_component_pipeline, template_and_secrets,
}
use materia.Plan.Build.{
  add_action, Plan, is_empty_plan, new_plan, steps, add_defaulted, place_default,
  add_service_change, counted, resource_steps, list_components, without_root, get_resource_changes,
  changes_at, reload_steps, service_steps, get_service_changes,
}
use materia.Planner.Host.{default_planner_config}
use materia.Executor.Host.{Host, Call, wait_until_state}
use materia.Executor.Run.{execute_plan, check_services, run_steps, carry}
use materia.Engine.Backend.{Materia, Locker, with_lock, locked_body, unlocked}
use materia.Engine.Assigned.{get_assigned_components}
use materia.Engine.Planning.{load_installed, load_assigned, plan, plan_body}
use materia.Engine.Missing.{plan_missing_host}
use materia.Engine.Planned.{Planned, plan-Planned}
use materia.Engine.Execution.{execute, run_executor, reported, cleaned}
use materia.Engine.Executed.{Executed, Unhealthy, execute_rolled_back}
use materia.Samples.Data.{web_service, host_web, source_web, quiet_host}
use materia.Samples.Planners.{plan-done, web_plan}
use materia.Samples.Executions.{good_host, sample_executor, web_plan-runs, start_once}

-- the lock lies in the state until it is taken
abbrev counting_lock : Locker ℕ
counting_lock = record { lock_or_wait = λ s. (s - 1, ok tt); unlock = λ s. (s + 1, ok tt) }

abbrev pub sample_manifest : ComponentManifest
sample_manifest = record {
  defaults = [];
  settings = no_settings;
  snippets = [];
  services = web_service ∷ [];
  scripts = [];
  secrets = [];
}

-- the components come with their contents
abbrev pub reader_of : Component → ComponentReader
reader_of c = record {
  get_component = λ name. ok c;
  get_manifest = λ c. ok sample_manifest;
  read_resource = λ res. ok res.content;
}

abbrev pub no_secrets : SecretsManager
no_secrets = record { list_secrets = ok []; get_secret = λ name. err host_failure }

abbrev pub web_manifest : MateriaManifest
web_manifest = record {
  hosts =
      ("all", record { components = "web" ∷ []; roles = []; overrides = []; extensions = [] }) ∷ [];
  snippets = [];
  roles = [];
  role_command = "";
}

abbrev pub box_manifest : MateriaManifest
box_manifest = record web_manifest {
  hosts =
      ("box", record { components = "web" ∷ []; roles = []; overrides = []; extensions = [] }) ∷ [];
}

abbrev pub web_engine : MateriaManifest → Materia ℕ
web_engine manifest = record {
  list_component_names = λ s. ok ("web" ∷ []);
  list_installed_components = λ s. ok ("web" ∷ []);
  host_reader = λ s. reader_of host_web;
  secrets = λ s. no_secrets;
  host_state = λ s. quiet_host;
  host = good_host;
  purge_component_by_name = λ name s. (s + 1, ok tt);
  source_reader = λ s. reader_of source_web;
  vault = λ f. ok [];
  render = λ vars text. ok text;
  as_text = λ v. some v;
  locker = some counting_lock;
  manifest = manifest;
  executor = sample_executor;
  planner = default_planner_config;
  hostname = "box";
  roles = [];
  rollback = true;
  app_mode = false;
}

web-assigned : get_assigned_components web_manifest "box" [] ≡ "web" ∷ []
unfolding get_assigned_components sort_texts assoc_get
web-assigned = refl

box-missing : assoc_get "box" web_manifest.hosts ≡ none
unfolding assoc_get
box-missing = refl

plan_missing_host_example : plan (web_engine web_manifest) 0 ≢ (2, ok new_plan)
plan_missing_host_example =
    plan_missing_host (web_engine web_manifest) "web" [] 0 2 new_plan web-assigned box-missing

pub web-executed :
    execute (web_engine box_manifest) web_plan 1
    ≡ (7, (record { steps_completed = 5; rolled_back = false; error = none }, none))
unfolding execute with_lock locked_body unlocked run_executor reported cleaned
web-executed = rw web_plan-runs.1 refl

-- no service gets to the state that is waited for
is_wait : Call → Bool
is_wait (wait_until_state name state timeout) = true
is_wait _ = false

abbrev slow_host : Host ℕ
slow_host = record good_host {
  perform = λ c s. (s + 1, if is_wait c then err state_change_failed else ok tt);
}

abbrev slow_engine : Materia ℕ
slow_engine = record (web_engine box_manifest) { host = slow_host }

plan_or_empty : Result Plan → Plan
plan_or_empty (ok p) = p
plan_or_empty (err e) = new_plan

abbrev start_plan : Plan
start_plan = plan_or_empty (add_action new_plan start_once)

slow-executed : execute slow_engine start_plan 0 ≡ (
  3,
  (
    record { steps_completed = 0; rolled_back = true; error = some service_unhealthy },
    some need_rollback,
  ),
)
unfolding execute with_lock execute_plan reported is_empty_plan plan_or_empty add_action
    validate_action validate_resource checked_diff add_defaulted get_default_priority or_invalid
    priority_of place_default add_service_change parent_name counted check_services run_steps steps
    merge_steps_into_plan resource_steps list_components without_root keys_of tree_put
    get_resource_changes changes_at assoc_get reload_steps sort_stable service_steps
    coalesce_services switches get_service_changes actions_at sort_texts paths_of slots_of
    update_slot open_slot has_slot carry execute_action dispatch handler_for action_at raise handle
    service_action modify_service is_no_service get_service_type service_type marked is_wait
    wait_service wait_if until_state wait_for
slow-executed = refl

execute_rolled_back_example :
    Unhealthy slow_engine start_plan 0
      (record { steps_completed = 0; rolled_back = true; error = some service_unhealthy })
      (some need_rollback)
execute_rolled_back_example = execute_rolled_back slow_engine start_plan 0 3 _ _ slow-executed refl

loaded-host : load_installed (web_engine box_manifest) 0 ("web" ∷ []) ≡ ok (host_web ∷ [])
unfolding load_installed new_component contains_text load host_component_pipeline component_init
    manifest_load apply_manifest add_service_configs validate_service_config mark_scripts
    list_resources values_of resource_discovery add_secrets sort_texts component_instance
    quadlet_object_extractor set_resource assoc_put is_quadlet get_host_object secret_discovery
    state_injector validate_component is_instanced add_config trim_suffix insert_by base_name
    instantiate_service_config ext
loaded-host = refl

loaded-source :
    load_assigned (web_engine box_manifest) 0 (get_assigned_components box_manifest "box" [])
    ≡ ok (source_web ∷ [])
unfolding load_assigned get_assigned_components sort_texts assoc_get new_component contains_text
    get_component_override get_component_extension load source_component_pipeline component_init
    manifest_load apply_manifest add_service_configs validate_service_config mark_scripts
    list_resources values_of resource_discovery add_secrets template_and_secrets template_processor
    set_resource assoc_put component_instance secret_injector quadlet_expander
    quadlet_object_extractor is_quadlet get_host_object state_injector validate_component
    is_instanced add_config trim_suffix base_name insert_by ext instantiate_service_config
loaded-source = refl

-- the same check that the planner has made, as the component has no instance
web-validated : validate_plan ("web" ∷ []) web_plan ≡ ok tt
unfolding make_plan Planning.names_of
web-validated =
    let (graph, _, h₁) =
      >>=-eq-ok (build_component_graph (host_web ∷ []) (source_web ∷ [])) _ plan-done.0 in
    let (p, _, h₂) =
      >>=-eq-ok (plan_trees quiet_host default_planner_config (list_trees graph) new_plan) _ h₁ in
    let (_, checked, h₃) = >>=-eq-ok (validate_plan (Planning.names_of (host_web ∷ [])) p) _ h₂ in
    subst (λ q. validate_plan ("web" ∷ []) q ≡ ok tt) (ok_injective h₃) checked

pub engine-planned : plan (web_engine box_manifest) 1 ≡ (1, ok web_plan)
unfolding plan with_lock locked_body unlocked plan_body
engine-planned = rw (loaded-host, loaded-source, plan-done.0, web-validated) refl

plan-Planned_example : Planned (web_engine box_manifest) 1 1 web_plan
plan-Planned_example = plan-Planned (web_engine box_manifest) 1 1 web_plan engine-planned
