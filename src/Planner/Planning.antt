-- ===== src/Planner/Planning.antt =====
-- planner.go: the actions for one component (`PlanFreshComponent`, `PlanRemovedComponent`,
-- `PlanUpdatedComponent`) and the plan for the host (`Plan`). The trees and components that the code
-- changes in place are returned; an action made before a change keeps its parent as it was then.
use Prim.Native.String.{◌++◌ as append_text}
use materia.Base.{
  String, Bool, ◌&&◌, not, Option, none, some, List, [], ◌∷◌, ◌++◌, ◌==◌, if◌then◌else◌, is_empty,
  nat_eq,
}
use materia.Errors.{Result, ok, err, panic, ◌>>=◌, ◌>>◌}
use materia.Deps.{Deps}
use materia.Components.Kind.{component}
use materia.Components.Resource.{Resource, no_resource}
use materia.Components.ResourceSet.{get_resource}
use materia.Components.Component.{
  Component, ComponentLifecycle, fresh, up_to_date, may_need_update, need_update, need_removal,
  default_component_version,
}
use materia.Actions.{Action, no_metadata, make_action, reload_host, setup, cleanup, execute, update}
use materia.Plan.Build.{Plan, new_plan, append_actions}
use materia.Plan.Validator.{validate_plan}
use materia.Planner.Host.{HostState, PlannerConfig}
use materia.Planner.Graph.{ComponentTree, build_component_graph, list_trees}
use materia.Planner.Resources.{
  generate_fresh_component_resources, generate_updated_component_resources,
  generate_removed_component_resources,
}
use materia.Planner.Triggers.{generate_component_service_triggers, process_triggered_updates}
use materia.Planner.Ensure.{generate_quadlet_ensurements}
use materia.Planner.ServicePlan.{generate_service_actions}

module _ ⦃D : Deps⦄ where
  -- the actions for one tree, and the tree as it is left
  pub record Planned : Type 0 where
    pub steps : List Action
    pub tree : ComponentTree

  -- a setup or cleanup script of the component, if it names one
  unfoldable pub setup_step : Component → Result (List Action)
  setup_step c =
      if not (c.settings.setup_script == "")
      then (get_resource c.resources c.settings.setup_script >>= λ res.
          ok (record (make_action setup c res) { priority = 5 } ∷ []))
      else ok []

  unfoldable pub cleanup_step : Component → Result (List Action)
  cleanup_step c =
      if not (c.settings.cleanup_script == "")
      then (get_resource c.resources c.settings.cleanup_script >>= λ res.
          ok (record (make_action cleanup c res) { priority = 2 } ∷ []))
      else ok []

  unfoldable pub plan_fresh_component :
      HostState → PlannerConfig → ComponentTree → Component → Result Planned
  plan_fresh_component mgr conf tree source = do
    installs ← generate_fresh_component_resources source
    ensures ← generate_quadlet_ensurements mgr source source
    let resources = installs ++ ensures
    let reloaded = if is_empty resources then resources else resources ++ reload_host ∷ []
    let all = do
      services ← generate_service_actions mgr (some source) none
      script ← setup_step source
      ok (record {
        steps = reloaded ++ (services ++ script);
        tree = record tree { source = some source; final_state = fresh };
      })
    if conf.only_resources
        then ok (record { steps = resources; tree = record tree { source = some source } })
        else all

  unfoldable pub plan_removed_component :
      HostState → PlannerConfig → ComponentTree → Component → Result Planned
  plan_removed_component mgr conf tree host = do
    resources ← generate_removed_component_resources mgr conf host
    let all = do
      services ← generate_service_actions mgr none (some host)
      script ← cleanup_step host
      ok (record {
        steps = (resources ++ reload_host ∷ []) ++ (services ++ script);
        tree = record tree { host = some host; final_state = need_removal };
      })
    if conf.only_resources
        then ok (record { steps = resources; tree = record tree { host = some host } })
        else all

  -- a script that runs as a transient unit of that name
  unfoldable pub script_step : Component → String → String → Resource → Action
  script_step c suffix script res = record (make_action execute c res) {
    metadata = some (record no_metadata { oneshot_name = some (append_text c.name suffix) });
  }

  unfoldable pub pre_step : PlannerConfig → Component → List Action → Result (List Action)
  pre_step conf c changes =
      if not (is_empty changes) && not (c.settings.pre_script == "") && not conf.only_resources
      then (get_resource c.resources c.settings.pre_script >>= λ res. ok (
          record (script_step c "-materia-pre-update.service" c.settings.pre_script res) {
            priority = 1;
          }
          ∷ []))
      else ok []

  unfoldable pub post_step : Component → Result (List Action)
  post_step c =
      if not (c.settings.post_script == "")
      then (get_resource c.resources c.settings.post_script >>= λ res. ok (
          record (script_step c "-materia-post-update.service" c.settings.post_script res) {
            priority = 4;
          }
          ∷ []))
      else ok []

  unfoldable pub is_current : Component → Bool
  is_current host = nat_eq host.version default_component_version

  unfoldable pub with_version : Component → Component
  with_version host =
      if is_current host then host else record host { version = default_component_version }

  -- a host component of another version gets its data rewritten
  unfoldable pub version_step : Component → Component → List Action
  version_step host source =
      if is_current host
      then []
      else make_action update (record host { version = default_component_version })
          (record no_resource { parent = source.name; kind = component; path = source.name })
        ∷ []

  unfoldable pub state_after : List Action → ComponentLifecycle
  state_after services = if is_empty services then up_to_date else need_update

  -- the daemon-reload and the post-update script, if resources changed
  unfoldable pub changed_steps : Component → List Action → Result (List Action)
  changed_steps source changes =
      if is_empty changes then ok [] else (post_step source >>= λ post. ok (reload_host ∷ post))

  unfoldable pub plan_updated_component :
      HostState → PlannerConfig → ComponentTree → Component → Component → Result Planned
  plan_updated_component mgr conf tree host source = do
    updates ← generate_updated_component_resources mgr conf host source
    pre ← pre_step conf source updates
    let changes = updates ++ version_step host source
    let host' = with_version host
    let all = do
      ensures ← generate_quadlet_ensurements mgr host' source
      changed ← changed_steps source changes
      triggers ← generate_component_service_triggers source
      triggered ← process_triggered_updates mgr triggers changes
      services ← generate_service_actions mgr (some source) (some host')
      ok (record {
        steps = (pre ++ changes) ++ (ensures ++ (changed ++ (triggered ++ services)));
        tree = record tree {
          host = some (record host' { state = state_after services });
          source = some source;
          final_state = state_after services;
        };
      })
    if conf.only_resources
        then ok (record {
          steps = pre ++ changes;
          tree = record tree { host = some host'; source = some source };
        })
        else all

  -- one turn of the loop over the trees; a tree of the graph has a side
  unfoldable pub plan_sides :
      HostState
      → PlannerConfig
      → ComponentTree
      → Option Component
      → Option Component
      → Result Planned
  plan_sides mgr conf tree none none = err panic
  plan_sides mgr conf tree none (some source) =
      plan_fresh_component mgr conf tree (record source { state = fresh })
  plan_sides mgr conf tree (some host) none =
      plan_removed_component mgr conf tree (record host { state = need_removal })
  plan_sides mgr conf tree (some host) (some source) =
      plan_updated_component mgr conf tree (record host { state = may_need_update })
        (record source { state = fresh })

  unfoldable pub plan_tree : HostState → PlannerConfig → ComponentTree → Result Planned
  plan_tree mgr conf tree = plan_sides mgr conf tree tree.host tree.source

  unfoldable pub plan_trees : HostState → PlannerConfig → List ComponentTree → Plan → Result Plan
  plan_trees mgr conf [] p = ok p
  plan_trees mgr conf (t ∷ ts) p = do
    planned ← plan_tree mgr conf t
    p' ← append_actions p planned.steps
    plan_trees mgr conf ts p'

  unfoldable pub names_of : List Component → List String
  names_of [] = []
  names_of (c ∷ cs) = c.name ∷ names_of cs

  unfoldable pub make_plan :
      HostState → PlannerConfig → List Component → List Component → Result Plan
  make_plan mgr conf installed assigned = do
    graph ← build_component_graph installed assigned
    p ← plan_trees mgr conf (list_trees graph) new_plan
    validate_plan (names_of installed) p
    ok p
