-- ===== src/Planner/Triggers.antt =====
-- planner.go: service actions that a changed resource triggers. The map from paths to actions is
-- the list of its entries.
use materia.Base.{
  String, Bool, true, false, ◌||◌, Option, none, some, List, [], ◌∷◌, ◌++◌, ◌==◌, if◌then◌else◌,
}
use materia.Errors.{Result, ok, ◌>>=◌}
use materia.Deps.{Deps, assoc_get, assoc_put}
use materia.Manifests.{ServiceResourceConfig}
use materia.Services.{state_active}
use materia.Components.Kind.{kind_eq, container, pod}
use materia.Components.Resource.{Resource, service_of}
use materia.Components.ResourceSet.{list_resources}
use materia.Components.ServiceConfigs.{list_configs}
use materia.Components.Component.{Component}
use materia.Actions.{ActionType, Action, restart, reload}
use materia.Planner.Host.{HostState}
use materia.Planner.ServiceActions.{get_service_action, resource_action_with_metadata}

module _ ⦃D : Deps⦄ where
  abbrev pub Triggers : Type 0
  Triggers = List (String × List Action)

  unfoldable pub or_nil : Option (List Action) → List Action
  or_nil none = []
  or_nil (some l) = l

  -- triggered[trigger] = append(triggered[trigger], action)
  unfoldable pub add_trigger : String → Action → Triggers → Triggers
  unfolding or_nil
  add_trigger path a t = assoc_put path (or_nil (assoc_get path t) ++ a ∷ []) t

  -- one of the inner loops
  unfoldable pub add_triggers :
      ServiceResourceConfig → Component → ActionType → List String → Triggers → Result Triggers
  add_triggers src comp a [] t = ok t
  add_triggers src comp a (path ∷ paths) t = do
    act ← get_service_action src comp a
    add_triggers src comp a paths (add_trigger path act t)

  unfoldable pub config_triggers :
      Component → List ServiceResourceConfig → Triggers → Result Triggers
  config_triggers comp [] t = ok t
  config_triggers comp (src ∷ srcs) t = do
    restarts ← add_triggers src comp restart src.restarted_by t
    reloads ← add_triggers src comp reload src.reloaded_by restarts
    config_triggers comp srcs reloads

  unfoldable pub is_there : Option (List Action) → Bool
  is_there none = false
  is_there (some l) = true

  -- containers and pods restart when they change, unless they have triggers already
  unfoldable pub own_triggers : Component → List Resource → Triggers → Result Triggers
  unfolding is_there kind_eq
  own_triggers comp [] t = ok t
  own_triggers comp (r ∷ rs) t =
      if is_there (assoc_get r.path t)
      then own_triggers comp rs t
      else if kind_eq r.kind container || kind_eq r.kind pod
      then (resource_action_with_metadata r comp restart >>= λ act.
          own_triggers comp rs (add_trigger r.path act t))
      else own_triggers comp rs t

  unfoldable pub generate_component_service_triggers : Component → Result Triggers
  generate_component_service_triggers comp = do
    t ← config_triggers comp (list_configs comp.service_configs) []
    if comp.settings.no_restart then ok t else own_triggers comp (list_resources comp.resources) t

  -- the actions whose unit is active
  unfoldable pub active_only : HostState → List Action → Result (List Action)
  active_only mgr [] = ok []
  active_only mgr (v ∷ vs) = do
    live ← mgr.get_service (service_of v.target)
    rest ← active_only mgr vs
    ok (if live.state == state_active then v ∷ rest else rest)

  unfoldable pub triggered_by : HostState → Option (List Action) → Result (List Action)
  triggered_by mgr none = ok []
  triggered_by mgr (some updated) = do actives ← active_only mgr updated; ok (actives ++ updated)

  unfoldable pub process_triggered_updates :
      HostState → Triggers → List Action → Result (List Action)
  process_triggered_updates mgr triggers [] = ok []
  process_triggered_updates mgr triggers (d ∷ ds) = do
    here ← triggered_by mgr (assoc_get d.target.path triggers)
    rest ← process_triggered_updates mgr triggers ds
    ok (here ++ rest)
