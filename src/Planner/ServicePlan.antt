-- ===== src/Planner/ServicePlan.antt =====
-- planner.go: bringing the services of a component to their assigned states
-- (`GenerateServiceActions`). A missing component is `none`.
use materia.Base.{
  String, Bool, ◌||◌, not, Option, none, some, List, [], ◌∷◌, ◌++◌, ◌==◌, if◌then◌else◌,
}
use materia.Errors.{Result, ok, err, panic, ◌>>=◌}
use materia.Deps.{Deps}
use materia.Manifests.{ServiceResourceConfig}
use materia.Services.{
  Service, no_service, ServiceSet, new_service_set, add_service, list_services, list_service_names,
  get_service_of, union_services, difference_services, path_to_service, state_active,
  state_activating, state_inactive,
}
use materia.Components.ServiceConfigs.{get_config}
use materia.Components.Component.{Component, to_service_state}
use materia.Actions.{ActionType, Action}
use materia.Planner.Host.{HostState, is_service_not_found}
use materia.Planner.ServiceActions.{get_service_action, service_state_helper}

module _ ⦃D : Deps⦄ where
  unfoldable pub services_of : Option Component → ServiceSet
  services_of none = new_service_set
  services_of (some c) = to_service_state c

  -- the entry that the live state of one name adds: a unit that is not found is inactive under the
  -- name as it is written
  unfoldable pub live_entry : String → Result Service → Result Service
  unfolding is_service_not_found
  live_entry v (ok live) = ok live
  live_entry v (err e) =
      if is_service_not_found e
      then ok (record { name = v; state = state_inactive; type = ""; enabled = "" })
      else err e

  unfoldable pub add_live : HostState → ServiceSet → List String → Result ServiceSet
  add_live mgr set [] = ok set
  add_live mgr set (v ∷ vs) = do
    entry ← live_entry v (mgr.get_service (path_to_service v))
    add_live mgr (add_service set entry) vs

  -- `getServiceAction` on each of the types
  unfoldable pub actions_for :
      ServiceResourceConfig → Component → List ActionType → Result (List Action)
  actions_for src comp [] = ok []
  actions_for src comp (t ∷ ts) = do
    act ← get_service_action src comp t
    rest ← actions_for src comp ts
    ok (act ∷ rest)

  unfoldable pub is_running : Service → Bool
  is_running live = live.state == state_active || live.state == state_activating

  -- `c.ServiceConfigs.Get(name)` and the actions for it; a nil component stops the program
  unfoldable pub configured_actions :
      Option Component → String → List ActionType → Result (List Action)
  configured_actions none name ts = err panic
  configured_actions (some c) name ts = do
    src ← get_config c.service_configs name
    actions_for src c ts

  unfoldable pub stop_untracked : Option Component → String → Result Service → Result (List Action)
  unfolding is_service_not_found
  stop_untracked host name (err e) = if is_service_not_found e then ok [] else err e
  stop_untracked host name (ok live) =
      if not (is_running live)
      then ok []
      else configured_actions host name (service_state_helper no_service live)

  -- the loop over the services that are no longer wanted, looked up under the name as written
  unfoldable pub stop_each : ServiceSet → Option Component → List Service → Result (List Action)
  stop_each hosts host [] = ok []
  stop_each hosts host (v ∷ vs) = do
    here ← stop_untracked host v.name (get_service_of hosts v.name)
    rest ← stop_each hosts host vs
    ok (here ++ rest)

  -- a service that is not found stands for the zero value
  unfoldable pub live_or_zero : Result Service → Result Service
  unfolding is_service_not_found
  live_or_zero (ok live) = ok live
  live_or_zero (err e) = if is_service_not_found e then ok no_service else err e

  -- the loop over the assigned services, looked up under their unit's name
  unfoldable pub assign_each : ServiceSet → Option Component → List Service → Result (List Action)
  assign_each hosts source [] = ok []
  assign_each hosts source (v ∷ vs) = do
    live ← live_or_zero (get_service_of hosts (path_to_service v.name))
    here ← configured_actions source v.name (service_state_helper v live)
    rest ← assign_each hosts source vs
    ok (here ++ rest)

  unfoldable pub generate_service_actions :
      HostState → Option Component → Option Component → Result (List Action)
  generate_service_actions mgr source host = do
    let assigned = services_of source
    let current = services_of host
    let names = list_service_names assigned ++ list_service_names current
    hosts ← add_live mgr (union_services assigned current) names
    stops ← stop_each hosts host (list_services (difference_services current assigned))
    starts ← assign_each hosts source (list_services assigned)
    ok (stops ++ starts)
