-- ===== src/Planner/ServiceActions.antt =====
-- planner.go: an action on a service, with its timeout and the state to wait for; and the steps
-- from a current to an assigned service state (`serviceStateHelper`).
use materia.Base.{
  ℕ, ◌+◌, ◌%◌, ◌^◌, String, Bool, true, false, ◌&&◌, ◌||◌, not, Option, none, some, List, [], ◌∷◌,
  ◌++◌, ◌==◌, if◌then◌else◌, nat_eq, has_suffix,
}
use materia.Errors.{
  Result, ok, err, service_config_not_found, empty_live_service, not_a_service_action,
  not_a_service_resource, bad_unit_file, invalid_container_quadlet,
}
use materia.Deps.{Deps}
use materia.Manifests.{ServiceResourceConfig}
use materia.Services.{
  Service, path_to_service, state_active, state_inactive, state_unknown, state_wildcard,
  enable_state_enabled,
}
use materia.Components.Kind.{kind_eq, container, pod, service}
use materia.Components.Resource.{Resource, no_resource, is_quadlet}
use materia.Components.ResourceSet.{get_resource}
use materia.Components.ServiceConfigs.{get_config}
use materia.Components.Component.{Component, instantiate_resource}
use materia.Actions.{
  ActionType, start, stop, enable, disable, no_metadata, Action, make_action, is_service_action,
}
use materia.Planner.Host.{HostState, is_service_not_found}

abbrev pub int_mod : ℕ
int_mod = 2 ^ 64

module _ ⦃D : Deps⦄ where
  unfoldable pub service_action_with_metadata :
      Component → Resource → ServiceResourceConfig → ActionType → Action
  service_action_with_metadata parent res s a = record (make_action a parent res) {
    metadata = some (record no_metadata {
      service_timeout = if nat_eq s.timeout 0 then none else some s.timeout;
      service_until_state = if s.oneshot then some state_wildcard else none;
    });
  }

  unfoldable pub with_timeout : Component → Resource → ActionType → ℕ → Action
  with_timeout parent res a timeout =
      record (make_action a parent (instantiate_resource parent res)) {
        metadata = some (record no_metadata { service_timeout = some timeout });
      }

  -- a container whose image another quadlet makes gets that quadlet's timeout on top of a minute
  unfoldable pub image_timeout :
      Component → Resource → ActionType → Result ServiceResourceConfig → Result Action
  image_timeout parent res a (ok src) =
      ok (with_timeout parent res a ((src.timeout + 60) % int_mod))
  image_timeout parent res a (err service_config_not_found) = ok (with_timeout parent res a 60)
  image_timeout parent res a (err e) = err e

  unfoldable pub container_action :
      Component → Resource → ActionType → Option String → Result Action
  container_action parent res a none = err invalid_container_quadlet
  container_action parent res a (some image_name) =
      if has_suffix image_name ".image" || has_suffix image_name ".build"
      then image_timeout parent res a (get_config parent.service_configs image_name)
      else ok (make_action a parent (instantiate_resource parent res))

  unfoldable pub parsed_container :
      Component → Resource → ActionType → Option D.unit.UnitFile → Result Action
  parsed_container parent res a none = err bad_unit_file
  parsed_container parent res a (some unitfile) =
      container_action parent res a (D.unit.lookup unitfile "Container" "Image")

  -- the pod's literal, in seconds
  abbrev pod_timeout : ℕ
  pod_timeout = 60000

  unfoldable pub resource_action_with_metadata : Resource → Component → ActionType → Result Action
  unfolding is_service_action is_quadlet kind_eq
  resource_action_with_metadata res parent a =
      if not (is_service_action a)
      then err not_a_service_action
      else if not (is_quadlet res) && not (kind_eq res.kind service)
      then err not_a_service_resource
      else if not (kind_eq res.kind container) && not (kind_eq res.kind pod)
      then ok (make_action a parent (instantiate_resource parent res))
      else if kind_eq res.kind pod
      then ok (with_timeout parent res a pod_timeout)
      else parsed_container parent res a (D.unit.parse res.content)

  -- a service with no resource of the component is any systemd unit
  unfoldable pub action_on :
      ServiceResourceConfig → Component → ActionType → Result Resource → Result Action
  action_on src parent a (ok res) = resource_action_with_metadata res parent a
  action_on src parent a (err e) = ok (
      service_action_with_metadata parent
        (record no_resource { parent = parent.name; path = src.service; kind = service }) src a)

  unfoldable pub get_service_action : ServiceResourceConfig → Component → ActionType → Result Action
  get_service_action src parent a =
      action_on src parent a (get_resource parent.resources src.service)

-- a service that systemd does not know is one in the state "non-existent"
unfoldable pub live_or_missing : String → Result Service → Result Service
unfolding is_service_not_found
live_or_missing name (ok s) = ok s
live_or_missing name (err e) =
    if is_service_not_found e
    then ok (record { name = name; state = "non-existent"; type = ""; enabled = "" })
    else err e

unfoldable pub get_live_service : HostState → ServiceResourceConfig → Result Service
get_live_service mgr src =
    if src.service == ""
    then err empty_live_service
    else live_or_missing (path_to_service src.service)
        (mgr.get_service (path_to_service src.service))

unfoldable pub step_if : Bool → ActionType → List ActionType
step_if true a = a ∷ []
step_if false a = []

-- the tests on one service: `Name == "" || State == StateUnknown`
unfoldable pub is_absent : Service → Bool
is_absent s = s.name == "" || s.state == state_unknown

unfoldable pub is_enabled : Service → Bool
is_enabled s = s.enabled == enable_state_enabled

unfoldable pub service_state_helper : Service → Service → List ActionType
unfolding step_if is_absent is_enabled
service_state_helper assigned current =
    if is_absent current
    then step_if (is_enabled assigned) enable ++ step_if (assigned.state == state_active) start
    else if is_absent assigned
    then step_if (is_enabled current) disable ++ step_if (current.state == state_active) stop
    else step_if (is_enabled assigned && not (is_enabled current)) enable
      ++ (step_if (not (is_enabled assigned) && is_enabled current) disable
          ++ (step_if (assigned.state == state_inactive && not (current.state == state_inactive))
                stop
              ++ step_if (assigned.state == state_active && not (current.state == state_active))
                  start))
