-- ===== src/Planner/Cleanup.antt =====
-- planner.go: the podman objects that a removed quadlet leaves behind, and the steps that move a
-- volume's contents over to its new definition.
use materia.Base.{
  String, Bool, true, false, ◌||◌, not, Option, none, some, List, [], ◌∷◌, ◌++◌, ◌==◌,
  if◌then◌else◌, contains,
}
use materia.Errors.{Result, ok, err, ◌>>=◌, not_a_volume}
use materia.Deps.{Deps}
use materia.Manifests.{ServiceResourceConfig}
use materia.Services.{started}
use materia.Components.Kind.{ResourceType, network, build, image, volume, kind_eq}
use materia.Components.Resource.{Resource}
use materia.Components.ServiceConfigs.{list_configs}
use materia.Components.Component.{Component}
use materia.Actions.{
  start, stop, cleanup, dump, ensure, import, ActionMetadata, no_metadata, Action, make_action,
}
use materia.Planner.Host.{HostState, PlannerConfig, Volume, Image, is_object_not_found}
use materia.Planner.ServiceActions.{get_service_action, get_live_service}

module _ ⦃D : Deps⦄ where
  -- an object that is gone needs no cleanup
  unfoldable pub unless_gone : {A : Type 0} → Result A → List Action → Result (List Action)
  unfolding is_object_not_found
  unless_gone (ok a) steps = ok steps
  unless_gone (err e) steps = if is_object_not_found e then ok [] else err e

  -- one cleanup for each image that has the name
  unfoldable pub image_cleanups : Component → Resource → List Image → List Action
  image_cleanups parent res [] = []
  image_cleanups parent res (i ∷ is) =
      if contains i.names res.host_object
      then make_action cleanup parent res ∷ image_cleanups parent res is
      else image_cleanups parent res is

  unfoldable pub backup_step : Bool → Component → Resource → List Action
  backup_step true parent res = make_action dump parent res ∷ []
  backup_step false parent res = []

  unfoldable pub cleanup_images : HostState → Component → Resource → Result (List Action)
  cleanup_images mgr parent res = do images ← mgr.list_images; ok (image_cleanups parent res images)

  -- the switch on the kind
  unfoldable pub cleanup_of :
      HostState → PlannerConfig → Component → Resource → ResourceType → Result (List Action)
  cleanup_of mgr opts parent res network =
      unless_gone (mgr.get_network res.host_object) (make_action cleanup parent res ∷ [])
  cleanup_of mgr opts parent res build = cleanup_images mgr parent res
  cleanup_of mgr opts parent res image = cleanup_images mgr parent res
  cleanup_of mgr opts parent res volume =
      if not opts.cleanup_volumes
      then ok []
      else unless_gone (mgr.get_volume res.host_object)
          (backup_step opts.backup_volumes parent res ++ make_action cleanup parent res ∷ [])
  cleanup_of mgr opts parent res _ = ok []

  unfoldable pub generate_cleanup_resource_actions :
      HostState → PlannerConfig → Component → Resource → Result (List Action)
  generate_cleanup_resource_actions mgr opts parent res = cleanup_of mgr opts parent res res.kind

  unfoldable pub has_volume : String → List Volume → Bool
  has_volume name [] = false
  has_volume name (v ∷ vs) = v.name == name || has_volume name vs

  unfoldable pub or_no_metadata : Option ActionMetadata → ActionMetadata
  or_no_metadata none = no_metadata
  or_no_metadata (some m) = m

  -- stop now, and wait until the unit is inactive
  unfoldable pub stop_first : Action → Action
  stop_first a = record a {
    priority = 1;
    metadata = some (record (or_no_metadata a.metadata) { service_until_state = some "inactive" });
  }

  -- the loop over the services: those that run are stopped
  unfoldable pub stop_running :
      HostState → Component → List ServiceResourceConfig → Result (List Action)
  stop_running mgr parent [] = ok []
  stop_running mgr parent (s ∷ ss) = do
    current ← get_live_service mgr s
    if not (started current)
        then stop_running mgr parent ss
        else (get_service_action s parent stop >>= λ a.
            stop_running mgr parent ss >>= λ stops. ok (stop_first a ∷ stops))

  -- the loop over the stopped services
  unfoldable pub start_again : Component → List Action → List Action
  start_again parent [] = []
  start_again parent (a ∷ rest) =
      record (make_action start parent a.target) {
        priority = 5;
        metadata = some (record no_metadata { service_until_state = some "active" });
      }
      ∷ start_again parent rest

  unfoldable pub move_volume : Component → Resource → List Action
  move_volume parent res =
      record (make_action dump parent res) { priority = 1 }
      ∷ record (make_action cleanup parent res) { priority = 2 }
      ∷ record (make_action ensure parent res) { priority = 4 }
      ∷ record (make_action import parent res) { priority = 4 }
      ∷ []

  unfoldable pub generate_volume_migration_actions :
      HostState → Component → Resource → Result (List Action)
  unfolding kind_eq
  generate_volume_migration_actions mgr parent res =
      if not (kind_eq res.kind volume)
      then err not_a_volume
      else (mgr.list_volumes >>= λ volumes.
          if not (has_volume res.host_object volumes)
          then ok []
          else (stop_running mgr parent (list_configs parent.service_configs) >>= λ stops.
              ok (stops ++ (move_volume parent res ++ start_again parent stops))))
