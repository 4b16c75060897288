-- ===== src/Planner/Host.antt =====
-- `HostStateManager` and `PlannerConfig` (planner.go, planner_config.go): the state of the host, as
-- the planner sees it. The host does not change while a plan is made, so a question has one answer.
use materia.Base.{String, Bool, true, false, List}
use materia.Errors.{Error, Result, service_not_found, podman_object_not_found}
use materia.Services.{Service}

pub record Volume : Type 0 where
  pub name : String
  pub mountpoint : String
  pub driver : String

-- the containers of a network by their names
pub record Network : Type 0 where
  pub name : String
  pub containers : List String

pub record Image : Type 0 where
  pub names : List String
  pub id : String

pub record HostState : Type 0 where
  pub list_volumes : Result (List Volume)
  pub get_network : String → Result Network
  pub list_images : Result (List Image)
  pub list_networks : Result (List Network)
  pub get_volume : String → Result Volume
  pub get_service : String → Result Service

pub record PlannerConfig : Type 0 where
  pub only_resources : Bool
  pub cleanup_quadlets : Bool
  pub cleanup_volumes : Bool
  pub backup_volumes : Bool
  pub migrate_volumes : Bool

abbrev pub default_planner_config : PlannerConfig
default_planner_config = record {
  only_resources = false;
  cleanup_quadlets = false;
  cleanup_volumes = false;
  backup_volumes = true;
  migrate_volumes = false;
}

-- errors.Is(err, services.ErrServiceNotFound) and errors.Is(err, containers.ErrPodmanObjectNotFound)
unfoldable pub is_service_not_found : Error → Bool
is_service_not_found service_not_found = true
is_service_not_found _ = false

unfoldable pub is_object_not_found : Error → Bool
is_object_not_found podman_object_not_found = true
is_object_not_found _ = false
