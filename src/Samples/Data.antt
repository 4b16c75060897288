-- ===== src/Samples/Data.antt =====
-- A web component on the host and in the source, with plain lists behind the containers.
use materia.Base.{String, List, [], ◌∷◌, false}
use materia.Errors.{ok, err, podman_object_not_found}
use materia.Deps.Model.{list_deps}
use materia.Manifests.{ServiceResourceConfig, no_settings, component_manifest_file}
use materia.Services.{Service}
use materia.Components.Kind.{ResourceType, container, volume, manifest, network}
use materia.Components.Resource.{Resource}
use materia.Components.Component.{Component, ComponentLifecycle, fresh, stale}
use materia.Actions.{Action, make_action, install, start, stop}
use materia.Planner.Host.{HostState}

abbrev pub resource_of : ResourceType → String → String → Resource
resource_of kind path text = record {
  path = path;
  host_object = "";
  parent = "web";
  kind = kind;
  template = false;
  content = text;
}

abbrev pub manifest_file : Resource
manifest_file = resource_of manifest component_manifest_file "web"

abbrev pub old_web : Resource
old_web = record (resource_of container "web.container" "web:1") { host_object = "systemd-web" }

abbrev pub new_web : Resource
new_web = record (resource_of container "web.container" "web:2") { host_object = "systemd-web" }

abbrev pub data_volume : Resource
data_volume = record (resource_of volume "data.volume" "data") { host_object = "systemd-data" }

abbrev pub front_network : Resource
front_network = record (resource_of network "front.network" "front") {
  host_object = "systemd-front";
}

abbrev pub web_service : ServiceResourceConfig
web_service = record {
  service = "web.container";
  restarted_by = [];
  reloaded_by = [];
  disabled = false;
  static = false;
  stopped = false;
  oneshot = false;
  timeout = 0;
}

abbrev pub component_of : ComponentLifecycle → List (String × Resource) → Component
component_of state resources = record {
  name = "web";
  instance_of = "";
  settings = no_settings;
  resources = resources;
  state = state;
  defaults = [];
  service_configs = web_service ∷ [];
  version = 1;
}

abbrev pub host_web : Component
host_web = component_of stale (
    ("MANIFEST.toml", manifest_file)
    ∷ ("web.container", old_web)
    ∷ ("data.volume", data_volume)
    ∷ [])

abbrev pub source_web : Component
source_web = component_of fresh (
    ("MANIFEST.toml", manifest_file)
    ∷ ("web.container", new_web)
    ∷ ("front.network", front_network)
    ∷ [])

abbrev pub running_web : Service
running_web = record { name = "web.service"; state = "active"; type = ""; enabled = "disabled" }

-- a host on which only the web service runs
abbrev pub quiet_host : HostState
quiet_host = record {
  list_volumes = ok [];
  get_network = λ name. err podman_object_not_found;
  list_images = ok [];
  list_networks = ok [];
  get_volume = λ name. err podman_object_not_found;
  get_service = λ name. ok running_web;
}

abbrev pub install_web : Action
install_web = make_action install source_web new_web

abbrev pub start_web : Action
start_web = record (make_action start source_web new_web) { priority = 6 }

abbrev pub stop_web : Action
stop_web = record (make_action stop source_web new_web) { priority = 1 }
