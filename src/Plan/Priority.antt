-- ===== src/Plan/Priority.antt =====
-- `getDefaultPriority` of plan.go. A kind's row is a function of the action type; `none` is a
-- missing key.
use materia.Base.{ℕ, Option, none, some}
use materia.Errors.{Result, ok, err, no_default_priority}
use materia.Actions.{
  ActionType, install, update, remove, cleanup, dump, start, stop, restart, reload, ensure, import,
  setup, execute, enable, disable,
}
use materia.Components.Kind.{
  ResourceType, component, host, container, volume, pod, network, kube, build, image, app_file,
  dropin_dir, dropin, file, manifest, script, directory, service, podman_secret,
}
use materia.Deps.{Deps}
use materia.Actions.{Action}

unfoldable pub component_row : ActionType → Option ℕ
component_row install = some 2
component_row update = some 3
component_row cleanup = some 2
component_row setup = some 5
component_row remove = some 4
component_row _ = none

unfoldable pub directory_row : ActionType → Option ℕ
directory_row install = some 2
directory_row remove = some 4
directory_row _ = none

-- manifests, app files and drop-ins
unfoldable pub plain_row : ActionType → Option ℕ
plain_row install = some 3
plain_row update = some 3
plain_row remove = some 3
plain_row _ = none

-- files and secrets
unfoldable pub file_row : ActionType → Option ℕ
file_row install = some 3
file_row update = some 3
file_row remove = some 3
file_row cleanup = some 7
file_row dump = some 2
file_row _ = none

-- containers, pods, kubes, builds and images
unfoldable pub quadlet_row : ActionType → Option ℕ
quadlet_row install = some 3
quadlet_row update = some 3
quadlet_row remove = some 3
quadlet_row cleanup = some 7
quadlet_row dump = some 2
quadlet_row start = some 6
quadlet_row stop = some 1
quadlet_row restart = some 6
quadlet_row reload = some 6
quadlet_row _ = none

unfoldable pub network_row : ActionType → Option ℕ
unfolding quadlet_row
network_row ensure = some 5
network_row t = quadlet_row t

unfoldable pub volume_row : ActionType → Option ℕ
unfolding quadlet_row
volume_row ensure = some 5
volume_row import = some 4
volume_row t = quadlet_row t

unfoldable pub script_row : ActionType → Option ℕ
unfolding file_row
script_row execute = some 3
script_row t = file_row t

unfoldable pub service_row : ActionType → Option ℕ
service_row install = some 3
service_row update = some 3
service_row remove = some 3
service_row restart = some 6
service_row start = some 6
service_row enable = some 6
service_row disable = some 6
service_row stop = some 1
service_row reload = some 6
service_row _ = none

unfoldable pub host_row : ActionType → Option ℕ
host_row reload = some 4
host_row _ = none

unfoldable pub priority_of : ResourceType → ActionType → Option ℕ
unfolding component_row directory_row plain_row file_row quadlet_row network_row volume_row
    script_row service_row host_row
priority_of component t = component_row t
priority_of directory t = directory_row t
priority_of dropin_dir t = directory_row t
priority_of manifest t = plain_row t
priority_of file t = file_row t
priority_of app_file t = plain_row t
priority_of dropin t = plain_row t
priority_of container t = quadlet_row t
priority_of pod t = quadlet_row t
priority_of kube t = quadlet_row t
priority_of network t = network_row t
priority_of build t = quadlet_row t
priority_of image t = quadlet_row t
priority_of script t = script_row t
priority_of podman_secret t = file_row t
priority_of volume t = volume_row t
priority_of service t = service_row t
priority_of host t = host_row t
priority_of _ t = none

unfoldable pub or_invalid : Option ℕ → Result ℕ
or_invalid none = err no_default_priority
or_invalid (some p) = ok p

module _ ⦃D : Deps⦄ where
  unfoldable pub get_default_priority : Action → Result ℕ
  get_default_priority a = or_invalid (priority_of a.target.kind a.todo)
