-- ===== src/Executor/Table.antt =====
-- handler.go and `executeAction` of execute.go: which handler runs a step.
use materia.Base.{Option, none, some}
use materia.Errors.{Result, ok, err, unsupported_resource_type, no_handler}
use materia.Deps.{Deps}
use materia.Components.Kind.{
  ResourceType, component, volume, container, pod, network, kube, build, image, combined, app_file,
  file, dropin, manifest, script, directory, dropin_dir, host, service, podman_secret,
}
use materia.Actions.{
  ActionType, install, update, remove, ensure, cleanup, import, dump, start, stop, restart, reload,
  enable, disable, execute, setup, Action,
}
use materia.Executor.Host.{Host, Exec, Executor, finish}
use materia.Executor.Handlers

pub data Handler : Type 0 where
  installs_component updates_component removes_component installs_file removes_file
        ensures_quadlet :
      Handler
  cleans_volume imports_volume dumps_volume runs_service executes_in_container cleans_network :
      Handler
  cleans_build_artifact installs_script removes_script sets_up_script cleans_up_script
        executes_script :
      Handler
  installs_dir removes_dir installs_unit removes_unit installs_secret removes_secret : Handler

unfoldable pub component_handlers : ActionType → Option Handler
component_handlers install = some installs_component
component_handlers update = some updates_component
component_handlers remove = some removes_component
component_handlers _ = none

unfoldable pub file_handlers : ActionType → Option Handler
file_handlers install = some installs_file
file_handlers update = some installs_file
file_handlers remove = some removes_file
file_handlers _ = none

unfoldable pub volume_handlers : ActionType → Option Handler
unfolding file_handlers
volume_handlers ensure = some ensures_quadlet
volume_handlers cleanup = some cleans_volume
volume_handlers import = some imports_volume
volume_handlers dump = some dumps_volume
volume_handlers t = file_handlers t

-- kubes, and what networks, builds and images share with them
unfoldable pub kube_handlers : ActionType → Option Handler
unfolding file_handlers
kube_handlers ensure = some ensures_quadlet
kube_handlers start = some runs_service
kube_handlers stop = some runs_service
kube_handlers restart = some runs_service
kube_handlers enable = some runs_service
kube_handlers disable = some runs_service
kube_handlers t = file_handlers t

unfoldable pub pod_handlers : ActionType → Option Handler
unfolding kube_handlers
pod_handlers reload = some runs_service
pod_handlers t = kube_handlers t

unfoldable pub container_handlers : ActionType → Option Handler
unfolding pod_handlers
container_handlers execute = some executes_in_container
container_handlers t = pod_handlers t

unfoldable pub network_handlers : ActionType → Option Handler
unfolding kube_handlers
network_handlers cleanup = some cleans_network
network_handlers t = kube_handlers t

unfoldable pub build_handlers : ActionType → Option Handler
unfolding kube_handlers
build_handlers cleanup = some cleans_build_artifact
build_handlers t = kube_handlers t

unfoldable pub script_handlers : ActionType → Option Handler
script_handlers install = some installs_script
script_handlers update = some installs_script
script_handlers remove = some removes_script
script_handlers setup = some sets_up_script
script_handlers cleanup = some cleans_up_script
script_handlers execute = some executes_script
script_handlers _ = none

unfoldable pub dir_handlers : ActionType → Option Handler
dir_handlers install = some installs_dir
dir_handlers remove = some removes_dir
dir_handlers _ = none

unfoldable pub host_handlers : ActionType → Option Handler
host_handlers reload = some runs_service
host_handlers _ = none

unfoldable pub service_handlers : ActionType → Option Handler
service_handlers install = some installs_unit
service_handlers update = some installs_unit
service_handlers remove = some removes_unit
service_handlers start = some runs_service
service_handlers stop = some runs_service
service_handlers restart = some runs_service
service_handlers reload = some runs_service
service_handlers enable = some runs_service
service_handlers disable = some runs_service
service_handlers _ = none

unfoldable pub secret_handlers : ActionType → Option Handler
secret_handlers install = some installs_secret
secret_handlers update = some installs_secret
secret_handlers remove = some removes_secret
secret_handlers _ = none

-- handlerList, with the two errors of a missing key
unfoldable pub or_no_handler : Option Handler → Result Handler
or_no_handler none = err no_handler
or_no_handler (some x) = ok x

unfoldable pub handler_for : ResourceType → ActionType → Result Handler
unfolding or_no_handler component_handlers file_handlers volume_handlers kube_handlers pod_handlers
    container_handlers network_handlers build_handlers script_handlers dir_handlers host_handlers
    service_handlers secret_handlers
handler_for component t = or_no_handler (component_handlers t)
handler_for volume t = or_no_handler (volume_handlers t)
handler_for container t = or_no_handler (container_handlers t)
handler_for pod t = or_no_handler (pod_handlers t)
handler_for network t = or_no_handler (network_handlers t)
handler_for kube t = or_no_handler (kube_handlers t)
handler_for build t = or_no_handler (build_handlers t)
handler_for image t = or_no_handler (build_handlers t)
handler_for combined t = or_no_handler (file_handlers t)
handler_for app_file t = or_no_handler (file_handlers t)
handler_for file t = or_no_handler (file_handlers t)
handler_for dropin t = or_no_handler (file_handlers t)
handler_for manifest t = or_no_handler (file_handlers t)
handler_for script t = or_no_handler (script_handlers t)
handler_for directory t = or_no_handler (dir_handlers t)
handler_for dropin_dir t = or_no_handler (dir_handlers t)
handler_for host t = or_no_handler (host_handlers t)
handler_for service t = or_no_handler (service_handlers t)
handler_for podman_secret t = or_no_handler (secret_handlers t)
handler_for _ t = err unsupported_resource_type

module _ ⦃D : Deps⦄ {S : Type 0} (h : Host S) (e : Executor) where
  unfoldable pub handle : Handler → Action → Exec S (Unit {0})
  handle installs_component v = Handlers.install_component_step h e v
  handle updates_component v = Handlers.update_component_step h e v
  handle removes_component v = Handlers.remove_component_step h e v
  handle installs_file v = Handlers.install_or_update_file h e v
  handle removes_file v = Handlers.remove_file h e v
  handle ensures_quadlet v = Handlers.ensure_quadlet h e v
  handle cleans_volume v = Handlers.cleanup_volume h e v
  handle imports_volume v = Handlers.import_volume_step h e v
  handle dumps_volume v = Handlers.dump_volume_step h e v
  handle runs_service v = Handlers.service_action h e v
  handle executes_in_container v = Handlers.execute_in_container h e v
  handle cleans_network v = Handlers.cleanup_network h e v
  handle cleans_build_artifact v = Handlers.cleanup_build_artifact h e v
  handle installs_script v = Handlers.install_or_update_script h e v
  handle removes_script v = Handlers.remove_script_step h e v
  handle sets_up_script v = Handlers.setup_script_step h e v
  handle cleans_up_script v = Handlers.cleanup_script_step h e v
  handle executes_script v = Handlers.execute_script h e v
  handle installs_dir v = Handlers.install_dir h e v
  handle removes_dir v = Handlers.remove_dir h e v
  handle installs_unit v = Handlers.install_or_update_unit h e v
  handle removes_unit v = Handlers.remove_unit_step h e v
  handle installs_secret v = Handlers.install_or_update_secret h e v
  handle removes_secret v = Handlers.remove_secret_step h e v

  unfoldable pub dispatch : Result Handler → Action → Exec S (Unit {0})
  dispatch (ok x) v = handle x v
  dispatch (err why) v = finish (err why)

  unfoldable pub execute_action : Action → Exec S (Unit {0})
  execute_action v = dispatch (handler_for v.target.kind v.todo) v
