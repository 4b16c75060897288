-- ===== src/Executor/Coverage.antt =====
-- The table of handlers (handler.go) against the table of default priorities (plan.go).
use materia.Base.{ℕ, ◌≡◌, ◌↔◌, Bool, true, false, some, arith}
use materia.Errors.{Result, ok, err}
use materia.Components.Kind.{
  ResourceType, component, volume, container, pod, network, kube, build, image, file, script,
  podman_secret,
}
use materia.Actions.{ActionType, cleanup, dump, setup, start, stop, restart, reload}
use materia.Plan.Priority.{
  priority_of, component_row, directory_row, plain_row, file_row, quadlet_row, network_row,
  volume_row, script_row, service_row, host_row,
}
use materia.Executor.Table.{
  Handler, handler_for, or_no_handler, component_handlers, file_handlers, volume_handlers,
  kube_handlers, pod_handlers, container_handlers, network_handlers, build_handlers,
  script_handlers, dir_handlers, host_handlers, service_handlers, secret_handlers,
}

-- what has a default priority and no handler
abbrev no_cleanup : ActionType → Bool
no_cleanup cleanup = true
no_cleanup dump = true
no_cleanup t = false

abbrev no_reload : ActionType → Bool
no_reload reload = true
no_reload dump = true
no_reload t = false

abbrev no_service : ActionType → Bool
no_service start = true
no_service stop = true
no_service restart = true
no_service reload = true
no_service t = false

abbrev no_dump : ActionType → Bool
no_dump dump = true
no_dump t = false

abbrev no_scripts : ActionType → Bool
no_scripts cleanup = true
no_scripts setup = true
no_scripts t = false

abbrev no_kube : ActionType → Bool
no_kube cleanup = true
no_kube t = no_reload t

abbrev pub unhandled : ResourceType → ActionType → Bool
unhandled component t = no_scripts t
unhandled volume t = no_service t
unhandled container t = no_cleanup t
unhandled pod t = no_cleanup t
unhandled file t = no_cleanup t
unhandled podman_secret t = no_cleanup t
unhandled kube t = no_kube t
unhandled network t = no_reload t
unhandled build t = no_reload t
unhandled image t = no_reload t
unhandled script t = no_dump t
unhandled k t = false

abbrev pub is_handled : Result Handler → Bool
is_handled (ok x) = true
is_handled (err e) = false

-- A kind of resource and a type of action that have a default priority have a handler exactly if
-- they are not among these: starting, stopping, restarting and reloading a volume; cleaning up or
-- dumping a container, a pod, a kube, a file or a secret; dumping a network, a build, an image or
-- a script; reloading a kube, a network, a build or an image; the cleanup and setup of a
-- component.
pub handler_for-priority_of :
    (k : ResourceType) (t : ActionType) (n : ℕ)
    → priority_of k t ≡ some n
    → (is_handled (handler_for k t) ≡ true) ↔ (unhandled k t ≡ false)
unfolding priority_of component_row directory_row plain_row file_row quadlet_row network_row
    volume_row script_row service_row host_row handler_for or_no_handler component_handlers
    file_handlers volume_handlers kube_handlers pod_handlers container_handlers network_handlers
    build_handlers script_handlers dir_handlers host_handlers service_handlers secret_handlers
handler_for-priority_of k t n h = ground arith
