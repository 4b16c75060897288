-- ===== src/Executor/Effects.antt =====
-- What running one step does on the host (files.go, service_helpers.go).
use materia.Base.{ℕ, ◌≡◌, refl, Bool, true, false, some, arith}
use materia.Errors.{ok}
use materia.Deps.{Deps}
use materia.Services.{new_service_state, state_wildcard, state_unknown}
use materia.Components.Kind.{
  ResourceType, volume, container, pod, network, kube, build, image, combined, app_file, file,
  dropin, manifest, directory,
}
use materia.Components.Resource.{Resource, service_of, validate_resource}
use materia.Components.Component.{Component}
use materia.Actions.{
  Action, install, update, validate_action, get_content_as_diffs, is_resource_action, todo_eq,
  todo_code,
}
use materia.Planner.Updates.{Installs, Updates}
use materia.Planner.Resources.{shown_content, install_action}
use materia.Executor.Host.{Host, Executor, install_resource, wait_until_state}
use materia.Executor.Services.{
  wait_service, wait_if, wait_for, until_state, is_no_service, timeout_of, marked,
}
use materia.Executor.Handlers
use materia.Executor.Handlers.{install_or_update_file}
use materia.Executor.Table.{
  execute_action, dispatch, handle, handler_for, or_no_handler, file_handlers, volume_handlers,
  kube_handlers, pod_handlers, container_handlers, network_handlers, build_handlers, dir_handlers,
  installs_file,
}

-- the kinds whose content is a file alone
abbrev pub is_plain_file : ResourceType → Bool
is_plain_file volume = true
is_plain_file container = true
is_plain_file pod = true
is_plain_file network = true
is_plain_file kube = true
is_plain_file build = true
is_plain_file image = true
is_plain_file combined = true
is_plain_file app_file = true
is_plain_file file = true
is_plain_file dropin = true
is_plain_file manifest = true
is_plain_file k = false

handler_for-install :
    (k : ResourceType) → is_plain_file k ≡ true → handler_for k install ≡ ok installs_file
unfolding handler_for or_no_handler file_handlers volume_handlers kube_handlers pod_handlers
    container_handlers network_handlers build_handlers
handler_for-install k h = ground arith

handler_for-update :
    (k : ResourceType) → is_plain_file k ≡ true → handler_for k update ≡ ok installs_file
unfolding handler_for or_no_handler file_handlers volume_handlers kube_handlers pod_handlers
    container_handlers network_handlers build_handlers
handler_for-update k h = ground arith

module _ ⦃D : Deps⦄ {S : Type 0} (h : Host S) (e : Executor) where
  -- Executing an update of a resource of the source, on a target whose kind is a file alone,
  -- installs the target on the host with exactly the content of the source.
  pub execute_action-Updates :
      (source : Component) (r : Resource) (a : Action) (s : S)
      → Updates source r a
      → is_plain_file a.target.kind ≡ true
      → execute_action h e a s ≡ h.perform (install_resource a.target r.content) s
  unfolding execute_action dispatch handle Handlers.install_or_update_file get_content_as_diffs
      is_resource_action todo_eq todo_code
  execute_action-Updates source r a s u k =
      rw (u.todo, handler_for-update a.target.kind k, u.text) refl

  -- Executing the installation of a resource whose kind is a file alone installs it on the host
  -- with exactly its content, or nothing for a secret.
  pub execute_action-Installs :
      (comp : Component) (r : Resource) (a : Action) (s : S)
      → Installs comp r a
      → is_plain_file r.kind ≡ true
      → execute_action h e a s ≡ h.perform (install_resource r (shown_content r)) s
  unfolding execute_action dispatch handle Handlers.install_or_update_file get_content_as_diffs
      is_resource_action todo_eq todo_code
  execute_action-Installs comp r a s u k =
      rw (u.todo, u.target, handler_for-install r.kind k, u.text) refl

  -- a directory is installed without a content
  pub execute_action-directory :
      (comp : Component) (r : Resource) (s : S)
      → r.kind ≡ directory
      → execute_action h e (install_action comp r) s ≡ h.perform (install_resource r "") s
  unfolding execute_action dispatch handle Handlers.install_dir install_action handler_for
      or_no_handler dir_handlers
  execute_action-directory comp r s k = rw k refl

  wildcard_lem : new_service_state state_wildcard ≡ state_unknown
  unfolding new_service_state
  wildcard_lem = refl

  -- For a valid service action with a valid target that is a service, whose metadata asks for the
  -- wildcard state, waiting asks the host for the unknown state, and not for any state.
  pub wait_service-wildcard :
      (command : Action) (timeout : ℕ) (s : S)
      → validate_action command ≡ ok tt
      → validate_resource command.target ≡ ok tt
      → is_no_service command.target ≡ false
      → until_state command.metadata ≡ some state_wildcard
      → wait_service h command timeout s
        ≡ marked (
            h.perform
              (wait_until_state
                (service_of command.target)
                state_unknown
                (timeout_of command.metadata timeout))
              s)
  unfolding wait_service wait_if wait_for
  wait_service-wildcard command timeout s v w n u = rw (v, u, n, w) (rw wildcard_lem refl)
