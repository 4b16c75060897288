-- ===== src/Executor/Handlers.antt =====
-- component.go, files.go, quadlet.go, scripts.go, secret.go, unit.go, volume.go: one function for each
-- kind of step.
use Prim.Native.String.{◌++◌ as append_text}
use materia.Base.{
  String, Option, none, some, List, [], ◌∷◌, ◌==◌, if◌then◌else◌, is_empty, split_text, join_path,
}
use materia.Errors.{Error, Result, ok, err, panic, no_command, invalid_component}
use materia.Deps.{Deps}
use materia.Services.{Service, state_active, stop_unit}
use materia.Components.Kind.{service}
use materia.Components.Resource.{no_resource, service_of}
use materia.Components.Component.{Component}
use materia.Actions.{
  Action, ActionMetadata, reload_host, restart, get_content_as_diffs, parent_name,
}
use materia.Executor.Host.{
  Host, Exec, Executor, Call, install_component, update_component, remove_component,
  install_resource, remove_resource, install_script, install_unit, remove_script, remove_unit,
  write_secret, remove_secret, apply_service, run_oneshot_command, exec_container, remove_volume,
  remove_network, remove_image, dump_volume, import_volume, ◌>=>◌, finish,
}
use materia.Executor.Services.{modify_service, wait_service}

module _ ⦃D : Deps⦄ {S : Type 0} (h : Host S) (e : Executor) where
  -- the pointer is passed on as it is; what the host's method does with a nil one comes first
  unfoldable pub with_parent : Error → Option Component → (Component → Call) → Exec S (Unit {0})
  with_parent on_nil none call = finish (err on_nil)
  with_parent on_nil (some c) call = h.perform (call c)

  unfoldable pub install_component_step : Action → Exec S (Unit {0})
  install_component_step v = with_parent panic v.parent install_component

  unfoldable pub update_component_step : Action → Exec S (Unit {0})
  update_component_step v = with_parent panic v.parent update_component

  unfoldable pub remove_component_step : Action → Exec S (Unit {0})
  remove_component_step v = with_parent invalid_component v.parent remove_component

  unfoldable pub install_or_update_file : Action → Exec S (Unit {0})
  install_or_update_file v = finish (get_content_as_diffs v) >=> λ diffs.
      h.perform (install_resource v.target (D.dmp.diff_text2 diffs))

  unfoldable pub remove_file : Action → Exec S (Unit {0})
  remove_file v = h.perform (remove_resource v.target)

  unfoldable pub install_dir : Action → Exec S (Unit {0})
  install_dir v = h.perform (install_resource v.target "")

  unfoldable pub remove_dir : Action → Exec S (Unit {0})
  remove_dir v = h.perform (remove_resource v.target)

  unfoldable pub install_or_update_script : Action → Exec S (Unit {0})
  install_or_update_script v = finish (get_content_as_diffs v) >=> λ diffs.
      h.perform (install_resource v.target (D.dmp.diff_text2 diffs)) >=> λ _.
      h.perform (install_script v.target.path (D.dmp.diff_text2 diffs))

  unfoldable pub remove_script_step : Action → Exec S (Unit {0})
  remove_script_step v =
      h.perform (remove_resource v.target) >=> λ _. h.perform (remove_script v.target.path)

  unfoldable pub install_or_update_unit : Action → Exec S (Unit {0})
  install_or_update_unit v = finish (get_content_as_diffs v) >=> λ diffs.
      h.perform (install_resource v.target (D.dmp.diff_text2 diffs)) >=> λ _.
      h.perform (install_unit v.target.path (D.dmp.diff_text2 diffs))

  unfoldable pub remove_unit_step : Action → Exec S (Unit {0})
  remove_unit_step v =
      h.perform (remove_resource v.target) >=> λ _. h.perform (remove_unit v.target.path)

  unfoldable pub install_or_update_secret : Action → Exec S (Unit {0})
  install_or_update_secret v = h.perform (write_secret v.target.path v.target.content)

  unfoldable pub remove_secret_step : Action → Exec S (Unit {0})
  remove_secret_step v = h.perform (remove_secret v.target.path)

  -- an object that containers use stays
  unfoldable pub unless_used : S × Result (List String) → Call → S × Result (Unit {0})
  unless_used (s, err why) call = (s, err why)
  unless_used (s, ok users) call = if is_empty users then h.perform call s else (s, ok tt)

  unfoldable pub cleanup_network : Action → Exec S (Unit {0})
  cleanup_network v s =
      unless_used (s, h.network_containers v.target.host_object s)
        (remove_network v.target.host_object)

  unfoldable pub cleanup_build_artifact : Action → Exec S (Unit {0})
  cleanup_build_artifact v s =
      unless_used (s, h.containers_with_image v.target.host_object s)
        (remove_image v.target.host_object)

  unfoldable pub cleanup_volume : Action → Exec S (Unit {0})
  cleanup_volume v s =
      unless_used (s, h.containers_with_volume v.target.host_object s)
        (remove_volume v.target.host_object)

  unfoldable pub volume_name_of : Option ActionMetadata → Option String
  volume_name_of none = none
  volume_name_of (some m) = m.volume_name

  unfoldable pub or_else_text : Option String → String → String
  or_else_text none text = text
  or_else_text (some given) text = given

  unfoldable pub import_volume_step : Action → Exec S (Unit {0})
  import_volume_step v = h.perform (
      import_volume v.target.host_object (
        or_else_text (volume_name_of v.metadata)
          (join_path e.config.output_dir (append_text v.target.host_object "-volume.tar"))))

  unfoldable pub dump_volume_step : Action → Exec S (Unit {0})
  dump_volume_step v = h.perform (dump_volume v.target.host_object e.config.output_dir)

  -- the restart of a unit, under the parent's name
  unfoldable pub restart_of : Action → String → Action
  restart_of v name = record {
    todo = restart;
    parent = v.parent;
    target = record no_resource { parent = name; path = service_of v.target; kind = service };
    diff_content = none;
    priority = 0;
    metadata = none;
  }

  unfoldable pub ensure_quadlet : Action → Exec S (Unit {0})
  ensure_quadlet v = modify_service h reload_host e.default_timeout >=> λ _.
      finish (parent_name v) >=> λ name. modify_service h (restart_of v name) e.default_timeout

  unfoldable pub service_action : Action → Exec S (Unit {0})
  service_action v =
      modify_service h v e.default_timeout >=> λ _. wait_service h v e.default_timeout

  unfoldable pub command_of : Option ActionMetadata → Option String
  command_of none = none
  command_of (some m) = m.command

  unfoldable pub run_command : String → Option String → Exec S (Unit {0})
  run_command object none = finish (err no_command)
  run_command object (some cmd) =
      if cmd == ""
      then finish (err no_command)
      else h.perform (exec_container object (split_text cmd b' '))

  unfoldable pub execute_in_container : Action → Exec S (Unit {0})
  execute_in_container v = run_command v.target.host_object (command_of v.metadata)

  -- stops a transient unit that is active; failures are only logged
  unfoldable pub stop_transient : String → S → Result Service → S × Result (Unit {0})
  stop_transient name s (err why) = (s, ok tt)
  stop_transient name s (ok srv) =
      if srv.state == state_active
      then ((h.perform (apply_service name stop_unit e.default_timeout) s).0, ok tt)
      else (s, ok tt)

  -- a script as a transient unit, then the end of the unit that it undoes
  unfoldable pub run_script : Action → String → String → Exec S (Unit {0})
  run_script v own other = finish (parent_name v) >=> λ name.
      h.perform (
        run_oneshot_command e.default_timeout (append_text name own)
          (join_path e.config.scripts_dir v.target.path ∷ []))
      >=> λ _ s.
          stop_transient (append_text name other) s (h.get_service (append_text name other) s)

  unfoldable pub setup_script_step : Action → Exec S (Unit {0})
  setup_script_step v = run_script v "-materia-setup.service" "-materia-cleanup.service"

  unfoldable pub cleanup_script_step : Action → Exec S (Unit {0})
  cleanup_script_step v = run_script v "-materia-cleanup.service" "-materia-setup.service"

  unfoldable pub oneshot_name_of : Option ActionMetadata → Option String
  oneshot_name_of none = none
  oneshot_name_of (some m) = m.oneshot_name

  unfoldable pub execute_script : Action → Exec S (Unit {0})
  execute_script v = finish (parent_name v) >=> λ name. h.perform (
      run_oneshot_command e.default_timeout
        (or_else_text (oneshot_name_of v.metadata) (append_text name "-materia-execute.service"))
        (join_path e.config.scripts_dir v.target.path ∷ []))
