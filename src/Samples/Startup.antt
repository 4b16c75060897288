-- ===== src/Samples/Startup.antt =====
-- A start on an empty host, with a source that syncs without an error and no remote sources.
use materia.Base.{String, [], ◌∷◌, none, some, true, false, ◌==◌, if◌then◌else◌}
use materia.Errors.{ok, err, host_failure}
use materia.Deps.Model.{list_deps}
use materia.Disk.{dir, Disk}
use materia.Attributes.{memory_engine}
use materia.Planner.Host.{default_planner_config}
use materia.Sources.{Source}
use materia.Sources.Remotes.{SourceKinds}
use materia.Engine.Backend.{Materia}
use materia.Engine.Settings.{Koanf}
use materia.Engine.Setup.{HostSide, SourceSide, Makers}
use materia.Commands.Setup.{World}
use materia.Samples.Data.{host_web, source_web, quiet_host}
use materia.Samples.Executions.{sample_executor}
use materia.Samples.Engines.{web_manifest, reader_of, no_secrets}
use materia.Samples.Hosts.{empty_settings, root, dead_host}
use materia.Samples.Loaded.{sample_codec}

abbrev bare_system : Disk
bare_system =
    ("/", dir)
    ∷ ("/var", dir)
    ∷ ("/var/lib", dir)
    ∷ ("/etc", dir)
    ∷ ("/etc/containers", dir)
    ∷ ("/etc/systemd", dir)
    ∷ ("/usr", dir)
    ∷ ("/usr/local", dir)
    ∷ []

abbrev git_settings : Koanf
git_settings = record empty_settings {
  text = λ key.
      if key == "source.url"
      then "https://example.org/components"
      else if key == "source.kind"
      then "git"
      else "";
}

abbrev synced_source : Source (Disk × Unit {0})
synced_source = record {
  sync = λ opts s. (s, ok (record { old_revision = ""; new_revision = "1" }));
  supports_rollback = true;
  clean = λ s. (s, ok tt);
}

abbrev any_kind : SourceKinds String (Disk × Unit {0})
any_kind = record {
  new_git_source = λ url path. ok synced_source;
  new_file_source = λ url path. ok synced_source;
  new_oci_source = λ url path. ok synced_source;
}

abbrev quiet_side : HostSide (Disk × Unit {0})
quiet_side = record {
  get_hostname = "box";
  list_component_names = λ s. ok ("web" ∷ []);
  list_installed_components = λ s. ok ("web" ∷ []);
  host_reader = λ s. reader_of host_web;
  secrets = λ s. no_secrets;
  host_state = λ s. quiet_host;
  host = dead_host;
  purge_component_by_name = λ name s. (s, ok tt);
}

abbrev web_side : SourceSide (Disk × Unit {0})
web_side = record { source_reader = λ s. reader_of source_web; load_manifest = ok web_manifest }

abbrev text_makers : Makers (Disk × Unit {0}) String
text_makers = record {
  parse = λ name body. ok body;
  macros = λ c snips vars text. ok text;
  as_text = λ v. some v;
  run_command = λ command. ok [];
  new_dbus_locker = λ path. err host_failure;
  new_file_lock = λ path. err host_failure;
}

abbrev bare_world : World String (Unit {0}) String
bare_world = record {
  load_configs = ok git_settings;
  current_user = ok root;
  env = λ name. none;
  kinds = any_kind;
  remote_kinds = any_kind;
  remotes = λ repo s. ok [];
  codec = sample_codec;
  connect = ok dead_host;
  get_hostname = "box";
  list_containers = λ s. ok [];
  host_side = λ hm. quiet_side;
  source_side = λ repo srcs. web_side;
  makers = text_makers;
}

abbrev first_materia : Materia (Disk × Unit {0})
first_materia = record {
  list_component_names = quiet_side.list_component_names;
  list_installed_components = quiet_side.list_installed_components;
  host_reader = quiet_side.host_reader;
  secrets = quiet_side.secrets;
  host_state = quiet_side.host_state;
  host = dead_host;
  purge_component_by_name = quiet_side.purge_component_by_name;
  source_reader = web_side.source_reader;
  vault = memory_engine [];
  render = λ vars text. ok text;
  as_text = λ v. some v;
  locker = none;
  manifest = web_manifest;
  executor = record sample_executor { default_timeout = 90 };
  planner = default_planner_config;
  hostname = "box";
  roles = [];
  rollback = false;
  app_mode = false;
}
