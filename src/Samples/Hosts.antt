-- ===== src/Samples/Hosts.antt =====
-- A page of the web component that the executor puts on the disk of a host, and default settings.
use materia.Base.{
  ◌≡◌, ◌∙◌, refl, false, none, some, [], join_path, clean_path, has_prefix, join_texts, clean_parts,
  split_text, dir_name,
}
use materia.Errors.{ok, err, host_failure}
use materia.Deps.{assoc_get, assoc_put}
use materia.Deps.Model.{list_deps}
use materia.Components.Resource.{Resource, validate_resource, is_quadlet}
use materia.Actions.{Action, update, make_action}
use materia.Disk.{Disk, write_file, stat}
use materia.Repository.Host.{read_resource}
use materia.Repository.Changes
use materia.Planner.Host.{default_planner_config}
use materia.Planner.Updates.{Updates}
use materia.Executor.Host.{Host, install_resource}
use materia.Executor.Effects.{execute_action-Updates}
use materia.Hostman.{HostManager, host_of, perform_call}
use materia.Hostman.Converged.{execute_action-update_read}
use materia.Engine.Settings.{
  Koanf, MateriaConfig, User, new_config, validate_config, vault_config, new_rollback_config,
  with_directories, paths_or, or_default, default_paths, root_paths,
}
use materia.Engine.Configured.{new_config-valid}
use materia.Samples.Data.{source_web}
use materia.Samples.Executions.{sample_executor}
use materia.Samples.Repositories.{repository, web_disk, page, page_disk}
use materia.Samples.Loaded.{sample_codec}

-- podman and systemd answer nothing
abbrev pub dead_host : Host (Disk × Unit {0})
dead_host = record {
  perform = λ c s. (s, err host_failure);
  get_service = λ n s. err host_failure;
  containers_with_volume = λ n s. err host_failure;
  containers_with_image = λ n s. err host_failure;
  network_containers = λ n s. err host_failure;
}

abbrev pub web_host : HostManager (Unit {0})
web_host = record {
  components = repository;
  codec = sample_codec;
  scripts = record { prefix = "/scripts" };
  units = record { prefix = "/units" };
  outside = dead_host;
}

abbrev pub hello_page : Resource
hello_page = record page { content = "hello" }

hello-installed :
    (host_of web_host).perform (install_resource page "hello") (web_disk, tt)
    ≡ ((page_disk, tt), ok tt)
unfolding perform_call Changes.install_resource validate_resource is_quadlet write_file assoc_get
    join_path clean_path has_prefix join_texts clean_parts split_text stat dir_name assoc_put
hello-installed = refl

abbrev write_page : Action
write_page = record (make_action update source_web page) {
  diff_content = list_deps.dmp.diff_main "" "hello";
}

write-Updates : Updates source_web hello_page write_page
write-Updates = record { todo = refl; path = refl; text = refl }

execute_action-update_read_example :
    read_resource repository page page_disk ≡ (page_disk, ok "hello")
execute_action-update_read_example =
    execute_action-update_read web_host sample_executor source_web hello_page write_page web_disk
      page_disk tt tt write-Updates refl refl
      (execute_action-Updates (host_of web_host) sample_executor source_web hello_page write_page
          (web_disk, tt) write-Updates refl
        ∙ hello-installed)

abbrev pub empty_settings : Koanf
empty_settings = record {
  text = λ key. "";
  flag = λ key. false;
  texts = λ key. [];
  exists = λ key. false;
  age = err host_failure;
  file = err host_failure;
  sops = err host_failure;
  services = ok (record { timeout = 90; dbus_socket = "" });
  planner = ok default_planner_config;
  executor = ok sample_executor.config;
  notify = ok [];
}

abbrev pub root : User
root = record { username = "root"; home_dir = "/root" }

abbrev pub root_config : MateriaConfig
root_config = record {
  paths = root_paths;
  debug = false;
  use_stdout = false;
  hostname = "";
  roles = [];
  no_sync = false;
  lock = "";
  app_mode = false;
  rootless = false;
  command_podman = false;
  attributes = "";
  age = none;
  file = none;
  sops = none;
  planner = some default_planner_config;
  executor = some sample_executor.config;
  services = some (record { timeout = 90; dbus_socket = "" });
  notify = some [];
  rollback = none;
  user = root;
}

root-configured : new_config empty_settings (ok root) (λ name. none) ≡ ok root_config
unfolding new_config vault_config new_rollback_config with_directories paths_or or_default
    default_paths
root-configured = refl

new_config-valid_example : validate_config root_config ≡ ok tt
new_config-valid_example =
    new_config-valid empty_settings (ok root) (λ name. none) root_config refl root-configured
