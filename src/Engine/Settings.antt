-- ===== src/Engine/Settings.antt =====
-- materia_config.go, rollback.go and pkg/executor/executor_config.go: the settings and their checks.
-- The settings store is what it answers under each key; the settings of podman are left out.
use materia.Base.{
  ℕ, String, Bool, true, false, Option, none, some, List, ◌==◌, ◌||◌, if◌then◌else◌, join_path,
}
use materia.Errors.{
  Result, ok, err, ◌>>=◌, ◌>>◌, fail_if, no_quadlet_dir, no_service_dir, no_scripts_dir,
  no_source_dir, no_materia_dir, no_output_dir, unknown_rollback,
}
use materia.Deps.{Deps}
use materia.Attributes.{AttributesEngine}
use materia.Notify.{NotifyConfig}
use materia.Planner.Host.{PlannerConfig}
use materia.Executor.Host.{ExecutorConfig}

pub record User : Type 0 where
  pub username : String
  pub home_dir : String

-- the directories of the settings
pub record Paths : Type 0 where
  pub materia_dir : String
  pub quadlet_dir : String
  pub service_dir : String
  pub scripts_dir : String
  pub source_dir : String
  pub output_dir : String
  pub remote_dir : String

pub record ServicesConfig : Type 0 where
  pub timeout : ℕ
  pub dbus_socket : String

abbrev pub root_paths : Paths
root_paths = record {
  materia_dir = "/var/lib/materia";
  quadlet_dir = "/etc/containers/systemd";
  service_dir = "/etc/systemd/system";
  scripts_dir = "/usr/local/bin";
  source_dir = "/var/lib/materia/source";
  output_dir = "/var/lib/materia/output";
  remote_dir = "/var/lib/materia/remote";
}

-- the value of a variable of the environment, or else a directory below the home
unfoldable pub or_joined : Option String → String → String
or_joined none fallback = fallback
or_joined (some dir) fallback = dir

unfoldable pub user_paths : String → Option String → Option String → Paths
unfolding or_joined
user_paths home config_home data_home =
    let share = or_joined data_home (join_path (join_path home ".local") "share") in
    let data_path = join_path share "materia" in
    record {
      materia_dir = data_path;
      quadlet_dir =
          join_path (join_path (or_joined config_home (join_path home ".config")) "containers")
            "systemd";
      service_dir = join_path (join_path share "systemd") "user";
      scripts_dir = join_path (join_path home ".local") "bin";
      source_dir = join_path data_path "source";
      output_dir = join_path data_path "output";
      remote_dir = join_path data_path "remote";
    }

unfoldable pub default_paths : User → (String → Option String) → Paths
unfolding user_paths
default_paths user env =
    if user.username == "root"
    then root_paths
    else user_paths user.home_dir (env "XDG_CONFIG_HOME") (env "XDG_DATA_HOME")

unfoldable pub or_default : String → String → String
or_default fallback value = if value == "" then fallback else value

-- a nil config is none
unfoldable pub new_rollback_config : String → Option String
new_rollback_config kind = if kind == "" then none else some kind

unfoldable pub validate_rollback : String → Result (Unit {0})
validate_rollback kind = if kind == "service" then ok tt else err unknown_rollback

unfoldable pub validate_executor : ExecutorConfig → Result (Unit {0})
validate_executor e =
    fail_if (e.materia_dir == "") no_materia_dir
    >> (fail_if (e.quadlet_dir == "") no_quadlet_dir
        >> (fail_if (e.scripts_dir == "") no_scripts_dir
            >> (fail_if (e.service_dir == "") no_service_dir
                >> fail_if (e.output_dir == "") no_output_dir)))

unfoldable pub with_directories : Paths → ExecutorConfig → ExecutorConfig
with_directories p e = record e {
  materia_dir = p.materia_dir;
  quadlet_dir = p.quadlet_dir;
  scripts_dir = p.scripts_dir;
  service_dir = p.service_dir;
  output_dir = p.output_dir;
}

-- the settings of the paths, with the default ones for those that are empty
unfoldable pub paths_or : Paths → (String → String) → Paths
unfolding or_default
paths_or p text = record {
  materia_dir = or_default p.materia_dir (text "materia_dir");
  quadlet_dir = or_default p.quadlet_dir (text "quadlet_dir");
  service_dir = or_default p.service_dir (text "service_dir");
  scripts_dir = or_default p.scripts_dir (text "scripts_dir");
  source_dir = or_default p.source_dir (text "source_dir");
  output_dir = or_default p.output_dir (text "output_dir");
  remote_dir = or_default p.remote_dir (text "remote_dir");
}

unfoldable pub validate_each : {A : Type 0} → (A → Result (Unit {0})) → Option A → Result (Unit {0})
validate_each check none = ok tt
validate_each check (some a) = check a

module _ ⦃D : Deps⦄ where
  -- a vault from its settings and the directory of the sources
  abbrev pub NewVault : Type 0
  NewVault = String → Result AttributesEngine

  -- what the settings store answers, with the settings of the parts that it decodes
  pub record Koanf : Type 0 where
    pub text : String → String
    pub flag : String → Bool
    pub texts : String → List String
    pub exists : String → Bool
    pub age : Result NewVault
    pub file : Result NewVault
    pub sops : Result NewVault
    pub services : Result ServicesConfig
    pub planner : Result PlannerConfig
    pub executor : Result ExecutorConfig
    pub notify : Result NotifyConfig

  pub record MateriaConfig : Type 0 where
    pub paths : Paths
    pub debug : Bool
    pub use_stdout : Bool
    pub hostname : String
    pub roles : List String
    pub no_sync : Bool
    pub lock : String
    pub app_mode : Bool
    pub rootless : Bool
    pub command_podman : Bool
    pub attributes : String
    pub age : Option NewVault
    pub file : Option NewVault
    pub sops : Option NewVault
    pub planner : Option PlannerConfig
    pub executor : Option ExecutorConfig
    pub services : Option ServicesConfig
    pub notify : Option NotifyConfig
    pub rollback : Option String
    pub user : User

  unfoldable pub vault_config : Bool → Result NewVault → Result (Option NewVault)
  vault_config false made = ok none
  vault_config true made = made >>= λ v. ok (some v)

  unfoldable pub new_config : Koanf → Result User → (String → Option String) → Result MateriaConfig
  unfolding vault_config new_rollback_config with_directories paths_or default_paths
  new_config k current_user env = do
    let attributes = k.text "attributes"
    age ← vault_config (k.exists "age" || attributes == "age") k.age
    file ← vault_config (k.exists "file" || attributes == "file") k.file
    sops ← vault_config (k.exists "sops" || attributes == "sops") k.sops
    services ← k.services
    planner ← k.planner
    executor ← k.executor
    notify ← k.notify
    user ← current_user
    let paths = paths_or (default_paths user env) k.text
    ok (record {
      paths = paths;
      debug = k.flag "debug";
      use_stdout = k.flag "use_stdout";
      hostname = k.text "hostname";
      roles = k.texts "roles";
      no_sync = k.flag "nosync";
      lock = k.text "lock";
      app_mode = k.flag "appmode";
      rootless = k.flag "rootless";
      command_podman = k.flag "podman_command";
      attributes = attributes;
      age = age;
      file = file;
      sops = sops;
      planner = some planner;
      executor = some (with_directories paths executor);
      services = some services;
      notify = some notify;
      rollback = new_rollback_config (k.text "rollback.kind");
      user = user;
    })

  -- the planner's settings are always valid
  unfoldable pub validate_config : MateriaConfig → Result (Unit {0})
  unfolding validate_each
  validate_config c =
      fail_if (c.paths.quadlet_dir == "") no_quadlet_dir
      >> (fail_if (c.paths.service_dir == "") no_service_dir
          >> (fail_if (c.paths.scripts_dir == "") no_scripts_dir
              >> (fail_if (c.paths.source_dir == "") no_source_dir
                  >> (validate_each validate_executor c.executor
                      >> validate_each validate_rollback c.rollback))))
