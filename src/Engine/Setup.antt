-- ===== src/Engine/Setup.antt =====
-- materia.go and snippet.go: how a `Materia` is made from the settings, a host and the sources. The
-- parser of templates, the macros and the locks are parameters.
use materia.Base.{
  ℕ, String, Bool, false, not, Option, none, some, List, [], ◌∷◌, ◌++◌, ◌==◌, if◌then◌else◌,
  is_empty, join_path,
}
use materia.Errors.{Result, ok, err, ◌>>=◌, ◌>>◌, panic}
use materia.Deps.{Deps, assoc_put}
use materia.Manifests.{SnippetConfig}
use materia.Manifests.Hosts.{MateriaManifest, validate_manifest}
use materia.Attributes.{AttributesEngine, memory_engine, new_multi_vault_engine, multi_vault_lookup}
use materia.Loader.Stages.{ComponentReader, SecretsManager, Render}
use materia.Notify.{NotifyConfig, new_notifier}
use materia.Planner.Host.{HostState, PlannerConfig, default_planner_config}
use materia.Executor.Host.{Host, ExecutorConfig}
use materia.Engine.Backend.{Materia, Locker}
use materia.Engine.Assigned.{get_roles_from_manifest}
use materia.Engine.Settings.{MateriaConfig, NewVault, validate_config, ServicesConfig}

-- a snippet with its parsed template
pub record Snippet (T : Type 0) : Type 0 where
  pub name : String
  pub parameters : List String
  pub body : T

module _ {T : Type 0} (parse : String → String → Result T) where
  unfoldable pub config_to_snippet : SnippetConfig → Result (Snippet T)
  config_to_snippet c = parse c.name c.body >>= λ t.
      ok (record { name = c.name; parameters = c.parameters; body = t })

  -- `template.Must` stops the program
  must : Result T → Result T
  must (ok t) = ok t
  must (err e) = err panic

  unfoldable pub load_default_snippets : Result (List (Snippet T))
  unfolding must
  load_default_snippets = must (parse "onBoot" "[Install]\nWantedBy=default.target") >>= λ on_boot.
      must (parse "harden" "DropCapability=ALL\nReadOnly=true\n\nNoNewPrivileges=true")
      >>= λ harden. ok (
          record { name = "onBoot"; parameters = []; body = on_boot }
          ∷ record { name = "harden"; parameters = []; body = harden }
          ∷ [])

  unfoldable pub put_snippets :
      List (Snippet T) → List (String × Snippet T) → List (String × Snippet T)
  put_snippets [] snips = snips
  put_snippets (s ∷ rest) snips = put_snippets rest (assoc_put s.name s snips)

  unfoldable pub put_configured :
      List SnippetConfig → List (String × Snippet T) → Result (List (String × Snippet T))
  unfolding config_to_snippet
  put_configured [] snips = ok snips
  put_configured (c ∷ rest) snips =
      config_to_snippet c >>= λ s. put_configured rest (assoc_put s.name s snips)

unfoldable pub or_hostname : String → String → String
or_hostname name known = if name == "" then known else name

module _ ⦃D : Deps⦄ where
  unfoldable pub add_vault :
      String
      → String
      → String
      → Option NewVault
      → List AttributesEngine
      → (List AttributesEngine → Result AttributesEngine)
      → Result AttributesEngine
  add_vault name wanted source_dir none vaults next = next vaults
  add_vault name wanted source_dir (some new) vaults next =
      new source_dir >>= λ vault. if wanted == name then ok vault else next (vaults ++ (vault ∷ []))

  unfoldable pub or_memory : List AttributesEngine → Result AttributesEngine
  or_memory [] = ok (memory_engine [])
  or_memory (v ∷ vaults) = new_multi_vault_engine (v ∷ vaults) >>= λ vs. ok (multi_vault_lookup vs)

  -- one vault if it is asked for by name, or else all that are configured
  unfoldable pub setup_vault : MateriaConfig → Result AttributesEngine
  unfolding add_vault or_memory
  setup_vault c = add_vault "age" c.attributes c.paths.source_dir c.age [] λ vaults.
      add_vault "file" c.attributes c.paths.source_dir c.file vaults
        λ vaults'. add_vault "sops" c.attributes c.paths.source_dir c.sops vaults' or_memory

  -- what a `Materia` takes from its host manager
  pub record HostSide (S : Type 0) : Type 0 where
    pub get_hostname : String
    pub list_component_names : S → Result (List String)
    pub list_installed_components : S → Result (List String)
    pub host_reader : S → ComponentReader
    pub secrets : S → SecretsManager
    pub host_state : S → HostState
    pub host : Host S
    pub purge_component_by_name : String → S → S × Result (Unit {0})

  -- and from its source manager
  pub record SourceSide (S : Type 0) : Type 0 where
    pub source_reader : S → ComponentReader
    pub load_manifest : Result MateriaManifest

  unfoldable pub or_roles :
      (String → Result (List String))
      → MateriaManifest
      → String
      → List String
      → Result (List String)
  or_roles run_command man name roles =
      if is_empty roles then get_roles_from_manifest run_command man name else ok roles

  -- what the settings and the world give for the making of a `Materia`
  pub record Makers (S T : Type 0) : Type 0 where
    pub parse : String → String → Result T
    pub macros : MateriaConfig → List (String × Snippet T) → Render
    pub as_text : D.Value → Option String
    pub run_command : String → Result (List String)
    pub new_dbus_locker : String → Result (Locker S)
    pub new_file_lock : String → Result (Locker S)

  module _ {S T : Type 0} (k : Makers S T) where
    unfoldable pub new_locker : String → String → String → Result (Option (Locker S))
    new_locker lock socket_path materia_dir =
        if lock == "dbus"
        then (k.new_dbus_locker socket_path >>= λ l. ok (some l))
        else if lock == "file"
        then (k.new_file_lock (join_path materia_dir "lockfile") >>= λ l. ok (some l))
        else ok none

    abbrev no_executor : ExecutorConfig
    no_executor = record {
      cleanup_components = false;
      materia_dir = "";
      quadlet_dir = "";
      scripts_dir = "";
      service_dir = "";
      output_dir = "";
    }

    -- the settings of the parts; a missing one is Go's zero value, or one with backups of volumes
    unfoldable pub planner_of : Option PlannerConfig → PlannerConfig
    planner_of none = default_planner_config
    planner_of (some p) = p

    unfoldable pub executor_of : Option ExecutorConfig → ExecutorConfig
    executor_of none = no_executor
    executor_of (some e) = e

    unfoldable pub triggers_of : Option NotifyConfig → NotifyConfig
    triggers_of none = []
    triggers_of (some n) = n

    unfoldable pub timeout_of_services : Option ServicesConfig → ℕ
    timeout_of_services none = 0
    timeout_of_services (some s) = s.timeout

    unfoldable pub socket_of : Option ServicesConfig → String
    socket_of none = ""
    socket_of (some s) = s.dbus_socket

    unfoldable pub rollback_of : Option String → Bool
    rollback_of none = false
    rollback_of (some kind) = not (kind == "")

    unfoldable pub new_materia :
        MateriaConfig → HostSide S → AttributesEngine → SourceSide S → Result (Materia S)
    unfolding put_snippets put_configured load_default_snippets or_hostname or_roles new_locker
        planner_of executor_of triggers_of timeout_of_services socket_of rollback_of
    new_materia c hm attributes srcman = do
      validate_config c
      defaults ← load_default_snippets k.parse
      man ← srcman.load_manifest
      validate_manifest man
      snips ← put_configured k.parse man.snippets (put_snippets k.parse defaults [])
      let name = or_hostname c.hostname hm.get_hostname
      roles ← or_roles k.run_command man name c.roles
      locker ← new_locker c.lock (socket_of c.services) c.paths.materia_dir
      new_notifier (triggers_of c.notify)
      ok (record {
        list_component_names = hm.list_component_names;
        list_installed_components = hm.list_installed_components;
        host_reader = hm.host_reader;
        secrets = hm.secrets;
        host_state = hm.host_state;
        host = hm.host;
        purge_component_by_name = hm.purge_component_by_name;
        source_reader = srcman.source_reader;
        vault = attributes;
        render = k.macros c snips;
        as_text = k.as_text;
        locker = locker;
        manifest = man;
        executor = record {
          config = executor_of c.executor;
          default_timeout = timeout_of_services c.services;
        };
        planner = planner_of c.planner;
        hostname = name;
        roles = roles;
        rollback = rollback_of c.rollback;
        app_mode = c.app_mode;
      })

    unfoldable pub new_materia_from_config :
        MateriaConfig → HostSide S → SourceSide S → Result (Materia S)
    unfolding new_materia setup_vault
    new_materia_from_config c hm sm = setup_vault c >>= λ vault. new_materia c hm vault sm
