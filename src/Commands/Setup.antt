-- ===== src/Commands/Setup.antt =====
-- cmd/materia/setup.go: the sources and the host that a `Materia` is made on. What the configuration
-- files give, the user, podman and systemd are parameters. Logging is left out.
use materia.Base.{String, true, Option, none, some, List, [], ◌∷◌, ◌==◌, if◌then◌else◌}
use materia.Errors.{Result, ok, err, ◌>>=◌, panic, no_source_url, unknown_source_kind}
use materia.Deps.{Deps, assoc_get}
use materia.Disk.{Disk}
use materia.Executor.Host.{Host, Exec, ExecutorConfig, ◌>=>◌, finish}
use materia.Sources.{Source, SourcePlan, Synced, sync_all, add_source}
use materia.Sources.Remotes.{SourceKinds, RemoteComponentConfig, load_remotes}
use materia.Repository.Host.{Codec}
use materia.Repository.Source.{SourceComponentRepository, new_source_component_repository}
use materia.Hostman.{HostManager, HostmanConfig, new_host_manager, on_disk}
use materia.Engine.Backend.{Materia}
use materia.Engine.Settings.{Koanf, MateriaConfig, User, new_config, validate_config, root_paths}
use materia.Engine.Setup.{HostSide, SourceSide, Makers, new_materia_from_config}
use materia.Commands.Directories.{setup_directories}

-- a container of podman, with the sources of its mounts by their destinations
pub record Container : Type 0 where
  pub hostname : String
  pub bind_mounts : List (String × String)

-- the last container that has the host's name
unfoldable pub own_container : String → List Container → Option Container → Option Container
own_container name [] found = found
own_container name (v ∷ vs) found =
    own_container name vs (if v.hostname == name then some v else found)

-- a path of the executor's settings inside of a container stands for one outside
abbrev pub put_mounted :
    Option String
    → (String → ExecutorConfig → ExecutorConfig)
    → Option ExecutorConfig
    → Result (Option ExecutorConfig)
put_mounted none put e = ok e
put_mounted (some source) put none = err panic
put_mounted (some source) put (some e) = ok (some (put source e))

unfoldable pub mounted_executor :
    List (String × String) → Option ExecutorConfig → Result (Option ExecutorConfig)
mounted_executor mounts e₀ = do
  e₁ ←
      put_mounted (assoc_get root_paths.materia_dir mounts) (λ p e. record e { materia_dir = p }) e₀
  e₂ ←
      put_mounted (assoc_get root_paths.quadlet_dir mounts) (λ p e. record e { quadlet_dir = p }) e₁
  e₃ ←
      put_mounted (assoc_get root_paths.scripts_dir mounts) (λ p e. record e { scripts_dir = p }) e₂
  put_mounted (assoc_get root_paths.service_dir mounts) (λ p e. record e { service_dir = p }) e₃

abbrev pub mounts_of : Option Container → List (String × String)
mounts_of none = []
mounts_of (some c) = c.bind_mounts

module _ ⦃D : Deps⦄ where
  -- the source of the components, of the kind that is set
  unfoldable pub get_local_repo :
      {S : Type 0} → SourceKinds String S → Koanf → String → Result (Source S)
  get_local_repo kinds k source_dir =
      let url = k.text "source.url" in
      let kind = k.text "source.kind" in
      if url == ""
      then err no_source_url
      else if kind == "git"
      then kinds.new_git_source url source_dir
      else if kind == "file"
      then kinds.new_file_source url source_dir
      else if kind == "oci"
      then kinds.new_oci_source url source_dir
      else err unknown_source_kind

  abbrev pub Sources : Type 0 → Type 0
  Sources W = List (SourcePlan (Disk × W))

  -- what the program is started with, and what the world gives it
  pub record World (C W T : Type 0) : Type 0 where
    pub load_configs : Result Koanf
    pub current_user : Result User
    pub env : String → Option String
    pub kinds : SourceKinds String (Disk × W)
    pub remote_kinds : SourceKinds C (Disk × W)
    pub remotes :
        SourceComponentRepository → Disk × W → Result (List (String × RemoteComponentConfig C))
    pub codec : Codec
    pub connect : Result (Host (Disk × W))
    pub get_hostname : String
    pub list_containers : Disk × W → Result (List Container)
    pub host_side : HostManager W → HostSide (Disk × W)
    pub source_side : SourceComponentRepository → Sources W → SourceSide (Disk × W)
    pub makers : Makers (Disk × W) T

  -- the sources behind a sync, or its error
  abbrev pub or_failed : {S : Type 0} → Synced S → S × Result (List (SourcePlan S))
  or_failed (s, (srcs, none)) = (s, ok srcs)
  or_failed (s, (srcs, some e)) = (s, err e)

  -- `log.Fatal` stops the program
  abbrev pub fatal : {A : Type 0} → Result A → Result A
  fatal (ok a) = ok a
  fatal (err e) = err panic

  module _ {C W T : Type 0} (w : World C W T) where
    abbrev pub hostman_config : MateriaConfig → HostmanConfig
    hostman_config c = record {
      data_dir = c.paths.materia_dir;
      quadlet_dir = c.paths.quadlet_dir;
      scripts_dir = c.paths.scripts_dir;
      services_dir = c.paths.service_dir;
    }

    unfoldable pub initial_sync :
        MateriaConfig → SourceComponentRepository → Sources W → Exec (Disk × W) (Sources W)
    initial_sync c repo srcs s =
        if c.no_sync
        then (s, ok srcs)
        else ((λ s₁. or_failed (sync_all none srcs s₁)) >=> λ srcs' s₂.
              load_remotes w.remote_kinds c.paths.remote_dir (w.remotes repo s₂) srcs' s₂)
            s

    unfoldable pub outside_paths : MateriaConfig → Exec (Disk × W) MateriaConfig
    unfolding own_container mounted_executor
    outside_paths c s =
        if c.rootless
        then (finish (w.list_containers s) >=> λ vs.
              finish
                (mounted_executor (mounts_of (own_container w.get_hostname vs none)) c.executor)
              >=> λ e. finish (ok (record c { executor = e })))
            s
        else (s, ok c)

    -- what is made of valid settings on the directories
    unfoldable pub on_directories : Koanf → MateriaConfig → Exec (Disk × W) (Materia (Disk × W))
    unfolding get_local_repo initial_sync outside_paths
    on_directories k c = finish (get_local_repo w.kinds k c.paths.source_dir) >=> λ main.
        on_disk (new_source_component_repository (c.paths.source_dir ∷ c.paths.remote_dir ∷ []))
        >=> λ repo. initial_sync c repo (add_source [] main none none true) >=> λ srcs.
            on_disk (new_host_manager (hostman_config c) w.codec w.connect) >=> λ hm.
            outside_paths c >=> λ c'.
            finish (
              fatal
                (new_materia_from_config w.makers c' (w.host_side hm) (w.source_side repo srcs)))

    unfoldable pub setup : Exec (Disk × W) (Materia (Disk × W))
    unfolding on_directories
    setup = finish w.load_configs >=> λ k. finish (new_config k w.current_user w.env) >=> λ c.
        finish (validate_config c) >=> λ _.
        on_disk (setup_directories c.paths) >=> λ _. on_directories k c
