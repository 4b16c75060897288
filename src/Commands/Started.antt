-- ===== src/Commands/Started.antt =====
-- What stands behind a `Materia` that `setup` (setup.go) has made.
use materia.Base.{◌≡◌, true, none, Option, false, List, [], ◌∷◌, ◌⊎◌}
use materia.Errors.{ok}
use materia.Deps.{Deps}
use materia.Disk.{Disk}
use materia.Sources.{Source, SourcePlan, sync_all}
use materia.Sources.Remotes.{load_remotes}
use materia.Repository.Source.{SourceComponentRepository}
use materia.Hostman.{HostManager, on_disk, new_host_manager}
use materia.Engine.Backend.{Materia}
use materia.Engine.Settings.{Koanf, MateriaConfig, new_config, validate_config}
use materia.Engine.Setup.{new_materia_from_config}
use materia.Commands.Directories.{setup_directories}
use materia.Commands.Made.{Prepared}
use materia.Executor.Host.{ExecutorConfig}
use materia.Commands.Setup.{
  Container, mounted_executor, mounts_of, own_container, World, Sources, get_local_repo,
  hostman_config,
}

module _ ⦃D : Deps⦄ {C W T : Type 0} (w : World C W T) where
  -- the main source, the first and the primary one
  abbrev pub main_plan : Source (Disk × W) → SourcePlan (Disk × W)
  main_plan main = record { source = main; primary = true; opts = none; report = none }

  -- the sources were synced without an error, and then the remote ones were loaded without one
  pub record SyncedFrom (c : MateriaConfig) (repo : SourceComponentRepository)
      (main : Source (Disk × W)) (s s' : Disk × W) (srcs : Sources W) : Type 0 where
    pub synced : Sources W
    pub middle : Disk × W
    pub sync : sync_all none (main_plan main ∷ []) s ≡ (middle, (synced, none))
    pub loaded :
        load_remotes w.remote_kinds c.paths.remote_dir (w.remotes repo middle) synced middle
        ≡ (s', ok srcs)

  -- the settings as they are, or, if rootless is set, with the executor's directories replaced by
  -- those that the mounts of the program's own container stand for
  pub data Moved (c : MateriaConfig) : MateriaConfig → Type 0 where
    unmoved : c.rootless ≡ false → Moved c c
    moved :
        (t : Disk × W) (vs : List Container) (e : Option ExecutorConfig)
        → c.rootless ≡ true
        → w.list_containers t ≡ ok vs
        → mounted_executor (mounts_of (own_container w.get_hostname vs none)) c.executor ≡ ok e
        → Moved c (record c { executor = e })

  -- valid settings, the directories made with them, and the main source synced on these unless
  -- syncing is off
  pub record Ready (first : Disk) (v : W) (m : Materia (Disk × W)) : Type 0 where
    pub store : Koanf
    pub config : MateriaConfig
    pub configured : new_config store w.current_user w.env ≡ ok config
    pub valid : validate_config config ≡ ok tt
    pub disk : Disk
    pub set_up : setup_directories config.paths first ≡ (disk, ok tt)
    pub prepared : Prepared config.paths disk
    pub main : Source (Disk × W)
    pub from_main : get_local_repo w.kinds store config.paths.source_dir ≡ ok main
    pub repo : SourceComponentRepository
    pub sources : Sources W
    pub behind : Disk × W
    pub synced :
        ((config.no_sync ≡ true) × (sources ≡ main_plan main ∷ []) × (behind ≡ (disk, v)))
        ⊎ SyncedFrom config repo main (disk, v) behind sources
    pub inner : MateriaConfig
    pub moved_from : Moved config inner
    pub manager : HostManager W
    pub after_host : Disk × W
    pub host_made :
        on_disk (new_host_manager (hostman_config w config) w.codec w.connect) behind
        ≡ (after_host, ok manager)
    pub made :
        new_materia_from_config w.makers inner (w.host_side manager) (w.source_side repo sources)
        ≡ ok m
