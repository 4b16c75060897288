-- ===== src/Hostman.antt =====
-- pkg/hostman/hostman.go: `HostManager`, the repositories on the host's disk together with podman and
-- systemd. What these two do, and the questions to them, is a parameter, which sees the whole state.
pub mod Converged
pub mod Fresh
pub mod Units
use materia.Base.{String, List, some, sort_texts, join_path}
use materia.Errors.{Result, ok, err}
use materia.Deps.{Deps}
use materia.Components.Resource.{Resource}
use materia.Disk.{Disk, DiskM, lift}
use materia.Disk.Steps.{◌>>=◌, ◌>>◌, done}
use materia.Repository.Host.{
  HostComponentRepository, Codec, new_host_component_repository, get_component, get_manifest,
  read_resource,
}
use materia.Repository.Changes
use materia.Repository.Plain
use materia.Repository.Plain.{FileRepository, new_file_repository}
use materia.Loader.Stages.{ComponentReader}
use materia.Executor.Host.{
  Host, Call, install_component, update_component, remove_component, install_resource,
  remove_resource, install_script, install_unit, remove_script, remove_unit,
}

pub record HostmanConfig : Type 0 where
  pub data_dir : String
  pub quadlet_dir : String
  pub scripts_dir : String
  pub services_dir : String

module _ ⦃D : Deps⦄ where
  pub record HostManager (W : Type 0) : Type 0 where
    pub components : HostComponentRepository
    pub codec : Codec
    pub scripts : FileRepository
    pub units : FileRepository
    pub outside : Host (Disk × W)

  -- a change of the disk beside what podman and systemd know
  abbrev pub beside : {W A : Type 0} → W → Disk × Result A → (Disk × W) × Result A
  beside w (d, r) = ((d, w), r)

  abbrev pub on_disk : {W A : Type 0} → DiskM A → Disk × W → (Disk × W) × Result A
  on_disk m (d, w) = beside w (m d)

  -- the connections to podman and systemd are made between those of the repositories
  unfoldable pub new_host_manager :
      {W : Type 0} → HostmanConfig → Codec → Result (Host (Disk × W)) → DiskM (HostManager W)
  new_host_manager c K connect = do
    repo ← new_host_component_repository c.quadlet_dir (join_path c.data_dir "components")
    outside ← lift connect
    scripts ← new_file_repository c.scripts_dir
    units ← new_file_repository c.services_dir
    done (record {
      components = repo;
      codec = K;
      scripts = scripts;
      units = units;
      outside = outside;
    })

  module _ {W : Type 0} (h : HostManager W) where
    -- the calls of the executor: those on files go to the repositories
    unfoldable pub perform_call : Call → Disk × W → (Disk × W) × Result (Unit {0})
    perform_call (install_component c) = on_disk (Changes.install_component h.components h.codec c)
    perform_call (update_component c) = on_disk (Changes.update_component h.components h.codec c)
    perform_call (remove_component c) = on_disk (Changes.remove_component h.components (some c))
    perform_call (install_resource res text) =
        on_disk (Changes.install_resource h.components res text)
    perform_call (remove_resource res) = on_disk (Changes.remove_resource h.components res)
    perform_call (install_script path text) = on_disk (Plain.install_file h.scripts path text)
    perform_call (install_unit path text) = on_disk (Plain.install_file h.units path text)
    perform_call (remove_script path) = on_disk (Plain.remove_file h.scripts path)
    perform_call (remove_unit path) = on_disk (Plain.remove_file h.units path)
    perform_call call = h.outside.perform call

    abbrev pub host_of : Host (Disk × W)
    host_of = record h.outside { perform = perform_call }

    -- what the loader reads at one state of the disk
    abbrev pub host_reader : Disk → ComponentReader
    host_reader d = record {
      get_component = λ name. (get_component h.components h.codec name d).1;
      get_manifest = λ c. (get_manifest h.components h.codec c d).1;
      read_resource = λ res. (read_resource h.components res d).1;
    }

    unfoldable pub list_installed_components : DiskM (List String)
    list_installed_components = do
      names ← Changes.list_component_names h.components
      done (sort_texts names)
