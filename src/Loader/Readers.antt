-- ===== src/Loader/Readers.antt =====
-- The repositories (internal/repository) as the pipelines of pkg/loader see them: what they answer
-- on the disk as it is while components are loaded.

use materia.Deps.{Deps}
use materia.Base.{◌≡◌}
use materia.Errors.{ok}
use materia.Disk.{Disk}
use materia.Repository.Host
use materia.Repository.Host.{HostComponentRepository, Codec}
use materia.Repository.Source
use materia.Repository.Source.{SourceComponentRepository}
use materia.Repository.Keys.{source_component-HasKeys}
use materia.Components.Component.{Component}
use materia.Loader.Stages.{ComponentReader}
use materia.Loader.Pipeline.{SourceInputs, source_component_pipeline, load}
use materia.Loader.Keys.{IsFreshlyLoaded, load-IsFreshlyLoaded}

module _ ⦃D : Deps⦄ (K : Codec) (d : Disk) where
  unfoldable pub host_reader : HostComponentRepository → ComponentReader
  host_reader r = record {
    get_component = λ name. (Host.get_component r K name d).1;
    get_manifest = λ c. (Host.get_manifest r K c d).1;
    read_resource = λ res. (Host.read_resource r res d).1;
  }

  unfoldable pub source_reader : SourceComponentRepository → ComponentReader
  source_reader s = record {
    get_component = λ name. (Source.get_component s name d).1;
    get_manifest = λ c. (Source.get_manifest s K c d).1;
    read_resource = λ res. (Source.read_resource s res d).1;
  }

  -- Each component that the pipeline for the sources loads from the source directories of a disk
  -- is valid and in the fresh state, and its resources stand under their own paths.
  pub source_load-IsFreshlyLoaded :
      (s : SourceComponentRepository) (i : SourceInputs) (c c' : Component)
      → load (source_component_pipeline (source_reader s) i) c ≡ ok c'
      → IsFreshlyLoaded c'
  unfolding source_reader
  source_load-IsFreshlyLoaded s i c c' h =
      (load-IsFreshlyLoaded (source_reader s) i (λ name. source_component-HasKeys s name d) c).at c'
        h
