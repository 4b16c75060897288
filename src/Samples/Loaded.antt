-- ===== src/Samples/Loaded.antt =====
-- The web component, loaded from a disk of the sources.
use materia.Components.Kind.{find_resource_type, is_template}
use materia.Repository.Source.{get_component, get_prefix, new_resource, get_manifest, read_resource}
use materia.Components.ServiceConfigs.{add_config}
use materia.Components.ResourceSet.{list_resources, set_resource, contains_resource, add_resource}
use materia.Base.{
  trim_suffix, ext, ◌≡◌, refl, some, [], ◌∷◌, sort_texts, contains_text, base_name, has_suffix,
  trim_suffix, join_path, clean_path, has_prefix, join_texts, clean_parts, split_text, parts_of,
  rel_path, rel_parts, text_of,
}
use materia.Errors.{ok}
use materia.Deps.{assoc_get, values_of, assoc_put, insert_by}
use materia.Deps.Model.{list_deps}
use materia.Manifests.{validate_service_config}
use materia.Components.Component.{
  Component, ComponentLifecycle, new_component, validate_component, is_instanced, instance_name,
  apply_manifest, add_service_configs, mark_scripts, add_secrets, instantiate_service_config,
}
use materia.Components.Resource.{is_quadlet, get_host_object, filepath_of}
use materia.Loader.Stages.{
  component_init, manifest_load, resource_discovery, component_instance, quadlet_object_extractor,
  state_injector, template_processor, secret_injector, quadlet_expander,
}
use materia.Loader.Pipeline.{SourceInputs, source_component_pipeline, load, template_and_secrets}
use materia.Loader.Keys.{IsFreshlyLoaded}
use materia.Loader.Readers.{source_reader, source_load-IsFreshlyLoaded}
use materia.Repository.Host.{Codec}
use materia.Disk.{
  dir, file, Disk, stat, walk_dir, sort_entries, tree_of, insert_entry, parts_before, read_file,
}
use materia.Samples.Data.{component_of, new_web, manifest_file}
use materia.Samples.Engines.{sample_manifest}

abbrev source_disk : Disk
source_disk =
    ("/src", dir)
    ∷ ("/src/components", dir)
    ∷ ("/src/components/web", dir)
    ∷ ("/src/components/web/MANIFEST.toml", file "")
    ∷ ("/src/components/web/web.container", file "web:2")
    ∷ []

abbrev pub sample_codec : Codec
sample_codec = record {
  decode_version = λ text. ok 1;
  encode_version = λ v. ok "Version = 1";
  decode_manifest = λ text. ok sample_manifest;
}

abbrev sample_inputs : SourceInputs
sample_inputs = record {
  render = λ vars text. ok text;
  as_text = λ v. some v;
  attrs = [];
  overrides = [];
  extensions = [];
}

abbrev disk_web : Component
disk_web =
    component_of ComponentLifecycle.fresh
      (("web.container", new_web) ∷ ("MANIFEST.toml", record manifest_file { content = "" }) ∷ [])

disk-loaded :
    load
      (source_component_pipeline
        (source_reader sample_codec source_disk ("/src" ∷ []))
        sample_inputs)
      (record (component_of ComponentLifecycle.stale []) { service_configs = [] })
    ≡ ok disk_web
unfolding load source_component_pipeline component_init source_reader get_component get_prefix stat
    assoc_get join_path clean_path has_prefix join_texts clean_parts split_text contains_text
    instance_name new_component walk_dir base_name sort_entries tree_of insert_entry parts_before
    parts_of new_resource rel_path trim_suffix rel_parts add_resource contains_resource assoc_put
    text_of manifest_load get_manifest read_file apply_manifest add_service_configs
    validate_service_config mark_scripts list_resources values_of find_resource_type ext
    resource_discovery add_secrets sort_texts read_resource filepath_of is_template has_suffix
    template_and_secrets template_processor set_resource component_instance secret_injector
    quadlet_expander quadlet_object_extractor is_quadlet get_host_object state_injector
    validate_component is_instanced add_config insert_by instantiate_service_config
disk-loaded = refl

source_load-IsFreshlyLoaded_example : IsFreshlyLoaded disk_web
source_load-IsFreshlyLoaded_example =
    source_load-IsFreshlyLoaded sample_codec source_disk ("/src" ∷ []) sample_inputs _ disk_web
      disk-loaded
