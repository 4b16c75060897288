-- ===== src/Repository/Source.antt =====
-- source.go: `SourceComponentRepository`, the components in the source directories, which are
-- searched in their order.
use mathlib.Core.List
use materia.Base.{
  String, Bool, true, ◌||◌, Option, none, some, List, [], ◌∷◌, ◌==◌, if◌then◌else◌, contains_text,
  trim_suffix, split_text, base_name, join_path, rel_path, sort_texts,
}
use materia.Errors.{Result, ok, err, invalid_parent, no_search_paths, no_prefix}
use materia.Deps.{Deps}
use materia.Manifests.{ComponentManifest, component_manifest_file}
use materia.Components.Kind.{kind_eq, is_template, find_resource_type, directory}
use materia.Components.Resource.{Resource, no_resource, filepath_of}
use materia.Components.ResourceSet.{add_resource}
use materia.Components.Component.{
  Component, ComponentLifecycle, new_component, default_component_version,
}
use materia.Disk.{
  Node, dir, file, DiskM, asks, fails, lift, stat, read_file, read_dir, walk_dir, remove_all,
}
use materia.Disk.Steps.{◌>>=◌, ◌>>◌, done}
use materia.Repository.Host.{Codec, there, or_no_path, version_file, managed_file, require_manifest}
use materia.Repository.Changes.{dir_names}

abbrev pub SourceComponentRepository : Type 0
SourceComponentRepository = List String

-- the prefix in one base directory
abbrev component_dir : String → String → String
component_dir bd name = join_path (join_path bd "components") name

unfoldable pub stat_all : List String → DiskM (Unit {0})
stat_all [] = done tt
stat_all (path ∷ paths) = asks (stat path) >> stat_all paths

unfoldable pub new_source_component_repository : List String → DiskM SourceComponentRepository
unfolding stat_all
new_source_component_repository source_dirs = do stat_all source_dirs; done source_dirs

unfoldable pub validate_sources : SourceComponentRepository → Result (Unit {0})
validate_sources [] = err no_search_paths
validate_sources (bd ∷ bds) = ok tt

unfoldable pub get_prefix : SourceComponentRepository → String → DiskM String
unfolding there
get_prefix [] name = fails no_prefix
get_prefix (bd ∷ bds) name = asks (λ d. there (stat (component_dir bd name) d)) >>= λ found.
    let rest = get_prefix bds name in if found then done (component_dir bd name) else rest

unfoldable pub list_dirs : SourceComponentRepository → List String → DiskM (List String)
unfolding dir_names
list_dirs [] paths = done paths
list_dirs (bd ∷ bds) paths = do
  entries ← asks (read_dir bd)
  list_dirs bds (List.◌++◌ paths (dir_names entries))

unfoldable pub list_component_names : SourceComponentRepository → DiskM (List String)
unfolding list_dirs
list_component_names s = do paths ← list_dirs s []; done (sort_texts paths)

unfoldable pub clean : SourceComponentRepository → DiskM (Unit {0})
clean [] = done tt
clean (bd ∷ bds) = remove_all bd >> clean bds

-- `strings.Split(name, "@")[0]`
abbrev pub first_part : List String → String
first_part [] = ""
first_part (p ∷ ps) = p

module _ ⦃D : Deps⦄ (s : SourceComponentRepository) where
  unfoldable pub read_resource : Resource → DiskM String
  unfolding kind_eq
  read_resource res =
      if kind_eq res.kind directory
      then done ""
      else (get_prefix s res.parent >>= λ prefix.
          asks (read_file (join_path prefix (filepath_of res))))

  kind_at : Node → String → Resource → Resource
  kind_at dir path res = record res { kind = directory }
  kind_at (file text) path res = record res { kind = find_resource_type path }

  unfoldable pub new_resource : Component → String → DiskM Resource
  unfolding kind_at
  new_resource parent path = do
    prefix ← get_prefix s parent.name
    name ← lift (or_no_path (rel_path prefix (trim_suffix path ".gotmpl")))
    node ← asks (stat path)
    done (
        kind_at node path
          (record no_resource { path = name; parent = parent.name; template = is_template path }))

  -- the callback of the walk of `GetComponent`
  unfoldable pub load_entries : Component → List (String × Node) → DiskM Component
  load_entries c [] = done c
  load_entries c ((path, n) ∷ es) =
      let rest = load_entries c es in
      let more = new_resource c path >>= λ res. lift (add_resource c.resources res) >>= λ set.
      load_entries (record c { resources = set }) es in
      if base_name path == c.name
        || (base_name path == component_manifest_file || contains_text path ".git")
      then rest
      else more

  -- what `GetComponent` does behind the check of the manifest
  unfoldable pub load_from : String → Component → DiskM Component
  unfolding load_entries
  load_from path c = do
    entries ← asks (walk_dir path)
    loaded ← load_entries c entries
    manifest ← new_resource loaded (join_path path component_manifest_file)
    set ← lift (add_resource loaded.resources manifest)
    done (record loaded { resources = set })

  -- `scripts` and `secretResources` stay empty in the code, and their checks pass
  unfoldable pub get_component : String → DiskM Component
  unfolding require_manifest load_from there
  get_component name = do
    let plain = if contains_text name "@" then first_part (split_text name b'@') else name
    path ← get_prefix s plain
    c ← lift (new_component plain)
    has_manifest ← asks (λ d. there (stat (join_path path component_manifest_file) d))
    require_manifest has_manifest
    load_from path
        (record c { state = ComponentLifecycle.fresh; version = default_component_version })

  unfoldable pub get_resource : Option Component → String → DiskM Resource
  get_resource none name = fails invalid_parent
  get_resource (some parent) name =
      if name == ""
      then fails invalid_parent
      else (get_prefix s parent.name >>= λ prefix. new_resource parent (join_path prefix name))

  listed : Component → String → Resource
  listed c name = record no_resource {
    parent = c.name;
    path = name;
    kind = find_resource_type name;
    template = is_template name;
  }

  unfoldable pub list_entries :
      Component → String → List (String × Node) → List Resource → DiskM (List Resource)
  unfolding listed
  list_entries c prefix [] resources = done resources
  list_entries c prefix ((path, n) ∷ es) resources =
      let name = base_name path in
      let rest = list_entries c prefix es resources in
      let more = lift (or_no_path (rel_path prefix path)) >>= λ rel.
      list_entries c prefix es (List.◌++◌ resources (listed c rel ∷ [])) in
      if name == c.name || (name == version_file || name == managed_file) then rest else more

  unfoldable pub list_resources : Option Component → DiskM (List Resource)
  unfolding list_entries
  list_resources none = fails invalid_parent
  list_resources (some c) = do
    prefix ← get_prefix s c.name
    entries ← asks (walk_dir prefix)
    list_entries c prefix entries []

  unfoldable pub component_exists : String → DiskM Bool
  component_exists name = do get_prefix s name; done true

  unfoldable pub get_manifest : Codec → Component → DiskM ComponentManifest
  get_manifest K parent = do
    prefix ← get_prefix s parent.name
    text ← asks (read_file (join_path prefix component_manifest_file))
    lift (K.decode_manifest text)
