-- ===== src/Repository/Host.antt =====
-- component.go: `HostComponentRepository`, the components and resources on a host. A version of -1
-- is the largest 64-bit pattern.
use mathlib.Core.List
use materia.Base.{
  ℕ, ◌^◌, ◌-◌, String, Bool, true, false, ◌&&◌, ◌||◌, Option, none, some, List, [], ◌∷◌, ◌==◌,
  if◌then◌else◌, contains_text, base_name, join_path, rel_path,
}
use materia.Errors.{
  Error, Result, ok, err, not_exist, no_relative_path, invalid_parent, no_such_resource,
  secret_in_repository, corrupt_component,
}
use materia.Deps.{Deps}
use materia.Manifests.{ComponentManifest, component_manifest_file}
use materia.Components.Kind.{
  kind_eq, is_dropin_dir, is_template, find_resource_type, directory, dropin_dir, podman_secret,
}
use materia.Components.Resource.{Resource, no_resource, filepath_of, is_quadlet, get_host_object}
use materia.Components.ResourceSet.{add_resource}
use materia.Components.Component.{Component, new_component, instance_name}
use materia.Disk.{Node, dir, file, DiskM, asks, fails, lift, stat, mkdir, read_file, walk_dir}
use materia.Disk.Steps.{◌>>=◌, ◌>>◌, done}

abbrev pub version_file : String
version_file = ".component_version"

abbrev pub managed_file : String
managed_file = ".materia_managed"

pub record HostComponentRepository : Type 0 where
  pub data_prefix : String
  pub quadlet_prefix : String

-- what the TOML parser makes of a version file and of a manifest, and of a version
pub record Codec ⦃D : Deps⦄ : Type 0 where
  pub decode_version : String → Result ℕ
  pub encode_version : ℕ → Result String
  pub decode_manifest : String → Result ComponentManifest

unfoldable pub is_not_exist : Error → Bool
is_not_exist not_exist = true
is_not_exist _ = false

-- whether a path is there, with the errors that are not `ErrNotExist`
unfoldable pub there : Result Node → Result Bool
unfolding is_not_exist
there (ok n) = ok true
there (err e) = if is_not_exist e then ok false else err e

-- `if _, err := os.Stat(path); err != nil { if errors.Is(err, os.ErrNotExist) { … } }`
abbrev is_missing : Result Node → Bool
is_missing (ok n) = false
is_missing (err e) = is_not_exist e

unfoldable pub make_if_missing : String → DiskM (Unit {0})
unfolding is_not_exist
make_if_missing path d = if is_missing (stat path d) then mkdir path d else (d, ok tt)

unfoldable pub new_host_component_repository : String → String → DiskM HostComponentRepository
unfolding make_if_missing
new_host_component_repository quadlet_prefix data_prefix = do
  make_if_missing data_prefix
  make_if_missing quadlet_prefix
  done (record { data_prefix = data_prefix; quadlet_prefix = quadlet_prefix })

abbrev pub or_no_path : Option String → Result String
or_no_path none = err no_relative_path
or_no_path (some path) = ok path

unfoldable pub require_manifest : Bool → DiskM (Unit {0})
require_manifest true = done tt
require_manifest false = fails corrupt_component

module _ ⦃D : Deps⦄ (r : HostComponentRepository) where
  unfoldable pub data_path : Component → String
  data_path c = join_path r.data_prefix (instance_name c)

  unfoldable pub quadlet_path : Component → String
  quadlet_path c = join_path r.quadlet_prefix (instance_name c)

  -- where `ReadResource` looks for a resource
  unfoldable pub resource_path : Resource → String
  resource_path res =
      if is_quadlet res
      then join_path (join_path r.quadlet_prefix res.parent) (filepath_of res)
      else join_path (join_path r.data_prefix res.parent) (filepath_of res)

  unfoldable pub read_resource : Resource → DiskM String
  unfolding kind_eq
  read_resource res =
      if kind_eq res.kind directory || kind_eq res.kind dropin_dir
      then done ""
      else if kind_eq res.kind podman_secret
      then fails secret_in_repository
      else asks (read_file (resource_path res))

  -- the podman object of a resource in the quadlet directory
  unfoldable pub with_host_object : Bool → Resource → DiskM Resource
  with_host_object false res = done res
  with_host_object true res = do
    unit_data ← read_resource res
    object ← lift (get_host_object res unit_data)
    done (record res { host_object = object })

  unfoldable pub typed_resource : Bool → Node → Resource → DiskM Resource
  typed_resource in_quadlets dir res = done (record res {
    kind = if in_quadlets && is_dropin_dir res.path then dropin_dir else directory;
  })
  typed_resource in_quadlets (file text) res =
      with_host_object in_quadlets (record res { kind = find_resource_type res.path })

  unfoldable pub new_resource : Component → String → DiskM Resource
  unfolding typed_resource
  new_resource parent path = do
    let in_quadlets = contains_text path r.quadlet_prefix
    let prefix = if in_quadlets then r.quadlet_prefix else r.data_prefix
    node ← asks (stat path)
    rel ← lift (or_no_path (rel_path (join_path prefix (instance_name parent)) path))
    typed_resource in_quadlets node
        (record no_resource { path = rel; parent = instance_name parent })

  -- the callbacks of the two walks of `GetComponent`: some names are passed over
  unfoldable pub load_entries : Component → (String → Bool) → List (String × Node) → DiskM Component
  load_entries c skipped [] = done c
  load_entries c skipped ((path, n) ∷ es) =
      let rest = load_entries c skipped es in
      let more = new_resource c path >>= λ res. lift (add_resource c.resources res) >>= λ set.
      load_entries (record c { resources = set }) skipped es in
      if skipped (base_name path) then rest else more

  unfoldable pub read_version : Codec → Component → Bool → DiskM Component
  read_version K c false = done (record c { version = 2 ^ 64 - 1 })
  read_version K c true = do
    text ← asks (read_file (join_path (data_path c) version_file))
    v ← lift (K.decode_version text)
    done (record c { version = v })

  unfoldable pub get_component : Codec → String → DiskM Component
  unfolding data_path quadlet_path read_version require_manifest load_entries there
  get_component K name = do
    old ← lift (new_component name)
    has_version ← asks (λ d. there (stat (join_path (data_path old) version_file) d))
    versioned ← read_version K old has_version
    let manifest_path = join_path (data_path old) component_manifest_file
    has_manifest ← asks (λ d. there (stat manifest_path d))
    require_manifest has_manifest
    manifest ← new_resource versioned manifest_path
    set ← lift (add_resource versioned.resources manifest)
    data_entries ← asks (walk_dir (data_path old))
    loaded ←
        load_entries (record versioned { resources = set })
          (λ n. n == instance_name old || (n == version_file || n == component_manifest_file))
          data_entries
    quadlet_entries ← asks (walk_dir (quadlet_path old))
    load_entries loaded (λ n. n == instance_name old || n == managed_file) quadlet_entries

  unfoldable pub get_manifest : Codec → Component → DiskM ComponentManifest
  unfolding data_path
  get_manifest K parent = do
    text ← asks (read_file (join_path (data_path parent) component_manifest_file))
    lift (K.decode_manifest text)

  unfoldable pub get_from_quadlets : Component → String → Bool → DiskM Resource
  get_from_quadlets parent path false = new_resource parent path
  get_from_quadlets parent path true = fails no_such_resource

  unfoldable pub get_from_data : Component → String → Bool → DiskM Resource
  unfolding get_from_quadlets quadlet_path data_path
  get_from_data parent name false = new_resource parent (join_path (data_path parent) name)
  get_from_data parent name true = do
    let path = join_path (quadlet_path parent) name
    found ← asks (λ d. there (stat path d))
    get_from_quadlets parent path found

  -- a parent of `none` is a nil pointer; `else if err != nil` holds of what is not there
  unfoldable pub get_resource : Option Component → String → DiskM Resource
  unfolding get_from_data data_path there
  get_resource none name = fails invalid_parent
  get_resource (some parent) name =
      if name == ""
      then fails invalid_parent
      else (asks (λ d. there (stat (join_path (data_path parent) name) d)) >>= λ found.
          get_from_data parent name found)

  abbrev listed : Component → String → Resource
  listed c name = record no_resource {
    parent = instance_name c;
    path = name;
    kind = find_resource_type name;
    template = is_template name;
  }

  unfoldable pub list_entries :
      Component → String → List (String × Node) → List Resource → DiskM (List Resource)
  list_entries c prefix [] resources = done resources
  list_entries c prefix ((path, n) ∷ es) resources =
      let name = base_name path in
      let rest = list_entries c prefix es resources in
      let more = lift (or_no_path (rel_path prefix path)) >>= λ rel.
      list_entries c prefix es (List.◌++◌ resources (listed c rel ∷ [])) in
      if name == c.name || (name == version_file || name == managed_file) then rest else more

  unfoldable pub list_resources : Option Component → DiskM (List Resource)
  unfolding data_path quadlet_path list_entries
  list_resources none = fails invalid_parent
  list_resources (some c) = do
    data_entries ← asks (walk_dir (data_path c))
    found ← list_entries c (data_path c) data_entries []
    quadlet_entries ← asks (walk_dir (quadlet_path c))
    list_entries c (quadlet_path c) quadlet_entries found
