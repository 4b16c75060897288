-- ===== src/Repository/Changes.antt =====
-- component.go: what `HostComponentRepository` changes on the host's disk, and what it asks of it.
use Prim.Native.String.{◌++◌}
use materia.Base.{
  String, Bool, true, false, Option, none, some, List, [], ◌∷◌, ◌==◌, if◌then◌else◌, join_path,
  sort_texts,
}
use materia.Errors.{Result, ok, err, no_component, data_left_over}
use materia.Deps.{Deps}
use materia.Components.Kind.{kind_eq, directory}
use materia.Components.Resource.{Resource, validate_resource, is_quadlet}
use materia.Components.Component.{Component, validate_component}
use materia.Disk.{
  Node, dir, file, DiskM, asks, fails, lift, stat, mkdir, write_file, touch_file, read_dir,
  walk_dir, remove_path, remove_all,
}
use materia.Disk.Steps.{◌>>=◌, ◌>>◌, done}
use materia.Repository.Host.{
  HostComponentRepository, Codec, data_path, quadlet_path, version_file, managed_file, there,
}

unfoldable pub dir_names : List (String × Node) → List String
dir_names [] = []
dir_names ((name, dir) ∷ es) = name ∷ dir_names es
dir_names ((name, file text) ∷ es) = dir_names es

-- the callback of the walk of `RemoveComponent`: a file is an error, a directory is noted
unfoldable pub leftover_dirs : List (String × Node) → Result (List String)
leftover_dirs [] = ok []
leftover_dirs ((path, file text) ∷ es) = err data_left_over
leftover_dirs ((path, dir) ∷ es) = elim (leftover_dirs es) [
  | ok paths ↦ ok (path ∷ paths)
  | err e ↦ err e
]

unfoldable pub remove_paths : List String → DiskM (Unit {0})
remove_paths [] = done tt
remove_paths (path ∷ paths) = remove_path path >> remove_paths paths

module _ ⦃D : Deps⦄ (r : HostComponentRepository) where
  unfoldable pub list_component_names : DiskM (List String)
  unfolding dir_names
  list_component_names = do
    entries ← asks (read_dir r.data_prefix)
    done (sort_texts (dir_names entries))

  unfoldable pub write_version : Codec → Component → DiskM (Unit {0})
  unfolding data_path
  write_version K c = do
    vd ← lift (K.encode_version c.version)
    write_file (join_path (data_path r c) version_file) vd

  unfoldable pub install_component : Codec → Component → DiskM (Unit {0})
  unfolding data_path quadlet_path write_version
  install_component K c = do
    lift (validate_component c)
    mkdir (data_path r c)
    mkdir (quadlet_path r c)
    touch_file (quadlet_path r c ++ ("/" ++ managed_file))
    write_version K c

  unfoldable pub update_component : Codec → Component → DiskM (Unit {0})
  unfolding write_version
  update_component K c = write_version K c

  unfoldable pub remove_component : Option Component → DiskM (Unit {0})
  unfolding data_path quadlet_path leftover_dirs remove_paths
  remove_component none = fails no_component
  remove_component (some c) = do
    remove_path (join_path (data_path r c) version_file)
    entries ← asks (walk_dir (data_path r c))
    leftovers ← lift (leftover_dirs entries)
    remove_paths leftovers
    remove_path (join_path (quadlet_path r c) managed_file)
    remove_path (quadlet_path r c)

  unfoldable pub install_resource : Resource → String → DiskM (Unit {0})
  unfolding kind_eq
  install_resource res text = do
    lift (validate_resource res)
    if is_quadlet res
        then write_file (join_path (join_path r.quadlet_prefix res.parent) res.path) text
        else if kind_eq res.kind directory
        then mkdir (join_path (join_path r.data_prefix res.parent) res.path)
        else write_file (join_path (join_path r.data_prefix res.parent) res.path) text

  unfoldable pub remove_resource : Resource → DiskM (Unit {0})
  remove_resource res = remove_path (
      if is_quadlet res
      then join_path (join_path r.quadlet_prefix res.parent) res.path
      else join_path (join_path r.data_prefix res.parent) res.path)

  unfoldable pub component_exists : String → DiskM Bool
  unfolding there
  component_exists name = asks (λ d. there (stat (join_path r.data_prefix name) d))

  unfoldable pub purge_component : Option Component → DiskM (Unit {0})
  unfolding data_path quadlet_path
  purge_component none = fails no_component
  purge_component (some c) = do remove_all (data_path r c); remove_all (quadlet_path r c)

  unfoldable pub purge_component_by_name : String → DiskM (Unit {0})
  purge_component_by_name name =
      if name == ""
      then fails no_component
      else (remove_all (join_path r.data_prefix name)
          >> remove_all (join_path r.quadlet_prefix name))

  unfoldable pub remove_if_managed : String → Bool → DiskM (Unit {0})
  remove_if_managed name false = done tt
  remove_if_managed name true = remove_all (join_path r.quadlet_prefix name)

  unfoldable pub clean_quadlets : List String → DiskM (Unit {0})
  unfolding remove_if_managed there
  clean_quadlets [] = done tt
  clean_quadlets (name ∷ names) = do
    managed ←
        asks (λ d. there (stat (r.quadlet_prefix ++ ("/" ++ (name ++ ("/" ++ managed_file)))) d))
    remove_if_managed name managed
    clean_quadlets names

  unfoldable pub clean : DiskM (Unit {0})
  unfolding clean_quadlets dir_names
  clean = do
    entries ← asks (read_dir r.quadlet_prefix)
    clean_quadlets (dir_names entries)
    remove_all r.data_prefix
