-- ===== src/Sources/Remotes.antt =====
-- sourceman.go: LoadRemotes, the components of the manifest that have sources of their own. What
-- makes a git, a file or an OCI source from its settings and a directory is a parameter.
use materia.Base.{String, false, Option, none, some, List, [], ◌∷◌, ◌==◌, if◌then◌else◌, join_path}
use materia.Errors.{Result, ok, err, ◌>>=◌, no_remote_source}
use materia.Deps.{assoc_get}
use materia.Manifests.{component_manifest_file}
use materia.Disk.{Node, dir, file, Disk, stat, read_dir, remove_all}
use materia.Executor.Host.{Exec, ◌>=>◌, finish}
use materia.Sources.{Source, SourcePlan, SyncOpts, add_source}

-- the settings of a source are `C`; the manifest's remotes are a list of names with these
pub record RemoteComponentConfig (C : Type 0) : Type 0 where
  pub git_source : Option C
  pub oci_source : Option C
  pub file_source : Option C
  pub subpath : String

pub record SourceKinds (C S : Type 0) : Type 0 where
  pub new_git_source : C → String → Result (Source S)
  pub new_file_source : C → String → Result (Source S)
  pub new_oci_source : C → String → Result (Source S)

unfoldable pub or_no_source : {S : Type 0} → Option (Source S) → Result (Source S)
or_no_source none = err no_remote_source
or_no_source (some s) = ok s

module _ {C S : Type 0} where
  -- a source of one kind takes the place of one that was found before
  unfoldable pub or_kept :
      (C → String → Result (Source S))
      → String
      → Option C
      → Option (Source S)
      → Result (Option (Source S))
  or_kept new path none found = ok found
  or_kept new path (some c) found = new c path >>= λ s. ok (some s)

  unfoldable pub remote_source :
      SourceKinds C S → String → RemoteComponentConfig C → Result (Source S)
  unfolding or_kept or_no_source
  remote_source k path r = do
    from_git ← or_kept k.new_git_source path r.git_source none
    from_file ← or_kept k.new_file_source path r.file_source from_git
    from_oci ← or_kept k.new_oci_source path r.oci_source from_file
    or_no_source from_oci

module _ {C W : Type 0} (k : SourceKinds C (Disk × W)) (remote_dir : String) where
  -- a question to the disk
  abbrev asked : {A : Type 0} → (Disk → Result A) → Exec (Disk × W) A
  asked question (d, w) = ((d, w), question d)

  abbrev with_subpath : String → String → String
  with_subpath path subpath = if subpath == "" then path else join_path path subpath

  abbrev subpath_opts : String → SyncOpts
  subpath_opts subpath = record { revision = ""; subpath = subpath }

  -- one remote: it is synced, and must be a component
  unfoldable pub load_remote :
      String
      → RemoteComponentConfig C
      → List (SourcePlan (Disk × W))
      → Exec (Disk × W) (List (SourcePlan (Disk × W)))
  unfolding remote_source
  load_remote name r srcs =
      let path = join_path (join_path remote_dir "components") name in
      finish (remote_source k path r) >=> λ new. new.sync (subpath_opts r.subpath) >=> λ report.
      asked (stat (join_path (with_subpath path r.subpath) component_manifest_file)) >=> λ n.
      finish (ok (add_source srcs new (some (subpath_opts r.subpath)) (some report) false))

  unfoldable pub load_each :
      List (String × RemoteComponentConfig C)
      → List (SourcePlan (Disk × W))
      → Exec (Disk × W) (List (SourcePlan (Disk × W)))
  unfolding load_remote
  load_each [] srcs = finish (ok srcs)
  load_each ((name, r) ∷ remotes) srcs = load_remote name r srcs >=> load_each remotes

  abbrev removed : W → Disk × Result (Unit {0}) → (Disk × W) × Result (Unit {0})
  removed w (d, r) = ((d, w), r)

  remove_path_of : String → Exec (Disk × W) (Unit {0})
  remove_path_of name (d, w) =
      removed w (remove_all (join_path (join_path remote_dir "components") name) d)

  unfoldable pub remove_unless :
      String → Option (RemoteComponentConfig C) → Exec (Disk × W) (Unit {0})
  unfolding remove_path_of
  remove_unless name none = remove_path_of name
  remove_unless name (some r) = finish (ok tt)

  -- the directories of remote components that the manifest has no more
  unfoldable pub remove_old :
      List (String × RemoteComponentConfig C) → List (String × Node) → Exec (Disk × W) (Unit {0})
  unfolding remove_unless
  remove_old remotes [] = finish (ok tt)
  remove_old remotes ((name, file text) ∷ es) = remove_old remotes es
  remove_old remotes ((name, dir) ∷ es) =
      remove_unless name (assoc_get name remotes) >=> λ _. remove_old remotes es

  -- every caller gives up on an error, and the sources that were added before it are not followed
  unfoldable pub load_remotes :
      Result (List (String × RemoteComponentConfig C))
      → List (SourcePlan (Disk × W))
      → Exec (Disk × W) (List (SourcePlan (Disk × W)))
  unfolding load_each remove_old
  load_remotes manifest srcs = finish manifest >=> λ remotes. load_each remotes srcs >=> λ srcs'.
      asked (read_dir (join_path remote_dir "components")) >=> λ entries.
      remove_old remotes entries >=> λ _. finish (ok srcs')
