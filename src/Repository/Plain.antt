-- ===== src/Repository/Plain.antt =====
-- file.go: `FileRepository`, a directory of scripts or of units. `Get` and `List` are not used.
use materia.Base.{String, Bool, List, [], ◌∷◌, join_path}
use materia.Disk.{Node, DiskM, asks, stat, write_file, read_dir, remove_path, remove_all}
use materia.Disk.Steps.{◌>>=◌, ◌>>◌, done}
use materia.Repository.Host.{make_if_missing, there}

pub record FileRepository : Type 0 where
  pub prefix : String

unfoldable pub new_file_repository : String → DiskM FileRepository
unfolding make_if_missing
new_file_repository prefix = do make_if_missing prefix; done (record { prefix = prefix })

module _ (r : FileRepository) where
  unfoldable pub install_file : String → String → DiskM (Unit {0})
  install_file path text = write_file (join_path r.prefix path) text

  unfoldable pub remove_file : String → DiskM (Unit {0})
  remove_file path = remove_path (join_path r.prefix path)

  unfoldable pub file_there : String → DiskM Bool
  unfolding there
  file_there path = asks (λ d. there (stat (join_path r.prefix path) d))

  unfoldable pub get_path : String → DiskM String
  get_path path = done (join_path r.prefix path)

  unfoldable pub clean_entries : List (String × Node) → DiskM (Unit {0})
  clean_entries [] = done tt
  clean_entries ((name, n) ∷ es) = remove_all (join_path r.prefix name) >> clean_entries es

  unfoldable pub clean_files : DiskM (Unit {0})
  unfolding clean_entries
  clean_files = asks (read_dir r.prefix) >>= clean_entries
