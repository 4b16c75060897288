-- ===== src/Commands/Directories.antt =====
-- `setupDirectories` of cmd/materia/setup.go, over os.Mkdir and os.MkdirAll. The paths of the settings
-- are clean.
use materia.Base.{
  String, Bool, List, [], ◌∷◌, if◌then◌else◌, join_path, clean_path, parts_of, has_prefix,
}
use materia.Errors.{Error, Result, ok, err, file_exists, not_a_directory}
use materia.Disk.{Node, dir, file, Disk, DiskM, fails, stat, mkdir}
use materia.Disk.Steps.{◌>>◌, done}
use materia.Engine.Settings.{Paths}

abbrev pub is_exist : Error → Bool
is_exist file_exists = Bool.true
is_exist _ = Bool.false

-- `if err != nil && !errors.Is(err, fs.ErrExist)`
abbrev pub accepted : Disk × Result (Unit {0}) → Disk × Result (Unit {0})
accepted (d, ok u) = (d, ok u)
accepted (d, err e) = if is_exist e then (d, ok tt) else (d, err e)

abbrev pub missing_dir : Result Node → String → DiskM (Unit {0})
missing_dir (ok dir) path = done tt
missing_dir (ok (file text)) path = fails not_a_directory
missing_dir (err e) path = mkdir path

abbrev pub ensure_dir : String → DiskM (Unit {0})
ensure_dir path d = missing_dir (stat path d) path d

-- os.MkdirAll, from the topmost directory on
unfoldable pub mkdir_below : String → List String → DiskM (Unit {0})
mkdir_below at [] = done tt
mkdir_below at (p ∷ ps) = ensure_dir (join_path at p) >> mkdir_below (join_path at p) ps

unfoldable pub mkdir_all : String → DiskM (Unit {0})
unfolding mkdir_below
mkdir_all path = mkdir_below (if has_prefix path "/" then "/" else "") (parts_of path)

-- os.Mkdir of a directory that may be there
unfoldable pub mkdir_once : String → DiskM (Unit {0})
mkdir_once path d = accepted (mkdir path d)

unfoldable pub mkdir_all_once : String → DiskM (Unit {0})
unfolding mkdir_all
mkdir_all_once path d = accepted (mkdir_all path d)

unfoldable pub setup_directories : Paths → DiskM (Unit {0})
unfolding mkdir_once mkdir_all_once
setup_directories p =
    mkdir_once (clean_path p.materia_dir)
    >> (mkdir_once p.output_dir
        >> (mkdir_once p.source_dir
            >> (mkdir_all_once (join_path p.remote_dir "components")
                >> mkdir_once (join_path p.materia_dir "components"))))
