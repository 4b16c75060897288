-- ===== src/Disk.antt =====
-- The file system as far as the repositories use it (os, io/fs, path/filepath): the entries by
-- their clean paths. What has no entry does not exist, or lies under a file. Permissions, links, a
-- full disk and changes by others are left out.
pub mod Steps
use Prim.Native.String.{◌++◌, compare}
use mathlib.Core.List
use materia.Base.{
  String, Bool, true, false, ◌&&◌, ◌||◌, not, Option, none, some, List, [], ◌∷◌, Ordering, ◌==◌,
  if◌then◌else◌, has_prefix, any, dir_name, base_name, sort_texts, parts_of,
}
use materia.Errors.{
  Error, Result, ok, err, ◌>>=◌, ◌>>◌, not_exist, file_exists, not_a_directory, is_a_directory,
  directory_not_empty,
}
use materia.Deps.{assoc_get, assoc_put, assoc_remove}

pub data Node : Type 0 where
  dir : Node
  file : String → Node

abbrev pub is_dir : Node → Bool
is_dir dir = true
is_dir (file content) = false

abbrev pub Disk : Type 0
Disk = List (String × Node)

-- the entries in a directory, at any depth
abbrev pub below : String → String → Bool
below path q = has_prefix q (path ++ "/")

unfoldable pub under_file : String → Disk → Bool
under_file path [] = false
under_file path ((q, n) ∷ d) = (not (is_dir n) && below q path) || under_file path d

unfoldable pub not_found : String → Disk → Error
not_found path d = if under_file path d then not_a_directory else not_exist

unfoldable pub stat_entry : Option Node → String → Disk → Result Node
stat_entry (some n) path d = ok n
stat_entry none path d = err (not_found path d)

-- os.Stat
unfoldable pub stat : String → Disk → Result Node
unfolding stat_entry
stat path d = stat_entry (assoc_get path d) path d

abbrev pub must_be_dir : Node → Result (Unit {0})
must_be_dir dir = ok tt
must_be_dir (file content) = err not_a_directory

-- a new entry: its directory must be there
unfoldable pub create : String → Node → Disk → Result Disk
create path n d = do parent ← stat (dir_name path) d; must_be_dir parent; ok (assoc_put path n d)

unfoldable pub mkdir_at : Option Node → String → Disk → Result Disk
unfolding create
mkdir_at (some n) path d = err file_exists
mkdir_at none path d = create path dir d

unfoldable pub write_at : Option Node → String → String → Disk → Result Disk
unfolding create
write_at (some dir) path text d = err is_a_directory
write_at (some (file old)) path text d = ok (assoc_put path (file text) d)
write_at none path text d = create path (file text) d

unfoldable pub touch_at : Option Node → String → Disk → Result Disk
unfolding create
touch_at (some dir) path d = err is_a_directory
touch_at (some (file old)) path d = ok d
touch_at none path d = create path (file "") d

unfoldable pub read_node : Node → Result String
read_node dir = err is_a_directory
read_node (file text) = ok text

-- os.ReadFile
unfoldable pub read_file : String → Disk → Result String
unfolding read_node
read_file path d = stat path d >>= read_node

unfoldable pub any_below : String → Disk → Bool
any_below path [] = false
any_below path ((q, n) ∷ d) = below path q || any_below path d

unfoldable pub remove_node : Node → String → Disk → Result Disk
remove_node (file text) path d = ok (assoc_remove path d)
remove_node dir path d =
    if any_below path d then err directory_not_empty else ok (assoc_remove path d)

unfoldable pub drop_tree : String → Disk → Disk
drop_tree path [] = []
drop_tree path ((q, n) ∷ d) =
    if q == path || below path q then drop_tree path d else (q, n) ∷ drop_tree path d

unfoldable pub children : String → Disk → List (String × Node)
children path [] = []
children path ((q, n) ∷ d) =
    if dir_name q == path then (base_name q, n) ∷ children path d else children path d

-- entries in the order of their elements, so that a directory stands before what it holds
unfoldable pub parts_before : List String → List String → Bool
parts_before [] qs = true
parts_before (p ∷ ps) [] = false
parts_before (p ∷ ps) (q ∷ qs) =
    let rest = parts_before ps qs in
    elim (compare p q) [ Ordering.lt ↦ true | Ordering.eq ↦ rest | Ordering.gt ↦ false ]

unfoldable pub insert_entry : String × Node → List (String × Node) → List (String × Node)
insert_entry (p, n) [] = (p, n) ∷ []
insert_entry (p, n) ((q, m) ∷ es) =
    if parts_before (parts_of p) (parts_of q)
    then (p, n) ∷ (q, m) ∷ es
    else (q, m) ∷ insert_entry (p, n) es

unfoldable pub sort_entries : List (String × Node) → List (String × Node)
sort_entries [] = []
sort_entries (e ∷ es) = insert_entry e (sort_entries es)

unfoldable pub tree_of : String → Disk → List (String × Node)
tree_of path [] = []
tree_of path ((q, n) ∷ d) = if below path q then (q, n) ∷ tree_of path d else tree_of path d

-- os.ReadDir: the entries by name, in order
unfoldable pub read_dir : String → Disk → Result (List (String × Node))
read_dir path d = do n ← stat path d; must_be_dir n; ok (sort_entries (children path d))

-- filepath.WalkDir: what it visits, the root first and then what it holds; the callbacks return the
-- error of a missing root
unfoldable pub walk_dir : String → Disk → Result (List (String × Node))
walk_dir path d = do n ← stat path d; ok ((path, n) ∷ sort_entries (tree_of path d))

-- what changes the disk: the disk behind it, also where it fails
abbrev pub DiskM : Type 0 → Type 0
DiskM A = Disk → Disk × Result A

abbrev pub asks : {A : Type 0} → (Disk → Result A) → DiskM A
asks f d = (d, f d)

abbrev pub fails : {A : Type 0} → Error → DiskM A
fails e d = (d, err e)

abbrev pub lift : {A : Type 0} → Result A → DiskM A
lift r d = (d, r)

-- a change, or the disk as it was and the error
abbrev pub stored : Disk → Result Disk → Disk × Result (Unit {0})
stored d (ok d') = (d', ok tt)
stored d (err e) = (d, err e)

unfoldable pub mkdir : String → DiskM (Unit {0})
unfolding mkdir_at
mkdir path d = stored d (mkdir_at (assoc_get path d) path d)

unfoldable pub write_file : String → String → DiskM (Unit {0})
unfolding write_at
write_file path text d = stored d (write_at (assoc_get path d) path text d)

-- os.OpenFile with O_CREATE, and nothing written
unfoldable pub touch_file : String → DiskM (Unit {0})
unfolding touch_at
touch_file path d = stored d (touch_at (assoc_get path d) path d)

-- os.Remove
unfoldable pub remove_path : String → DiskM (Unit {0})
unfolding remove_node
remove_path path d = stored d (stat path d >>= λ n. remove_node n path d)

-- os.RemoveAll
unfoldable pub remove_all : String → DiskM (Unit {0})
remove_all path d = (drop_tree path d, ok tt)
