-- ===== src/Base/Text.antt =====
-- Go's `strings` and `path/filepath` as far as the program uses them, over Unix paths.
use Prim.Native.Nat.{ℕ, zero, suc, ◌-◌}
use Prim.Native.Char.{code}
use Prim.Native.String.{String, [], ◌∷◌, ◌++◌, count}
use mathlib.Core.Bool.{Bool, true, false, ◌&&◌, ◌||◌}
use mathlib.Core.Option.{Option, none, some}
use mathlib.Core.List.{List}
use text.Mathlib.Text.{◌==◌}
use materia.Base.Tests.{nat_eq, if◌then◌else◌}

-- the rest of the text behind a prefix
unfoldable pub strip_prefix : String → String → Option String
strip_prefix s [] = some s
strip_prefix [] (d ∷ p) = none
strip_prefix (c ∷ s) (d ∷ p) = if nat_eq (code c) (code d) then strip_prefix s p else none

is_some_text : Option String → Bool
is_some_text none = false
is_some_text (some _) = true

-- strings.HasPrefix
unfoldable pub has_prefix : String → String → Bool
unfolding strip_prefix is_some_text
has_prefix s p = is_some_text (strip_prefix s p)

-- strings.Contains
unfoldable pub contains_text : String → String → Bool
unfolding has_prefix
contains_text [] p = has_prefix [] p
contains_text (c ∷ s) p = has_prefix (c ∷ s) p || contains_text s p

-- strings.ReplaceAll for a text to find that is not empty: matches from the left, none overlapping;
-- `skip` counts the characters of a match that are still to be passed over
replace_from : String → String → ℕ → String → String
unfolding has_prefix
replace_from old new skip [] = []
replace_from old new (suc skip) (c ∷ s) = replace_from old new skip s
replace_from old new zero (c ∷ s) =
    let hit = new ++ replace_from old new (count old - 1) s in
    let miss = c ∷ replace_from old new zero s in if has_prefix (c ∷ s) old then hit else miss

unfoldable pub replace_all : String → String → String → String
unfolding replace_from
replace_all s old new = replace_from old new zero s

-- strings.HasSuffix
unfoldable pub has_suffix : String → String → Bool
has_suffix [] p = [] == p
has_suffix (c ∷ s) p = (c ∷ s) == p || has_suffix s p

-- strings.TrimSuffix
unfoldable pub trim_suffix : String → String → String
trim_suffix [] p = []
trim_suffix (c ∷ s) p = if (c ∷ s) == p then [] else c ∷ trim_suffix s p

-- the last element behind a slash
last_element : String → String → String
last_element acc [] = acc
last_element acc (c ∷ s) = last_element (if nat_eq (code c) b'/' then s else acc) s

trim_slashes : String → String
trim_slashes [] = []
trim_slashes (c ∷ s) =
    let r = trim_slashes s in if nat_eq (code c) b'/' && r == [] then [] else c ∷ r

base_of : String → String → String
base_of whole [] = if whole == [] then "." else "/"
base_of whole (c ∷ s) = last_element (c ∷ s) (c ∷ s)

-- filepath.Base: trailing slashes are dropped first
unfoldable pub base_name : String → String
unfolding trim_slashes base_of last_element
base_name path = base_of path (trim_slashes path)

ext_from : String → String → String
ext_from acc [] = acc
ext_from acc (c ∷ s) =
    ext_from (if nat_eq (code c) b'/' then [] else if nat_eq (code c) b'.' then c ∷ s else acc) s

-- filepath.Ext: from the last dot of the last element
unfoldable pub ext : String → String
unfolding ext_from
ext path = ext_from [] path

-- the text before the last slash, none if there is no slash
before_slash : String → Option String
before_slash [] = none
before_slash (c ∷ s) = elim (before_slash s) [
  | some r ↦ some (c ∷ r)
  | none ↦ if nat_eq (code c) b'/' then some [] else none
]

dir_of : Option String → String
unfolding trim_slashes
dir_of none = "."
dir_of (some d) = if trim_slashes d == [] then "/" else trim_slashes d

-- filepath.Dir for a path with no `.` or `..` element
unfoldable pub dir_name : String → String
unfolding before_slash dir_of trim_slashes
dir_name path = dir_of (before_slash path)

-- strings.Split by a separator of one character, and strings.Join
split_at : ℕ → String → String → List String
split_at sep acc [] = List.◌∷◌ acc List.[]
split_at sep acc (c ∷ s) =
    let cut = List.◌∷◌ acc (split_at sep [] s) in
    let more = split_at sep (acc ++ c ∷ []) s in if nat_eq (code c) sep then cut else more

unfoldable pub split_text : String → ℕ → List String
unfolding split_at
split_text s sep = split_at sep [] s

unfoldable pub join_texts : String → List String → String
join_texts sep List.[] = []
join_texts sep (List.◌∷◌ x List.[]) = x
join_texts sep (List.◌∷◌ x (List.◌∷◌ y r)) = x ++ (sep ++ join_texts sep (List.◌∷◌ y r))
