-- ===== src/Base/Path.antt =====
-- `filepath.Join` of two elements, for paths with slashes.
use Prim.Native.String.{String, ◌++◌}
use mathlib.Core.Bool.{Bool, true, false, not, ◌||◌}
use mathlib.Core.Option
use mathlib.Core.Option.{Option, none, some}
use mathlib.Core.List.{List, [], ◌∷◌}
use mathlib.Core.List.{reverse}
use text.Mathlib.Text.{◌==◌}
use materia.Base.Tests.{if◌then◌else◌}
use materia.Base.Text.{split_text, join_texts, has_prefix}

-- `..` behind the elements kept so far, the last first
unfoldable pub up_one : Bool → List String → List String
up_one rooted [] = if rooted then [] else ".." ∷ []
up_one rooted (p ∷ kept) = if p == ".." then ".." ∷ p ∷ kept else kept

unfoldable pub clean_parts : Bool → List String → List String → List String
clean_parts rooted kept [] = reverse kept
clean_parts rooted kept (p ∷ ps) =
    clean_parts rooted
      (if p == "" || p == "." then kept else if p == ".." then up_one rooted kept else p ∷ kept) ps

-- filepath.Clean
unfoldable pub clean_path : String → String
clean_path s =
    let kept = join_texts "/" (clean_parts (has_prefix s "/") [] (split_text s b'/')) in
    if has_prefix s "/" then "/" ++ kept else if kept == "" then "." else kept

-- filepath.Join(a, b): empty elements are ignored
unfoldable pub join_path : String → String → String
join_path a b =
    if a == ""
    then (if b == "" then "" else clean_path b)
    else if b == ""
    then clean_path a
    else clean_path (a ++ ("/" ++ b))

abbrev bool_eq : Bool → Bool → Bool
bool_eq true b = b
bool_eq false b = not b

-- filepath.Rel of two clean paths, both rooted or both not: what they share is dropped, and each
-- element that is left of the base is a `..`; none if such an element is a `..` itself
unfoldable pub go_up : List String → List String → List String
go_up [] target = target
go_up (b ∷ base) target = ".." ∷ go_up base target

unfoldable pub rel_parts : List String → List String → Option (List String)
rel_parts [] target = some target
rel_parts (b ∷ base) [] = if b == ".." then none else some (go_up (b ∷ base) [])
rel_parts (b ∷ base) (t ∷ target) =
    let rest = rel_parts base target in
    if b == t then rest else if b == ".." then none else some (go_up (b ∷ base) (t ∷ target))

-- the elements of a path, none for the empty path, `.` and `/`
unfoldable pub parts_of : String → List String
parts_of s = clean_parts (has_prefix s "/") [] (split_text s b'/')

-- the text of a list of elements
unfoldable pub text_of : List String → String
text_of [] = "."
text_of (p ∷ ps) = join_texts "/" (p ∷ ps)

unfoldable pub rel_path : String → String → Option String
rel_path base target =
    if bool_eq (has_prefix base "/") (has_prefix target "/")
    then Option.map text_of (rel_parts (parts_of base) (parts_of target))
    else none
