-- ===== src/Deps/Model.antt =====
-- Containers, differences and unit files by plain lists: an implementation of what `Deps` asks, on
-- which the examples run. A unit file is its text, which stands for its image.
use materia.Base.{
  ◌<◌, String, ◌≡◌, refl, ◌≢◌, ◌⊎◌, inl, inr, Bool, true, false, Option, none, some, List, [], ◌∷◌,
  arith, ◌==◌, eq_iff, eq_refl, if◌then◌else◌, length, Bool-cases,
}
use materia.Deps.Assoc.{
  assoc_get, assoc_put, assoc_remove, tree_put, keys_of, values_of, insert_by, has_by,
}
use materia.Deps.{LinkedHashMap, TreeMap, TreeSet, DiffMatchPatch, UnitParser, Deps}

abbrev list_linked_hash_map : LinkedHashMap
list_linked_hash_map = record {
  Map = λ V. List (String × V);
  new = [];
  get = assoc_get;
  put = assoc_put;
  remove = assoc_remove;
  values = values_of;
  size = length;
  entries = λ m. m;
  entries-new = refl;
  entries-put = λ k v m. refl;
  entries-remove = λ k m. refl;
  get-entries = λ k m. refl;
  values-entries = λ m. refl;
  size-entries = λ m. refl;
}

abbrev list_tree_map : TreeMap
list_tree_map = record {
  Map = λ V. List (String × V);
  new = [];
  get = assoc_get;
  put = tree_put;
  keys = keys_of;
  entries = λ m. m;
  entries-new = refl;
  entries-put = λ k v m. refl;
  get-entries = λ k m. refl;
  keys-entries = λ m. refl;
}

abbrev list_tree_set : TreeSet
list_tree_set = record {
  Set = λ A cmp. List A;
  new = [];
  add = λ {A} {cmp} x s. insert_by cmp x s;
  contains = λ {A} {cmp} x s. has_by cmp x s;
  values = λ s. s;
  values-new = refl;
  values-add = λ x s. refl;
  contains-values = λ x s. refl;
}

pub record TextDiff : Type 0 where
  pub equal : Bool
  pub text : String

abbrev pub text_diff : String → String → Option (List TextDiff)
text_diff a b =
    if a == b
    then (if a == "" then none else some (record { equal = true; text = b } ∷ []))
    else some (record { equal = false; text = b } ∷ [])

abbrev pub new_text : Option (List TextDiff) → String
new_text none = ""
new_text (some []) = ""
new_text (some (d ∷ ds)) = d.text

pub new_text-text_diff : (a b : String) → new_text (text_diff a b) ≡ b
new_text-text_diff a b = ground (arith, eq_iff a b, eq_iff a "")

pub text_diff-same :
    (a : String)
    → (text_diff a a ≡ none) ⊎ ((d : TextDiff) × (text_diff a a ≡ some (d ∷ [])) × (d.equal ≡ true))
text_diff-same a = elim (Bool-cases (a == "")) [
  | inl e ↦ inl (rw (eq_refl a, e))
  | inr e ↦ inr (record { equal = true; text = a }, rw (eq_refl a, e), refl)
]

pub text_diff-differs :
    (a b : String)
    → a ≢ b
    → (d : TextDiff) × (ds : List TextDiff) × (text_diff a b ≡ some (d ∷ ds))
      × ((d.equal ≡ false) ⊎ (0 < length ds))
text_diff-differs a b ne =
    (record { equal = false; text = b }, [], ground (arith, eq_iff a b), inl refl)

abbrev text_patch : DiffMatchPatch
text_patch = record {
  Diff = TextDiff;
  is_equal = λ d. d.equal;
  diff_main = text_diff;
  diff_text2 = new_text;
  text2-main = new_text-text_diff;
  main_same = text_diff-same;
  main_differs = text_diff-differs;
}

abbrev image_unit : UnitParser
image_unit = record {
  UnitFile = String;
  parse = λ s. some s;
  lookup = λ unitfile group key. if key == "Image" then some unitfile else none;
  has_group = λ unitfile group. group == "Container";
}

instance abbrev pub list_deps : Deps
list_deps = record {
  linked = list_linked_hash_map;
  tree = list_tree_map;
  set = list_tree_set;
  dmp = text_patch;
  unit = image_unit;
  Value = String;
}
