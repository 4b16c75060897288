-- ===== src/Deps/Assoc.antt =====
-- Association lists and ordered lists: the views in which the containers' behaviour is stated.
use Prim.Native.String.{compare}
use materia.Base.{
  String, Bool, true, false, ◌||◌, Option, none, some, List, [], ◌∷◌, Ordering, ◌==◌, if◌then◌else◌,
}

module _ {V : Type 0} where
  unfoldable pub assoc_get : String → List (String × V) → Option V
  assoc_get k [] = none
  assoc_get k ((j, v) ∷ m) = if j == k then some v else assoc_get k m

  -- in its place if the key is there, at the end if not
  unfoldable pub assoc_put : String → V → List (String × V) → List (String × V)
  assoc_put k v [] = (k, v) ∷ []
  assoc_put k v ((j, w) ∷ m) = if j == k then (j, v) ∷ m else (j, w) ∷ assoc_put k v m

  unfoldable pub assoc_remove : String → List (String × V) → List (String × V)
  assoc_remove k [] = []
  assoc_remove k ((j, w) ∷ m) = if j == k then m else (j, w) ∷ assoc_remove k m

  unfoldable pub tree_put : String → V → List (String × V) → List (String × V)
  tree_put k v [] = (k, v) ∷ []
  tree_put k v ((j, w) ∷ m) = elim (compare k j) [
    | Ordering.lt ↦ (k, v) ∷ (j, w) ∷ m
    | Ordering.eq ↦ (k, v) ∷ m
    | Ordering.gt ↦ (j, w) ∷ tree_put k v m
  ]

  unfoldable pub keys_of : List (String × V) → List String
  keys_of [] = []
  keys_of ((j, w) ∷ m) = j ∷ keys_of m

  unfoldable pub values_of : List (String × V) → List V
  values_of [] = []
  values_of ((j, w) ∷ m) = w ∷ values_of m

module _ {A : Type 0} (cmp : A → A → Ordering) where
  unfoldable pub insert_by : A → List A → List A
  insert_by x [] = x ∷ []
  insert_by x (y ∷ ys) = elim (cmp x y) [
    | Ordering.lt ↦ x ∷ y ∷ ys
    | Ordering.eq ↦ x ∷ ys
    | Ordering.gt ↦ y ∷ insert_by x ys
  ]

  abbrev is_eq : Ordering → Bool
  is_eq Ordering.eq = true
  is_eq _ = false

  unfoldable pub has_by : A → List A → Bool
  has_by x [] = false
  has_by x (y ∷ ys) = is_eq (cmp x y) || has_by x ys
