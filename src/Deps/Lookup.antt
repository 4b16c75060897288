-- ===== src/Deps/Lookup.antt =====
-- What a lookup finds after a change of an association list or of an ordered list of entries.
use materia.Base.{String, ◌≡◌, refl, some, List, [], ◌∷◌, arith, ◌==◌, eq_iff, if◌then◌else◌}
use materia.Deps.Assoc.{assoc_get, assoc_put, tree_put}

pub ==_comm : (s t : String) → (s == t) ≡ (t == s)
==_comm s t = ground (arith, eq_iff s t, eq_iff t s)

module _ {V : Type 0} where
  pub assoc_get-assoc_put :
      (j k : String) (v : V) (m : List (String × V))
      → assoc_get j (assoc_put k v m) ≡ (if k == j then some v else assoc_get j m)
  unfolding assoc_get assoc_put
  assoc_get-assoc_put j k v [] = refl
  assoc_get-assoc_put j k v ((i, w) ∷ m) =
      ground (arith, eq_iff k j, eq_iff i k, eq_iff i j, assoc_get-assoc_put j k v m)

  pub assoc_get-tree_put :
      (j k : String) (v : V) (m : List (String × V))
      → assoc_get j (tree_put k v m) ≡ (if k == j then some v else assoc_get j m)
  unfolding assoc_get tree_put
  assoc_get-tree_put j k v [] = refl
  assoc_get-tree_put j k v ((i, w) ∷ m) =
      ground (arith, eq_iff k j, eq_iff k i, eq_iff i j, assoc_get-tree_put j k v m)
