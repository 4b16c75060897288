-- ===== src/Components/SetKeys.antt =====
-- Every operation of `ResourceSet` (resourceset.go) keeps each resource under its own path.
use materia.Base.{
  ◌∙◌, sym, some, subst, String, ◌≡◌, refl, Bool, true, false, List, [], ◌∷◌, arith, ◌==◌, eq_iff,
  if◌then◌else◌, All, All-map, Bool-cases, inl, inr,
}
use materia.Deps.{Deps, assoc_get, assoc_put, assoc_remove, values_of}
use materia.Components.Resource.{Resource}
use materia.Components.ResourceSet.{
  ResourceSet, is_there, contains_resource, add_resource, delete_resource, set_resource,
  list_resources, new_resource_set, or_unchanged, try_add, add_where, intersection_resources,
  difference_resources,
}
use materia.Components.SetLaws.{IsKeyed, Keyed, find}

some_injective : {A : Type 0} {x y : A} → some x ≡ some y → x ≡ y
some_injective h = cc

module _ ⦃D : Deps⦄ where
  Keyed-assoc_put :
      (x : Resource) (m : List (String × Resource)) → Keyed m → Keyed (assoc_put x.path x m)
  unfolding assoc_put
  Keyed-assoc_put x [] k = (refl, tt)
  Keyed-assoc_put x ((i, y) ∷ m) k = elim (Bool-cases (i == x.path)) [
    | inl e ↦ rw e ((eq_iff i x.path).0 e, k.1)
    | inr e ↦ rw e (k.0, Keyed-assoc_put x m k.1)
  ]

  Keyed-assoc_remove :
      (j : String) (m : List (String × Resource)) → Keyed m → Keyed (assoc_remove j m)
  unfolding assoc_remove
  Keyed-assoc_remove j [] k = tt
  Keyed-assoc_remove j ((i, y) ∷ m) k = elim (Bool-cases (i == j)) [
    | inl e ↦ rw e k.1
    | inr e ↦ rw e (k.0, Keyed-assoc_remove j m k.1)
  ]

  pub new-IsKeyed : IsKeyed new_resource_set
  new-IsKeyed = rw D.linked.entries-new tt

  pub set-IsKeyed : (r : ResourceSet) (x : Resource) → IsKeyed r → IsKeyed (set_resource r x)
  unfolding set_resource
  set-IsKeyed r x k = rw D.linked.entries-put (Keyed-assoc_put x (D.linked.entries r) k)

  pub delete-IsKeyed : (r : ResourceSet) (j : String) → IsKeyed r → IsKeyed (delete_resource r j)
  unfolding delete_resource
  delete-IsKeyed r j k = rw D.linked.entries-remove (Keyed-assoc_remove j (D.linked.entries r) k)

  pub try_add-IsKeyed : (r : ResourceSet) (x : Resource) → IsKeyed r → IsKeyed (try_add r x)
  unfolding try_add or_unchanged add_resource
  try_add-IsKeyed r x k = elim (Bool-cases (contains_resource r x.path)) [
    | inl e ↦ rw e k
    | inr e ↦ rw e (unfold set_resource in set-IsKeyed r x k)
  ]

  add_where-IsKeyed :
      (wanted : Bool) (other r : ResourceSet) (xs : List Resource)
      → IsKeyed r
      → IsKeyed (add_where wanted other r xs)
  unfolding add_where
  add_where-IsKeyed wanted other r [] k = k
  add_where-IsKeyed wanted other r (x ∷ xs) k =
      add_where-IsKeyed wanted other
        (if contains_resource other x.path
          then (if wanted then try_add r x else r)
          else (if wanted then r else try_add r x))
        xs (chosen (contains_resource other x.path) wanted)
    where
      chosen :
          (b w : Bool)
          → IsKeyed (if b then (if w then try_add r x else r) else (if w then r else try_add r x))
      chosen true true = try_add-IsKeyed r x k
      chosen true false = k
      chosen false true = k
      chosen false false = try_add-IsKeyed r x k

  pub difference-IsKeyed : (r other : ResourceSet) → IsKeyed (difference_resources r other)
  unfolding difference_resources
  difference-IsKeyed r other =
      add_where-IsKeyed false other new_resource_set (list_resources r) new-IsKeyed

  pub intersection-IsKeyed : (r other : ResourceSet) → IsKeyed (intersection_resources r other)
  unfolding intersection_resources
  intersection-IsKeyed r other =
      add_where-IsKeyed true other new_resource_set (list_resources r) new-IsKeyed

  found_in :
      (m : List (String × Resource))
      → Keyed m
      → All (λ x. is_there (assoc_get x.path m) ≡ true) (values_of m)
  unfolding values_of assoc_get is_there
  found_in [] k = tt
  found_in ((i, x) ∷ m) k = (
    ground (arith, eq_iff i x.path, k.0),
    All-map (λ y. is_there (assoc_get y.path m) ≡ true) _ (λ y h. ground (arith, h)) (values_of m)
        (found_in m k.1),
  )

  -- a resource that a set lists is found
  pub list_resources-found :
      (r : ResourceSet) → IsKeyed r → All (λ x. is_there (find r x.path) ≡ true) (list_resources r)
  unfolding list_resources
  list_resources-found r k = rw D.linked.values-entries (found_in (D.linked.entries r) k)

  found_path :
      (m : List (String × Resource)) (j : String) (x : Resource)
      → Keyed m
      → assoc_get j m ≡ some x
      → x.path ≡ j
  unfolding assoc_get
  found_path [] j x k h = absurd (ground arith)
  found_path ((i, y) ∷ m) j x k h = elim (Bool-cases (i == j)) [
    | inl e ↦
        subst (λ (z : Resource). z.path ≡ j) (some_injective (rw e at h))
          (sym k.0 ∙ (eq_iff i j).0 e)
    | inr e ↦ found_path m j x k.1 (rw e at h)
  ]

  -- a resource is found under its own path
  pub find-path :
      (r : ResourceSet) (j : String) (x : Resource) → IsKeyed r → find r j ≡ some x → x.path ≡ j
  find-path r j x k h = found_path (D.linked.entries r) j x k h
