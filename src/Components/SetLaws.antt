-- ===== src/Components/SetLaws.antt =====
-- What the operations of `ResourceSet` (resourceset.go) find under a name. `find` is the abstract
-- view of a set: a partial function from names to resources.
use materia.Base.{
  String, ◌≡◌, refl, Bool, true, false, Option, none, some, List, [], ◌∷◌, arith, ◌==◌, eq_iff,
  if◌then◌else◌, All, Bool-cases, inl, inr, sym, ◌∙◌,
}
use materia.Deps.{Deps, assoc_get, values_of, assoc_get-assoc_put}
use materia.Components.Resource.{Resource}
use materia.Components.ResourceSet.{
  ResourceSet, is_there, contains_resource, add_resource, set_resource, list_resources,
  new_resource_set, or_unchanged, try_add, add_all, add_where, union_resources,
  intersection_resources, difference_resources,
}

abbrev pub or_else : Option Resource → Option Resource → Option Resource
or_else none o = o
or_else (some r) o = some r

-- the first resource of that path
abbrev pub first_at : String → List Resource → Option Resource
first_at j [] = none
first_at j (x ∷ xs) = if x.path == j then some x else first_at j xs

abbrev pub Keyed : List (String × Resource) → Type 0
Keyed m = All (λ e. e.0 ≡ e.1.path) m

module _ ⦃D : Deps⦄ where
  abbrev pub find : ResourceSet → String → Option Resource
  find r name = assoc_get name (D.linked.entries r)

  -- every resource stands under its own path
  abbrev pub IsKeyed : ResourceSet → Type 0
  IsKeyed r = Keyed (D.linked.entries r)

  pub contains_lem : (r : ResourceSet) (j : String) → contains_resource r j ≡ is_there (find r j)
  unfolding contains_resource
  contains_lem r j = rw D.linked.get-entries

  find-set :
      (r : ResourceSet) (x : Resource) (j : String)
      → find (set_resource r x) j ≡ (if x.path == j then some x else find r j)
  unfolding set_resource
  find-set r x j = rw (D.linked.entries-put, assoc_get-assoc_put)

  find-try_add :
      (r : ResourceSet) (x : Resource) (j : String)
      → find (try_add r x) j ≡ or_else (find r j) (if x.path == j then some x else none)
  unfolding try_add or_unchanged add_resource
  find-try_add r x j = elim (Bool-cases (contains_resource r x.path)) [
    | inl e ↦ rw e (present (find r x.path) refl (sym (contains_lem r x.path) ∙ e))
    | inr e ↦
        rw (e, D.linked.entries-put, assoc_get-assoc_put)
          (missing (find r x.path) refl (sym (contains_lem r x.path) ∙ e))
  ]
    where
      present :
          (o : Option Resource)
          → find r x.path ≡ o
          → is_there o ≡ true
          → find r j ≡ or_else (find r j) (if x.path == j then some x else none)
      present none e h = unfold is_there in cc
      present (some y) e h = ground (arith, eq_iff x.path j)

      missing :
          (o : Option Resource)
          → find r x.path ≡ o
          → is_there o ≡ false
          → (if x.path == j then some x else find r j)
            ≡ or_else (find r j) (if x.path == j then some x else none)
      missing none e h = ground (arith, eq_iff x.path j)
      missing (some y) e h = unfold is_there in cc

  find-add_where :
      (wanted : Bool) (other r : ResourceSet) (xs : List Resource) (j : String)
      → find (add_where wanted other r xs) j
        ≡ or_else (find r j) (
            if contains_resource other j
            then (if wanted then first_at j xs else none)
            else (if wanted then none else first_at j xs))
  unfolding add_where
  find-add_where wanted other r [] j = ground arith
  find-add_where wanted other r (x ∷ xs) j = ground (
    arith,
    eq_iff x.path j,
    find-add_where wanted other r xs j,
    find-add_where wanted other (try_add r x) xs j,
    find-try_add r x j,
  )

  pub first_at-values_of :
      (j : String) (m : List (String × Resource))
      → Keyed m
      → first_at j (values_of m) ≡ assoc_get j m
  unfolding values_of assoc_get
  first_at-values_of j [] k = refl
  first_at-values_of j ((i, x) ∷ m) k = ground (arith, first_at-values_of j m k.1)

  pub first_at-list :
      (r : ResourceSet) (j : String) → IsKeyed r → first_at j (list_resources r) ≡ find r j
  unfolding list_resources
  first_at-list r j k = rw D.linked.values-entries (first_at-values_of j (D.linked.entries r) k)

  find-new : (j : String) → find new_resource_set j ≡ none
  unfolding assoc_get
  find-new j = rw D.linked.entries-new

  -- The difference of two sets of resources, the first keyed by paths, has under each name what
  -- the first set has there, or nothing if the other set has the name.
  pub find-difference :
      (r other : ResourceSet) (j : String)
      → IsKeyed r
      → find (difference_resources r other) j
        ≡ (if contains_resource other j then none else find r j)
  unfolding difference_resources
  find-difference r other j k =
      find-add_where false other new_resource_set (list_resources r) j
      ∙ ground (arith, find-new j, first_at-list r j k)

  -- The intersection of two sets of resources, the first keyed by paths, has under each name what
  -- the first set has there if the other set has the name, and nothing otherwise.
  pub find-intersection :
      (r other : ResourceSet) (j : String)
      → IsKeyed r
      → find (intersection_resources r other) j
        ≡ (if contains_resource other j then find r j else none)
  unfolding intersection_resources
  find-intersection r other j k =
      find-add_where true other new_resource_set (list_resources r) j
      ∙ ground (arith, find-new j, first_at-list r j k)

  find-add_all :
      (r : ResourceSet) (xs : List Resource) (j : String)
      → find (add_all r xs) j ≡ or_else (find r j) (first_at j xs)
  unfolding add_all
  find-add_all r [] j = ground arith
  find-add_all r (x ∷ xs) j = ground (arith, find-add_all (try_add r x) xs j, find-try_add r x j)

  -- The union of two sets of resources, both keyed by paths, has under each name what the first
  -- set has there, or else what the second has.
  pub find-union :
      (r other : ResourceSet) (j : String)
      → IsKeyed r
      → IsKeyed other
      → find (union_resources r other) j ≡ or_else (find r j) (find other j)
  unfolding union_resources
  find-union r other j k l =
      find-add_all (add_all new_resource_set (list_resources r)) (list_resources other) j
      ∙ ground (
        arith,
        find-add_all new_resource_set (list_resources r) j,
        find-new j,
        first_at-list r j k,
        first_at-list other j l,
      )
