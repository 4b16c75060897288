-- ===== src/Components/ResourceSet.antt =====
-- resourceset.go: resources by their paths, in the order in which they were added.
use materia.Base.{ℕ, String, Bool, true, false, Option, none, some, List, [], ◌∷◌, if◌then◌else◌}
use materia.Errors.{Result, ok, err, resource_in_set, resource_not_found}
use materia.Deps.{Deps}
use materia.Components.Resource.{Resource}

unfoldable pub is_there : Option Resource → Bool
is_there none = false
is_there (some _) = true

unfoldable pub or_not_found : Option Resource → Result Resource
or_not_found none = err resource_not_found
or_not_found (some res) = ok res

module _ ⦃D : Deps⦄ where
  abbrev pub ResourceSet : Type 0
  ResourceSet = D.linked.Map Resource

  abbrev pub new_resource_set : ResourceSet
  new_resource_set = D.linked.new

  unfoldable pub contains_resource : ResourceSet → String → Bool
  unfolding is_there
  contains_resource r name = is_there (D.linked.get name r)

  unfoldable pub add_resource : ResourceSet → Resource → Result ResourceSet
  add_resource r res =
      if contains_resource r res.path then err resource_in_set else ok (D.linked.put res.path res r)

  unfoldable pub delete_resource : ResourceSet → String → ResourceSet
  delete_resource r name = D.linked.remove name r

  unfoldable pub size_of : ResourceSet → ℕ
  size_of r = D.linked.size r

  unfoldable pub list_resources : ResourceSet → List Resource
  list_resources r = D.linked.values r

  unfoldable pub get_resource : ResourceSet → String → Result Resource
  unfolding or_not_found
  get_resource r name = or_not_found (D.linked.get name r)

  unfoldable pub set_resource : ResourceSet → Resource → ResourceSet
  set_resource r res = D.linked.put res.path res r

  -- `_ = resultSet.Add(element)`: an error leaves the set as it was
  unfoldable pub or_unchanged : ResourceSet → Result ResourceSet → ResourceSet
  or_unchanged r (ok r') = r'
  or_unchanged r (err e) = r

  unfoldable pub try_add : ResourceSet → Resource → ResourceSet
  try_add r res = or_unchanged r (add_resource r res)

  unfoldable pub add_all : ResourceSet → List Resource → ResourceSet
  add_all r [] = r
  add_all r (x ∷ xs) = add_all (try_add r x) xs

  -- the loop of `Intersection`, with `wanted` true, and of `Difference`, with `wanted` false
  unfoldable pub add_where : Bool → ResourceSet → ResourceSet → List Resource → ResourceSet
  add_where wanted other r [] = r
  add_where wanted other r (x ∷ xs) =
      add_where wanted other
        (if contains_resource other x.path
          then (if wanted then try_add r x else r)
          else (if wanted then r else try_add r x))
        xs

  unfoldable pub union_resources : ResourceSet → ResourceSet → ResourceSet
  union_resources r other =
      add_all (add_all new_resource_set (list_resources r)) (list_resources other)

  unfoldable pub intersection_resources : ResourceSet → ResourceSet → ResourceSet
  intersection_resources r other = add_where true other new_resource_set (list_resources r)

  unfoldable pub difference_resources : ResourceSet → ResourceSet → ResourceSet
  difference_resources r other = add_where false other new_resource_set (list_resources r)
