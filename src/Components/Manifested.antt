-- ===== src/Components/Manifested.antt =====
-- Where putting a manifest on a component or on another manifest does not give what it lists.
use materia.Base.{String, ◌≡◌, refl, true, false, some, List, [], ◌∷◌, arith, contains}
use materia.Errors.{err, resource_in_set, OnOk, OnOk-ok}
use materia.Deps.{Deps}
use materia.Manifests.{ComponentManifest, merge_component_manifests, copy_over}
use materia.Components.Kind.{kind_eq, script}
use materia.Components.Resource.{Resource}
use materia.Components.ResourceSet.{ResourceSet, contains_resource, add_resource}
use materia.Components.Component.{mark_scripts}

module _ ⦃D : Deps⦄ where
  -- If a manifest lists as a script a resource that is of another kind and whose name the set has,
  -- making the listed resources scripts fails with the error that the resource is already in the
  -- set.
  pub mark_scripts-refused :
      (scripts : List String) (set : ResourceSet) (r : Resource) (rs : List Resource)
      → kind_eq r.kind script ≡ false
      → contains scripts r.path ≡ true
      → contains_resource set r.path ≡ true
      → mark_scripts scripts set (r ∷ rs) ≡ err resource_in_set
  unfolding mark_scripts add_resource
  mark_scripts-refused scripts set r rs k s c = rw (k, s, c) refl

  -- When two manifests are merged, the result has no services, no scripts and no snippets,
  -- whatever the two have.
  pub merge_component_manifests-drops :
      (original override : ComponentManifest)
      → OnOk
          (λ m. (m.services ≡ []) × (m.scripts ≡ []) × (m.snippets ≡ []))
          (merge_component_manifests (some original) (some override))
  unfolding merge_component_manifests copy_over
  merge_component_manifests-drops original override =
      OnOk-ok (ground arith, ground arith, ground arith)
