-- ===== src/Planner/Unchanged.antt =====
-- Components that have the same resources need no steps (planner.go): `DiffMain` finds nothing between
-- equal contents.
use materia.Base.{
  String, ◌≡◌, refl, true, Option, none, some, List, [], ◌∷◌, arith, eq_refl, if◌then◌else◌, All,
  All-map, inl, inr, sym,
}
use materia.Errors.{ok}
use materia.Deps.{Deps, assoc_get, values_of}
use materia.Components.Resource.{Resource}
use materia.Components.ResourceSet.{
  ResourceSet, is_there, get_resource, list_resources, difference_resources, intersection_resources,
}
use materia.Components.SetLaws.{IsKeyed, find, find-difference, find-intersection, contains_lem}
use materia.Components.SetKeys.{list_resources-found, intersection-IsKeyed}
use materia.Components.Component.{Component, validate_component}
use materia.Planner.Host.{HostState, PlannerConfig}
use materia.Planner.Resources.{
  install_all, remove_missing, has_changes, update_one, update_common,
  generate_updated_component_resources,
}
use materia.Planner.Updates.{get-found}

module _ ⦃D : Deps⦄ where
  no_entries : (m : List (String × Resource)) → ((j : String) → assoc_get j m ≡ none) → m ≡ []
  unfolding assoc_get
  no_entries [] h = refl
  no_entries ((i, x) ∷ m) h = absurd (let e = h i in ground (arith, eq_refl i))

  no_resources : (r : ResourceSet) → ((j : String) → find r j ≡ none) → list_resources r ≡ []
  unfolding list_resources values_of
  no_resources r h = rw (D.linked.values-entries, no_entries (D.linked.entries r) h) refl

  nothing_left :
      (r other : ResourceSet)
      → IsKeyed r
      → ((j : String) → find r j ≡ find other j)
      → list_resources (difference_resources r other) ≡ []
  unfolding is_there
  nothing_left r other k e = no_resources (difference_resources r other) λ j.
      rw (find-difference r other j k, contains_lem other j, ← e j)
        (elim (find r j) as (λ o. (if is_there o then none else o) ≡ none) [
          | none ↦ refl
          | some x ↦ refl
        ])

  nothing_changed :
      (mgr : HostState) (opts : PlannerConfig) (source : Component) (r : Resource) (text : String)
      → update_one mgr opts source r (D.dmp.diff_main text text) ≡ ok []
  unfolding update_one has_changes
  nothing_changed mgr opts source r text = elim (D.dmp.main_same text) [
    | inl e ↦ rw e refl
    | inr (d, e, equal) ↦ rw e (rw equal refl)
  ]

  -- what the resources of the host have, the source has too
  IsShared : Component → Component → Resource → Type 0
  IsShared host source r =
      (x : Resource) × (get_resource source.resources r.path ≡ ok x)
      × (get_resource host.resources r.path ≡ ok x)

  update_common-nothing :
      (mgr : HostState) (opts : PlannerConfig) (host source : Component) (xs : List Resource)
      → All (IsShared host source) xs
      → update_common mgr opts host source xs ≡ ok []
  unfolding update_common IsShared
  update_common-nothing mgr opts host source [] h = refl
  update_common-nothing mgr opts host source (r ∷ rs) ((x, s, t), h) =
      rw
        (
          s,
          t,
          nothing_changed mgr opts source r x.content,
          update_common-nothing mgr opts host source rs h,
        )
        refl

  IsShared-at :
      (host source : Component) (r : Resource) (o : Option Resource)
      → IsKeyed host.resources
      → find host.resources r.path ≡ o
      → find source.resources r.path ≡ o
      → is_there (find (intersection_resources host.resources source.resources) r.path) ≡ true
      → IsShared host source r
  unfolding IsShared is_there
  IsShared-at host source r none k eh es h = absurd (
      ground (
        arith,
        find-intersection host.resources source.resources r.path k,
        contains_lem source.resources r.path,
      ))
  IsShared-at host source r (some x) k eh es h = (
    x,
    get-found source.resources r.path r.path x refl es,
    get-found host.resources r.path r.path x refl eh,
  )

  -- Two valid components, each keyed by paths, with the same resources under the same names need
  -- no step: the plan for their resources is made without an error and is empty.
  pub updated_resources-nothing :
      (mgr : HostState) (opts : PlannerConfig) (host source : Component)
      → IsKeyed host.resources
      → IsKeyed source.resources
      → validate_component host ≡ ok tt
      → validate_component source ≡ ok tt
      → ((j : String) → find host.resources j ≡ find source.resources j)
      → generate_updated_component_resources mgr opts host source ≡ ok []
  unfolding generate_updated_component_resources remove_missing install_all
  updated_resources-nothing mgr opts host source kh ks vh vs same =
      let common = intersection_resources host.resources source.resources in
      rw
        (
          vh,
          vs,
          nothing_left host.resources source.resources kh same,
          nothing_left source.resources host.resources ks (λ j. sym (same j)),
        )
        (rw
          (update_common-nothing mgr opts host source (list_resources common) (
            All-map (λ x. is_there (find common x.path) ≡ true) (IsShared host source)
              (λ x h.
                IsShared-at host source x (find host.resources x.path) kh refl (sym (same x.path))
                  h)
              (list_resources common)
              (list_resources-found common (intersection-IsKeyed host.resources source.resources))))
          refl)
