-- ===== src/Planner/Lifecycle.antt =====
-- The resources of a component that comes and of one that goes (planner.go).
use materia.Base.{
  Bool, All, All-map, Bool-cases, inl, inr, subst, false, ◌&&◌, ◌==◌, String, ◌≡◌, refl, true, not,
  some, List, [], ◌∷◌, ◌++◌, Exists, append_assoc, sym, reverse,
}
use mathlib.Core.List.{reverse-cons}
use materia.Errors.{ok, fail_if, not_to_be_removed, OnOk, OnOk-ok, OnOk-bind, OnOk-step}
use materia.Deps.{Deps}
use materia.Manifests.{component_manifest_file}
use materia.Components.Kind.{component}
use materia.Components.Resource.{Resource, is_file}
use materia.Components.ResourceSet.{get_resource, list_resources}
use materia.Components.SetLaws.{IsKeyed, find, first_at-list}
use materia.Components.Component.{
  Component, validate_component, is_fresh, is_need_removal, to_resource,
}
use materia.Actions.{Action, make_action, install, remove}
use materia.Planner.Host.{HostState, PlannerConfig}
use materia.Planner.Resources.{
  install_all, generate_fresh_component_resources, remove_files, remove_dirs, remove_file_action,
  own_removal, cleanup_if, generate_removed_component_resources,
}
use materia.Planner.Updates.{Installs, install_all-Exists, Exists-append_left, Exists-append_right}

All-append {ℓ κ} :
    {A : Type ℓ} (P : A → Type κ) (xs ys : List A) → All P (xs ++ ys) → All P xs × All P ys
All-append P [] ys h = (tt, h)
All-append P (x ∷ xs) ys h = let (front, back) = All-append P xs ys h.1 in ((h.0, front), back)

All-of_reverse {ℓ κ} : {A : Type ℓ} (P : A → Type κ) (xs : List A) → All P (reverse xs) → All P xs
All-of_reverse P [] h = tt
All-of_reverse P (x ∷ xs) h =
    let (front, back) = All-append P (reverse xs) (x ∷ []) (subst (All P) (reverse-cons x xs) h) in
    (back.0, All-of_reverse P xs front)

All-both {ℓ κ μ ν} :
    {A : Type ℓ} (P : A → Type κ) (Q : A → Type μ) (R : A → Type ν)
    → ((x : A) → P x → Q x → R x)
    → (xs : List A) → All P xs
    → All Q xs
    → All R xs
All-both P Q R f [] p q = tt
All-both P Q R f (x ∷ xs) p q = (f x p.0 q.0, All-both P Q R f xs p.1 q.1)

module _ ⦃D : Deps⦄ where
  -- For a valid component in the fresh state, keyed by paths, the steps are made without an error:
  -- the first installs the component, and the others install each of its resources with a
  -- difference that leads to its content, or to nothing for a secret.
  pub fresh_resources_complete :
      (comp : Component)
      → IsKeyed comp.resources
      → validate_component comp ≡ ok tt
      → is_fresh comp.state ≡ true
      → (rest : List Action) × (generate_fresh_component_resources comp
          ≡ ok (make_action install comp (to_resource comp) ∷ rest))
        × ((j : String) (s : Resource)
            → find comp.resources j ≡ some s
            → Exists (Installs comp s) rest)
  unfolding generate_fresh_component_resources
  fresh_resources_complete comp k v f = (
    install_all comp (list_resources comp.resources),
    rw (v, f) refl,
    λ j s e.
        install_all-Exists comp j (list_resources comp.resources) s
          (rw (first_at-list comp.resources j k) e),
  )

  -- a step that removes a resource of the component
  pub record RemovesFrom (comp : Component) (v : Resource) (a : Action) : Type 0 where
    pub todo : a.todo ≡ remove
    pub target : a.target ≡ v
    pub parent : a.parent ≡ some comp

  remove_file_action-RemovesFrom :
      (comp : Component) (r : Resource) → RemovesFrom comp r (remove_file_action comp r)
  unfolding remove_file_action
  remove_file_action-RemovesFrom comp r = record { todo = refl; target = refl; parent = refl }

  remove_file_action-text :
      (comp : Component) (r : Resource)
      → D.dmp.diff_text2 (remove_file_action comp r).diff_content ≡ ""
  unfolding remove_file_action
  remove_file_action-text comp r = D.dmp.text2-main r.content ""

  abbrev is_manifest : Resource → Bool
  is_manifest r = r.path == component_manifest_file

  own_removal-Exists :
      (comp : Component) (r : Resource)
      → is_manifest r ≡ false
      → is_file r ≡ true
      → Exists (RemovesFrom comp r) (own_removal comp r)
  unfolding own_removal
  own_removal-Exists comp r m f = rw (m, f) (inl (remove_file_action-RemovesFrom comp r))

  -- each file but the manifest is removed
  remove_files-All :
      (mgr : HostState) (opts : PlannerConfig) (comp : Component) (rs : List Resource)
      → OnOk
          (λ l.
            All (λ r. is_manifest r ≡ false → is_file r ≡ true → Exists (RemovesFrom comp r) l) rs)
          (remove_files mgr opts comp rs)
  unfolding remove_files
  remove_files-All mgr opts comp [] = OnOk-ok tt
  remove_files-All mgr opts comp (r ∷ rs) = OnOk-bind (cleanup_if mgr opts comp r) _ λ cleanups _.
      OnOk-step (remove_files mgr opts comp rs) _ (remove_files-All mgr opts comp rs) λ rest q.
        OnOk-ok (
          λ m f. Exists-append_left (RemovesFrom comp r) _ _ (own_removal-Exists comp r m f),
          All-map _ _
              (λ x h m f.
                Exists-append_right (RemovesFrom comp x) (own_removal comp r) _
                  (Exists-append_right (RemovesFrom comp x) cleanups rest (h m f)))
              rs q,
        )

  -- each directory is removed
  remove_dirs-All :
      (comp : Component) (rs : List Resource)
      → All
          (λ r.
            is_manifest r ≡ false
            → is_file r ≡ false
            → Exists (RemovesFrom comp r) (remove_dirs comp rs))
          rs
  unfolding remove_dirs
  remove_dirs-All comp [] = tt
  remove_dirs-All comp (r ∷ rs) = (
    λ m f. rw (m, f) (inl (record { todo = refl; target = refl; parent = refl })),
    All-map _ _ (λ x h m f. later x (h m f)) rs (remove_dirs-All comp rs),
  )
    where
      later :
          (x : Resource)
          → Exists (RemovesFrom comp x) (remove_dirs comp rs)
          → Exists (RemovesFrom comp x) (remove_dirs comp (r ∷ rs))
      later x h = elim (Bool-cases (not (is_manifest r) && not (is_file r))) [
        | inl e ↦ rw e (inr h)
        | inr e ↦ rw e h
      ]

  -- all resources are removed, and then the manifest and the component itself
  pub record RemovesWhole (comp : Component) (l : List Action) : Type 0 where
    pub before : List Action
    pub manifest : Resource
    pub last_file : Action
    pub last : Action
    pub shape : l ≡ before ++ (last_file ∷ last ∷ [])
    pub found : get_resource comp.resources component_manifest_file ≡ ok manifest
    pub manifest_goes : RemovesFrom comp manifest last_file
    pub emptied : D.dmp.diff_text2 last_file.diff_content ≡ ""
    pub component_todo : last.todo ≡ remove
    pub component_kind : last.target.kind ≡ component
    pub component_name : last.target.path ≡ comp.name
    pub component_parent : last.parent ≡ some comp
    pub others :
        All
          (λ r. (r.path == component_manifest_file) ≡ false → Exists (RemovesFrom comp r) before)
          (list_resources comp.resources)

  removed_before :
      (comp : Component) (rs : List Resource) (files : List Action)
      → All
          (λ r. is_manifest r ≡ false → is_file r ≡ true → Exists (RemovesFrom comp r) files)
          (reverse rs)
      → All
          (λ r.
            is_manifest r ≡ false
            → Exists (RemovesFrom comp r) (files ++ remove_dirs comp (reverse rs)))
          rs
  removed_before comp rs files q = All-of_reverse _ rs (
      All-both _ _ _
        (λ r in_files in_dirs m. elim (Bool-cases (is_file r)) [
          | inl f ↦ Exists-append_left (RemovesFrom comp r) files _ (in_files m f)
          | inr f ↦ Exists-append_right (RemovesFrom comp r) files _ (in_dirs m f)
        ])
        (reverse rs) q (remove_dirs-All comp (reverse rs)))

  -- When the steps for the resources of a removed component are made without an error, the
  -- component has its manifest; each of its other resources, file or directory, is removed by one
  -- of the first steps, and the last two steps remove the manifest, with a difference that leads
  -- to nothing, and then the component itself.
  pub removed_resources-last :
      (mgr : HostState) (opts : PlannerConfig) (comp : Component)
      → OnOk (RemovesWhole comp) (generate_removed_component_resources mgr opts comp)
  unfolding generate_removed_component_resources to_resource
  removed_resources-last mgr opts comp = OnOk-bind (validate_component comp) _ λ _ _.
      OnOk-bind (fail_if (not (is_need_removal comp.state)) not_to_be_removed) _ λ _ _.
        OnOk-bind (get_resource comp.resources component_manifest_file) _ λ manifest e.
          OnOk-step (remove_files mgr opts comp (reverse (list_resources comp.resources))) _
            (remove_files-All mgr opts comp (reverse (list_resources comp.resources)))
            λ files q. OnOk-ok (record {
              before = files ++ remove_dirs comp (reverse (list_resources comp.resources));
              manifest = manifest;
              last_file = remove_file_action comp manifest;
              last = make_action remove comp (to_resource comp);
              shape = sym (append_assoc files _ _);
              found = e;
              manifest_goes = remove_file_action-RemovesFrom comp manifest;
              emptied = remove_file_action-text comp manifest;
              component_todo = refl;
              component_kind = refl;
              component_name = refl;
              component_parent = refl;
              others = removed_before comp (list_resources comp.resources) files q;
            })
