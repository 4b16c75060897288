-- ===== src/Planner/Updates.antt =====
-- The actions on resources (planner.go) cover what differs between the host and the source. The tests of `Plan` that make an action from a difference are those of the third
-- party's `DiffMain`, as `Deps` states it.
use materia.Base.{
  ◌<◌, String, ◌≡◌, ◌≢◌, refl, true, false, ◌||◌, not, none, some, List, [], ◌∷◌, ◌++◌, arith, ◌==◌,
  eq_iff, ◌⊎◌, Exists, Bool-cases, inl, inr, sym, ◌∙◌, subst, is_empty, length,
}
use materia.Errors.{ok, OnOk, OnOk-ok, OnOk-bind, OnOk-if, OnOk-step}
use materia.Deps.{Deps}
use materia.Components.Resource.{Resource}
use materia.Components.ResourceSet.{
  ResourceSet, is_there, or_not_found, get_resource, list_resources, difference_resources,
  intersection_resources,
}
use materia.Components.SetLaws.{
  IsKeyed, find, first_at, find-difference, find-intersection, first_at-list, contains_lem,
}
use materia.Components.SetKeys.{find-path, difference-IsKeyed, intersection-IsKeyed}
use materia.Components.Component.{Component, validate_component}
use materia.Actions.{Action, install, remove, update}
use materia.Planner.Host.{HostState, PlannerConfig}
use materia.Planner.Resources.{
  shown_content, install_action, install_all, remove_missing, is_user_dropin, cleanup_if,
  has_changes, update_one, update_common, migrate_if, generate_updated_component_resources,
}

pub Exists-append_left {ℓ} :
    {A : Type ℓ} (P : A → Type 0) (xs ys : List A) → Exists P xs → Exists P (xs ++ ys)
Exists-append_left P [] ys h = elim h [ ]
Exists-append_left P (x ∷ xs) ys (inl p) = inl p
Exists-append_left P (x ∷ xs) ys (inr q) = inr (Exists-append_left P xs ys q)

pub Exists-append_right {ℓ} :
    {A : Type ℓ} (P : A → Type 0) (xs ys : List A) → Exists P ys → Exists P (xs ++ ys)
Exists-append_right P [] ys q = q
Exists-append_right P (x ∷ xs) ys q = inr (Exists-append_right P xs ys q)

some_injective : {x y : Resource} → some x ≡ some y → x ≡ y
some_injective h = cc

module _ ⦃D : Deps⦄ where
  -- what an installation of a resource is
  pub record Installs (comp : Component) (s : Resource) (a : Action) : Type 0 where
    pub todo : a.todo ≡ install
    pub target : a.target ≡ s
    pub text : D.dmp.diff_text2 a.diff_content ≡ shown_content s

  pub install_action-Installs :
      (comp : Component) (r : Resource) → Installs comp r (install_action comp r)
  unfolding install_action
  install_action-Installs comp r = record {
    todo = refl;
    target = refl;
    text = D.dmp.text2-main "" (shown_content r);
  }

  pub install_all-Exists :
      (comp : Component) (j : String) (xs : List Resource) (s : Resource)
      → first_at j xs ≡ some s
      → Exists (Installs comp s) (install_all comp xs)
  unfolding install_all
  install_all-Exists comp j [] s h = cc
  install_all-Exists comp j (x ∷ xs) s h = elim (Bool-cases (x.path == j)) [
    | inl e ↦ inl (
        subst (λ y. Installs comp y (install_action comp x)) (some_injective (rw e at h))
          (install_action-Installs comp x))
    | inr e ↦ inr (install_all-Exists comp j xs s (rw e at h))
  ]

  -- what a removal of a resource is
  pub record Removes (comp : Component) (v : Resource) (a : Action) : Type 0 where
    pub todo : a.todo ≡ remove
    pub target : a.target ≡ v

  remove_missing-Exists :
      (mgr : HostState) (opts : PlannerConfig) (comp : Component) (j : String) (xs : List Resource)
      (v : Resource)
      → first_at j xs ≡ some v
      → is_user_dropin v ≡ false
      → OnOk (Exists (Removes comp v)) (remove_missing mgr opts comp xs)
  unfolding remove_missing
  remove_missing-Exists mgr opts comp j [] v h u = cc
  remove_missing-Exists mgr opts comp j (x ∷ xs) v h u = elim (Bool-cases (x.path == j)) [
    | inl e ↦
        let same = some_injective (rw e at h) in
        rw (subst (λ y. is_user_dropin y ≡ false) (sym same) u) (
          OnOk-bind (cleanup_if mgr opts comp x) _ λ cleanups _.
            OnOk-bind (remove_missing mgr opts comp xs) _
              λ rest _. OnOk-ok (inl (record { todo = refl; target = same })))
    | inr e ↦
        let later = remove_missing-Exists mgr opts comp j xs v (rw e at h) u in
        OnOk-if (is_user_dropin x) _ _ (λ _. later)
          (λ _. OnOk-bind (cleanup_if mgr opts comp x) _ λ cleanups _.
            OnOk-step (remove_missing mgr opts comp xs) _ later
              λ rest q. OnOk-ok (inr (Exists-append_right (Removes comp v) cleanups rest q)))
  ]

  -- what an update of a resource is: its difference leads to the content of the source
  pub record Updates (source : Component) (s : Resource) (a : Action) : Type 0 where
    pub todo : a.todo ≡ update
    pub path : a.target.path ≡ s.path
    pub text : D.dmp.diff_text2 a.diff_content ≡ s.content

  update_one-Exists :
      (mgr : HostState) (opts : PlannerConfig) (source : Component) (r h s : Resource)
      → r.path ≡ s.path
      → h.content ≢ s.content
      → OnOk
          (Exists (Updates source s))
          (update_one mgr opts source r (D.dmp.diff_main h.content s.content))
  unfolding update_one has_changes
  update_one-Exists mgr opts source r h s p c =
      let (d, ds, e, more) = D.dmp.main_differs h.content s.content c in
      rw e (
        rw (changed d ds more) (
          OnOk-bind (migrate_if mgr opts source r) _ λ migration _. OnOk-ok (
            inl (record {
              todo = refl;
              path = p;
              text =
                  subst (λ o. D.dmp.diff_text2 o ≡ s.content) e
                    (D.dmp.text2-main h.content s.content);
            }))))
    where
      changed :
          (d : D.dmp.Diff) (ds : List D.dmp.Diff)
          → (D.dmp.is_equal d ≡ false) ⊎ (0 < length ds)
          → (not (is_empty ds) || not (D.dmp.is_equal d)) ≡ true
      changed d [] (inl e) = ground arith
      changed d [] (inr e) = absurd (omega arith)
      changed d (x ∷ ds) m = refl

  pub get-found :
      (r : ResourceSet) (i j : String) (x : Resource)
      → i ≡ j
      → find r j ≡ some x
      → get_resource r i ≡ ok x
  unfolding get_resource or_not_found
  get-found r i j x p e = rw (D.linked.get-entries, p, e) refl

  update_common-Exists :
      (mgr : HostState) (opts : PlannerConfig) (host source : Component) (j : String)
      (xs : List Resource) (r h s : Resource)
      → first_at j xs ≡ some r
      → find host.resources j ≡ some h
      → find source.resources j ≡ some s
      → s.path ≡ j
      → h.content ≢ s.content
      → OnOk (Exists (Updates source s)) (update_common mgr opts host source xs)
  unfolding update_common
  update_common-Exists mgr opts host source j [] r h s f fh fs sp c = cc
  update_common-Exists mgr opts host source j (x ∷ xs) r h s f fh fs sp c =
      elim (Bool-cases (x.path == j)) [
        | inl e ↦
            let p = (eq_iff x.path j).0 e in
            rw
              (get-found source.resources x.path j s p fs, get-found host.resources x.path j h p fh)
              (OnOk-step (update_one mgr opts source x _) _
                (update_one-Exists mgr opts source x h s (p ∙ sym sp) c)
                λ updates q.
                  OnOk-bind (update_common mgr opts host source xs) _
                    λ rest _. OnOk-ok (Exists-append_left (Updates source s) updates rest q))
        | inr e ↦ OnOk-bind (get_resource source.resources x.path) _ λ source_res _.
            OnOk-bind (get_resource host.resources x.path) _ λ host_res _.
              OnOk-bind (update_one mgr opts source x _) _ λ updates _.
                OnOk-step (update_common mgr opts host source xs) _
                  (update_common-Exists mgr opts host source j xs r h s (rw e at f) fh fs sp c)
                  λ rest q. OnOk-ok (Exists-append_right (Updates source s) updates rest q)
      ]

  module _ (mgr : HostState) (opts : PlannerConfig) (host source : Component)
      (host_keyed : IsKeyed host.resources) (source_keyed : IsKeyed source.resources) where
    -- If only the source has a resource under a name, the sets being keyed by paths, then the
    -- steps for the changed component, when they are made without an error, have an installation
    -- of it whose difference leads to its content, or to nothing for a secret.
    pub updated_resources-Installs :
        (j : String) (s : Resource)
        → find source.resources j ≡ some s
        → find host.resources j ≡ none
        → OnOk
            (Exists (Installs source s))
            (generate_updated_component_resources mgr opts host source)
    unfolding generate_updated_component_resources is_there
    updated_resources-Installs j s fs fh =
        let added = difference_resources source.resources host.resources in
        OnOk-bind (validate_component host) _ λ _ _. OnOk-bind (validate_component source) _ λ _ _.
          OnOk-bind (remove_missing mgr opts host _) _ λ removals _.
            OnOk-bind (update_common mgr opts host source _) _ λ updates _. OnOk-ok (
              Exists-append_right (Installs source s) removals _ (
                Exists-append_left (Installs source s) _ updates (
                  install_all-Exists source j (list_resources added) s (
                    first_at-list added j (difference-IsKeyed source.resources host.resources)
                    ∙ ground (
                      arith,
                      find-difference source.resources host.resources j source_keyed,
                      contains_lem host.resources j,
                    )))))

    -- If only the host has a resource under a name, the sets being keyed by paths, and it is
    -- neither a drop-in nor a directory of them, then the steps for the changed component, when
    -- they are made without an error, have a removal of it.
    pub updated_resources-Removes :
        (j : String) (v : Resource)
        → find host.resources j ≡ some v
        → find source.resources j ≡ none
        → is_user_dropin v ≡ false
        → OnOk (Exists (Removes host v)) (generate_updated_component_resources mgr opts host source)
    unfolding generate_updated_component_resources is_there
    updated_resources-Removes j v fh fs u =
        let gone = difference_resources host.resources source.resources in
        OnOk-bind (validate_component host) _ λ _ _. OnOk-bind (validate_component source) _ λ _ _.
          OnOk-step (remove_missing mgr opts host _) _
            (remove_missing-Exists mgr opts host j (list_resources gone) v
              (first_at-list gone j (difference-IsKeyed host.resources source.resources)
                ∙ ground (
                  arith,
                  find-difference host.resources source.resources j host_keyed,
                  contains_lem source.resources j,
                ))
              u)
            λ removals q.
              OnOk-bind (update_common mgr opts host source _) _
                λ updates _. OnOk-ok (Exists-append_left (Removes host v) removals _ q)

    -- If the host and the source, each keyed by paths, both have a resource under a name and its
    -- content differs, then the steps for the changed component, when they are made without an
    -- error, have an update at that path whose difference leads to the content of the source.
    pub updated_resources-Updates :
        (j : String) (h s : Resource)
        → find host.resources j ≡ some h
        → find source.resources j ≡ some s
        → h.content ≢ s.content
        → OnOk
            (Exists (Updates source s))
            (generate_updated_component_resources mgr opts host source)
    unfolding generate_updated_component_resources is_there
    updated_resources-Updates j h s fh fs c =
        let common = intersection_resources host.resources source.resources in
        OnOk-bind (validate_component host) _ λ _ _. OnOk-bind (validate_component source) _ λ _ _.
          OnOk-bind (remove_missing mgr opts host _) _ λ removals _.
            OnOk-step (update_common mgr opts host source _) _
              (update_common-Exists mgr opts host source j (list_resources common) h h s
                (first_at-list common j (intersection-IsKeyed host.resources source.resources)
                  ∙ ground (
                    arith,
                    find-intersection host.resources source.resources j host_keyed,
                    contains_lem source.resources j,
                  ))
                fh fs (find-path source.resources j s source_keyed fs) c)
              λ updates q. OnOk-ok (
                Exists-append_right (Updates source s) removals _
                  (Exists-append_right (Updates source s) _ updates q))
