-- ===== src/Engine/Missing.antt =====
-- A host that the manifest of the repository does not name.
use materia.Base.{String, ◌≡◌, ◌≢◌, sym, inl, inr, none, List, ◌∷◌}
use materia.Errors.{
  Result, ok, err, ◌>>=◌, OnOk, OnOk-err, OnOk-bind, OnOk-step, host_not_in_manifest, lock_failed,
}
use materia.Deps.{Deps, assoc_get}
use materia.Attributes.{AttributesFilter}
use materia.Components.Component.{new_component}
use materia.Manifests.Hosts.{get_component_override}
use materia.Plan.Build.{Plan}
use materia.Engine.Backend.{Materia}
use materia.Engine.Assigned.{get_assigned_components}
use materia.Engine.Held.{with_lock-Held}
use materia.Engine.Planning.{
  one_or_none, is_not_assigned, load_installed, load_assigned, load_assigned_component,
  source_inputs, plan_body, plan,
}

module _ ⦃D : Deps⦄ {S : Type 0} (m : Materia S) (s : S) where
  -- a result that is no success
  abbrev pub Never : {A : Type 0} → Result A → Type 0
  Never r = OnOk (λ _. ⊥) r

  source_inputs-Never :
      (filter : AttributesFilter) (name : String)
      → assoc_get m.hostname m.manifest.hosts ≡ none
      → Never (source_inputs m s filter name)
  unfolding source_inputs get_component_override one_or_none is_not_assigned
  source_inputs-Never filter name h =
      OnOk-bind (m.vault filter) _ (λ attrs _. rw h (OnOk-err host_not_in_manifest))

  -- behind a step that never succeeds nothing does
  Never-bind : {A B : Type 0} (r : Result A) (f : A → Result B) → Never r → Never (r >>= f)
  Never-bind r f h = OnOk-step r f h (λ a e. absurd e)

  load_assigned-Never :
      (names : List String) (n : String) (ns : List String)
      → names ≡ n ∷ ns
      → assoc_get m.hostname m.manifest.hosts ≡ none
      → Never (load_assigned m s names)
  unfolding load_assigned load_assigned_component
  load_assigned-Never names n ns e h = rw e (
      Never-bind (load_assigned_component m s n) _
        (OnOk-bind (new_component n) _ (λ c _. Never-bind _ _ (source_inputs-Never _ n h))))

  plan_body-Never :
      (n : String) (ns : List String)
      → get_assigned_components m.manifest m.hostname m.roles ≡ n ∷ ns
      → assoc_get m.hostname m.manifest.hosts ≡ none
      → Never (plan_body m s)
  unfolding plan_body
  plan_body-Never n ns e h = OnOk-bind (m.list_installed_components s) _ (λ names _.
      OnOk-bind (load_installed m s names) _
        (λ installed _. Never-bind _ _ (load_assigned-Never _ n ns e h)))

module _ ⦃D : Deps⦄ {S : Type 0} (m : Materia S) where
  -- For a host that the manifest of the repository has no entry for, `Plan` never gives a plan if
  -- any component is assigned to it, as one that is assigned to all hosts or to a role may be.
  pub plan_missing_host :
      (n : String) (ns : List String) (s s' : S) (p : Plan)
      → get_assigned_components m.manifest m.hostname m.roles ≡ n ∷ ns
      → assoc_get m.hostname m.manifest.hosts ≡ none
      → plan m s ≢ (s', ok p)
  unfolding plan
  plan_missing_host n ns s s' p e h g =
      elim (with_lock-Held m.locker (err lock_failed) _ s s' (ok p) g) [
        | inl failed ↦ cc
        | inr held ↦ (plan_body-Never m held.inside n ns e h).at p (sym held.answered)
      ]
