-- ===== src/Hostman/Fresh.antt =====
-- What the steps of a whole fresh component leave on the disk of the host.
use materia.Base.{
  String, ◌≡◌, ◌≢◌, Bool, true, false, ◌||◌, some, List, [], ◌∷◌, arith, sym, ap, ◌∙◌, inl, inr,
  All, All-map, Pairwise, Bool-cases, none, subst,
}
use materia.Errors.{ok, >>=-eq-ok}
use materia.Deps.{Deps, assoc_get}
use materia.Disk.{file, Disk}
use materia.Components.Kind.{ResourceType, kind_eq, kind_code, directory}
use materia.Components.Resource.{Resource}
use materia.Components.ResourceSet.{list_resources}
use materia.Components.Component.{Component, to_resource, is_fresh, validate_component}
use materia.Actions.{Action, make_action, install}
use materia.Planner.Resources.{install_all, install_action, generate_fresh_component_resources}
use materia.Planner.Updates.{install_action-Installs}
use materia.Executor.Host.{Executor, install_resource}
use materia.Executor.Run.{Progress, run_steps}
use materia.Executor.Table.{execute_action}
use materia.Executor.Effects.{is_plain_file, execute_action-Installs, execute_action-directory}
use materia.Executor.Success.{Ran, ran_nil, ran_cons, run_steps-Ran}
use materia.Repository.Host.{read_resource}
use materia.Repository.Installed.{read-of-get}
use materia.Repository.Written.{Puts, destination, resource_path-destination, install_resource-Puts}
use materia.Hostman.{HostManager, host_of, perform_call}
use materia.Hostman.Converged.{plain_kind, shown-plain, beside-ok}

-- the kinds whose installation is a file or a directory alone
abbrev pub is_plain : ResourceType → Bool
is_plain k = is_plain_file k || kind_eq k directory

directory_kind : (k : ResourceType) → is_plain k ≡ true → is_plain_file k ≡ false → k ≡ directory
unfolding kind_eq kind_code
directory_kind k h f = ground arith

plain_not_dir : (k : ResourceType) → is_plain_file k ≡ true → kind_eq k directory ≡ false
unfolding kind_eq kind_code
plain_not_dir k f = ground arith

no_text :
    {path text : String} (other : String) {d d' : Disk}
    → Puts path text false d d'
    → Puts path other false d d'
no_text other puts = record { kept = puts.kept; put = λ b. absurd (ground arith) }

-- every destination behind the first one is another path
abbrev pub Apart : (Resource → String) → List Resource → Type 0
Apart at rs = Pairwise (λ r s. at r ≢ at s) rs

module _ ⦃D : Deps⦄ {W : Type 0} (h : HostManager W) (e : Executor) (comp : Component) where
  installed-Puts :
      (r : Resource) (text : String) (x : Bool) (d d' : Disk) (w w' : W)
      → (x ≡ true → kind_eq r.kind directory ≡ false)
      → (host_of h).perform (install_resource r text) (d, w) ≡ ((d', w'), ok tt)
      → Puts (destination h.components r) text x d d'
  unfolding perform_call
  installed-Puts r text x d d' w w' not_dir p =
      install_resource-Puts h.components r text x d d' not_dir (beside-ok w w' _ d' tt p)

  -- a step leaves all but its destination, where a file has the content of the resource
  step-Puts :
      (r : Resource) (s s' : Disk × W)
      → is_plain r.kind ≡ true
      → execute_action (host_of h) e (install_action comp r) s ≡ (s', ok tt)
      → Puts (destination h.components r) r.content (is_plain_file r.kind) s.0 s'.0
  step-Puts r (d, w) (d', w') k x = elim (Bool-cases (is_plain_file r.kind)) [
    | inl f ↦
        installed-Puts r r.content _ d d' w w' (λ _. plain_not_dir r.kind f)
          (ap (λ t. (host_of h).perform (install_resource r t) (d, w)) (sym (shown-plain r f))
            ∙ sym (
                execute_action-Installs (host_of h) e comp r (install_action comp r) (d, w)
                  (install_action-Installs comp r) f)
            ∙ x)
    | inr f ↦ rw f (
        no_text r.content (
          installed-Puts r "" false d d' w w' (λ g. absurd (ground arith))
            (sym (execute_action-directory (host_of h) e comp r (d, w) (directory_kind r.kind k f))
              ∙ x)))
  ]

  -- what has no destination among the resources is left
  rest-kept :
      (p : String) (rs : List Resource) (s s' : Disk × W)
      → All (λ r. is_plain r.kind ≡ true) rs
      → All (λ r. p ≢ destination h.components r) rs
      → Ran (host_of h) e (install_all comp rs) s s'
      → assoc_get p s'.0 ≡ assoc_get p s.0
  unfolding install_all
  rest-kept p [] s s' k apart x = ap (λ t. assoc_get p t.0) (ran_nil (host_of h) e x)
  rest-kept p (r ∷ rs) s s' k apart x =
      let (s₁, q, others) = ran_cons (host_of h) e x in
      rest-kept p rs s₁ s' k.1 apart.1 others ∙ (step-Puts r s s₁ k.0 q).kept p apart.0

  -- each resource has its content at its destination
  contents-put :
      (rs : List Resource) (s s' : Disk × W)
      → All (λ r. is_plain r.kind ≡ true) rs
      → Apart (destination h.components) rs
      → Ran (host_of h) e (install_all comp rs) s s'
      → All
          (λ r.
            is_plain_file r.kind ≡ true
            → assoc_get (destination h.components r) s'.0 ≡ some (file r.content))
          rs
  unfolding install_all
  contents-put [] s s' k apart x = tt
  contents-put (r ∷ rs) s s' k apart x =
      let (s₁, q, others) = ran_cons (host_of h) e x in
      (
        λ f.
            rest-kept (destination h.components r) rs s₁ s' k.1 apart.0 others
            ∙ (step-Puts r s s₁ k.0 q).put f,
        contents-put rs s₁ s' k.1 apart.1 others,
      )

  read-put :
      (r : Resource) (d : Disk)
      → is_plain_file r.kind ≡ true
      → r.template ≡ false
      → assoc_get (destination h.components r) d ≡ some (file r.content)
      → read_resource h.components r d ≡ (d, ok r.content)
  unfolding read_resource
  read-put r d f plain g =
      let (not_dir, not_secret) = plain_kind r.kind f in
      rw (not_dir, not_secret)
        (ap (λ t. (d, t))
          (read-of-get _ r.content d (rw (resource_path-destination h.components r plain) g)))

  generated-fresh :
      (xs : List Action)
      → generate_fresh_component_resources comp ≡ ok xs
      → xs
        ≡ make_action install comp (to_resource comp)
          ∷ install_all comp (list_resources comp.resources)
  unfolding generate_fresh_component_resources
  generated-fresh xs g =
      let (_, _, made) = >>=-eq-ok (validate_component comp) _ g in
      elim (Bool-cases (is_fresh comp.state)) [
        | inl f ↦ ground (arith, rw f at made)
        | inr f ↦ absurd (ground (arith, rw f at made))
      ]

  -- If the steps for the resources of a fresh component are made and run on a host without an
  -- error, and its resources are of kinds that are a file or a directory alone, with all their
  -- destinations apart, then the repository of the host reads exactly the content of each of its
  -- resources that is a file and no template.
  pub run_steps-fresh_read :
      (xs : List Action) (p p' : Progress) (s : Disk × W) (d' : Disk) (w' : W)
      → generate_fresh_component_resources comp ≡ ok xs
      → All (λ r. is_plain r.kind ≡ true) (list_resources comp.resources)
      → Apart (destination h.components) (list_resources comp.resources)
      → run_steps (host_of h) e xs p s ≡ ((d', w'), (p', none))
      → All
          (λ r.
            is_plain_file r.kind ≡ true
            → r.template ≡ false
            → read_resource h.components r d' ≡ (d', ok r.content))
          (list_resources comp.resources)
  run_steps-fresh_read xs p p' s d' w' g k apart x =
      let rs = list_resources comp.resources in
      let all_ran = run_steps-Ran (host_of h) e xs p s (d', w') p' x in
      let (s₁, _, others) =
        ran_cons (host_of h) e
          (subst (λ l. Ran (host_of h) e l s (d', w')) (generated-fresh xs g) all_ran) in
      All-map _ _ (λ r at f plain. read-put r d' f plain (at f)) rs
        (contents-put rs s₁ (d', w') k apart others)
