-- ===== src/Plan/Contents.antt =====
-- Nothing that is added to a plan (plan.go) is lost: its size and its changes.
use materia.Base.{
  ℕ, ◌+◌, String, ◌≡◌, refl, Bool, true, false, List, [], ◌∷◌, ◌++◌, arith, ◌==◌, length, ◌&&◌, sym,
  ◌∙◌, inl, inr, ◌⊎◌, sort_stable, sort_stable-perm, subst, append_assoc, append-nil, eq_refl,
}
use mathlib.Core.List.{Perm, perm_middle}
use mathlib.Core.List.Perm
use materia.Errors.{Result, ok, err, OnOk-err, OnOk-if, OnOk, OnOk-ok, OnOk-bind, OnOk-step}
use materia.Deps.{Deps}
use materia.Actions.{Action, todo_eq, reload, validate_action, parent_name}
use materia.Components.Kind.{host, kind_eq}
use materia.Plan.Priority.{get_default_priority}
use materia.Plan.Order.{changes_at-put}
use materia.Plan.Build.{
  Plan, priority_key, changes_at, add_resource_change, add_service_change, add_action,
  add_defaulted, add_manual, append_actions, place_default, counted,
}

and_left : (x y : Bool) → (x && y) ≡ true → x ≡ true
and_left x y h = ground arith

and_right : (x y : Bool) → (x && y) ≡ true → y ≡ true
and_right x y h = ground arith

module _ ⦃D : Deps⦄ where
  -- all that is to be done for a component
  abbrev pub changes_of : Plan → String → List Action
  changes_of p name = (changes_at p name).resource_changes ++ (changes_at p name).service_changes

  -- `b` is among the changes of its component, next to all that was there before
  pub record Placed (p : Plan) (b : Action) (p' : Plan) : Type 0 where
    pub name : String
    pub named : parent_name b ≡ ok name
    pub here : Perm (changes_of p' name) (b ∷ changes_of p name)
    pub elsewhere : (j : String) → (name == j) ≡ false → changes_at p' j ≡ changes_at p j

  sorted-Perm :
      (b : Action) (old kept : List Action)
      → Perm (sort_stable priority_key (old ++ b ∷ []) ++ kept) (b ∷ (old ++ kept))
  sorted-Perm b old kept =
      Perm.trans (Perm.append_right kept (sort_stable-perm priority_key (old ++ b ∷ [])))
        (rw (append_assoc old (b ∷ []) kept) (perm_middle old kept))

  sorted_behind-Perm :
      (b : Action) (kept old : List Action)
      → Perm (kept ++ sort_stable priority_key (old ++ b ∷ [])) (b ∷ (kept ++ old))
  sorted_behind-Perm b kept old =
      Perm.trans (Perm.append_left kept (sort_stable-perm priority_key (old ++ b ∷ []))) (
        rw⁻¹ (append_assoc kept old (b ∷ [])) (
          subst (λ (l : List Action). Perm ((kept ++ old) ++ b ∷ []) (b ∷ l))
            (append-nil (kept ++ old)) (perm_middle (kept ++ old) [])))

  add_resource_change-Placed :
      (p : Plan) (b : Action)
      → OnOk (λ p'. Placed p b p' × (p'.size ≡ p.size)) (add_resource_change p b)
  unfolding add_resource_change
  add_resource_change-Placed p b = OnOk-bind (parent_name b) _ λ name e. OnOk-ok (
    record {
      name = name;
      named = e;
      here = rw (changes_at-put, eq_refl name) (sorted-Perm b _ _);
      elsewhere = λ j n. rw (changes_at-put, n) refl;
    },
    refl,
  )

  add_service_change-Placed :
      (p : Plan) (b : Action)
      → OnOk (λ p'. Placed p b p' × (p'.size ≡ p.size)) (add_service_change p b)
  unfolding add_service_change
  add_service_change-Placed p b = OnOk-bind (parent_name b) _ λ name e. OnOk-ok (
    record {
      name = name;
      named = e;
      here = rw (changes_at-put, eq_refl name) (sorted_behind-Perm b _ _);
      elsewhere = λ j n. rw (changes_at-put, n) refl;
    },
    refl,
  )

  -- the action as it is in the plan: only its priority is set
  pub record SameStep (a b : Action) : Type 0 where
    pub todo : b.todo ≡ a.todo
    pub target : b.target ≡ a.target
    pub parent : b.parent ≡ a.parent
    pub diff_content : b.diff_content ≡ a.diff_content

  -- what becomes of an action that is added: the reload of the host is a flag, all else a change
  pub record Stored (p : Plan) (a : Action) (size : ℕ) (p' : Plan) : Type 0 where
    pub counted : p'.size ≡ size
    pub as_step :
        ((kind_eq a.target.kind host ≡ true)
          × (todo_eq a.todo reload ≡ true)
          × (p'.need_reload ≡ true)
          × ((j : String) → changes_at p' j ≡ changes_at p j))
        ⊎ ((b : Action) × SameStep a b × Placed p b p')

  Stored-change :
      (p : Plan) (a b : Action)
      → SameStep a b
      → (m : Result Plan) → OnOk (λ p'. Placed p b p' × (p'.size ≡ p.size)) m
      → OnOk (Stored p a p.size) m
  Stored-change p a b s (ok p') h =
      OnOk-ok (record { counted = (h.at p' refl).1; as_step = inr (b, s, (h.at p' refl).0) })
  Stored-change p a b s (err e) h = OnOk-err e

  counted-Stored :
      (p : Plan) (a : Action) (p' : Plan)
      → Stored p a p.size p'
      → OnOk (Stored p a (p.size + 1)) (ok (counted p'))
  unfolding counted changes_at
  counted-Stored p a p' s = OnOk-ok (record {
    counted = omega (arith, s.counted);
    as_step = elim s.as_step [
      | inl h ↦ inl h
      | inr (b, same, q) ↦ inr (
        b,
        same,
        record { name = q.name; named = q.named; here = q.here; elsewhere = q.elsewhere },
      )
    ];
  })

  place_default-Stored :
      (p : Plan) (a b : Action)
      → SameStep a b
      → kind_eq b.target.kind host ≡ kind_eq a.target.kind host
      → todo_eq b.todo reload ≡ todo_eq a.todo reload
      → OnOk (Stored p a p.size) (place_default p b)
  unfolding place_default changes_at
  place_default-Stored p a b s k r =
      OnOk-if (kind_eq b.target.kind host && todo_eq b.todo reload) _ _
        (λ h. OnOk-ok (record {
          counted = refl;
          as_step = inl (
            sym k ∙ and_left (kind_eq b.target.kind host) (todo_eq b.todo reload) h,
            sym r ∙ and_right (kind_eq b.target.kind host) (todo_eq b.todo reload) h,
            refl,
            λ j. refl,
          );
        }))
        (λ _.
          OnOk-if _ _ _ (λ _. Stored-change p a b s _ (add_service_change-Placed p b))
            (λ _. Stored-change p a b s _ (add_resource_change-Placed p b)))

  -- When adding an action to a plan succeeds, the size grows by one, and either the action is a
  -- reload of the host that is kept as a flag and no changes are touched, or it joins the changes
  -- of its parent with its kind of step, target, parent and difference, none of the changes there
  -- before is lost, and those of other components stay as they were.
  pub add_action-Stored : (p : Plan) (a : Action) → OnOk (Stored p a (p.size + 1)) (add_action p a)
  unfolding add_action add_defaulted add_manual
  add_action-Stored p a = OnOk-bind (validate_action a) _ λ _ _.
      OnOk-if _ _ _
        (λ _. OnOk-bind (get_default_priority a) _ λ n _.
          OnOk-step (place_default p _) _
            (place_default-Stored p a (record a { priority = n }) same refl refl)
            (counted-Stored p a))
        (λ _.
          OnOk-step (add_resource_change p a) _
            (Stored-change p a a same _ (add_resource_change-Placed p a)) (counted-Stored p a))
    where
      same : {n : ℕ} → SameStep a (record a { priority = n })
      same = record { todo = refl; target = refl; parent = refl; diff_content = refl }

  -- When appending a list of actions to a plan succeeds, the size of the plan grows by the length
  -- of the list.
  pub append_actions-size :
      (p : Plan) (actions : List Action)
      → OnOk (λ p'. p'.size ≡ p.size + length actions) (append_actions p actions)
  unfolding append_actions
  append_actions-size p [] = OnOk-ok (omega arith)
  append_actions-size p (a ∷ actions) = OnOk-bind (add_action p a) _ λ p' e. record {
    at = λ q h.
        omega (
          arith,
          ((add_action-Stored p a).at p' e).counted,
          (append_actions-size p' actions).at q h,
        );
  }
