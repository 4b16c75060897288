-- ===== src/Plan/Order.antt =====
-- The changes of each component stay ordered by priority, whatever is added to a plan (plan.go).
use materia.Base.{
  String, ◌≡◌, true, List, [], ◌∷◌, arith, ◌==◌, if◌then◌else◌, Bool-cases, inl, inr, Sorted,
  Sorted-sort_stable,
}
use materia.Errors.{ok, OnOk, OnOk-ok, OnOk-bind, OnOk-step, on_ok}
use materia.Deps.{Deps, assoc_get, assoc_get-tree_put}
use materia.Actions.{Action, validate_action, parent_name}
use materia.Plan.Priority.{get_default_priority}
use materia.Plan.Build.{
  Plan, ComponentChanges, new_plan, priority_key, changes_at, add_resource_change,
  add_service_change, add_action, add_defaulted, add_manual, append_actions, place_default, counted,
}

module _ ⦃D : Deps⦄ where
  abbrev pub ChangesOrdered : ComponentChanges → Type 0
  ChangesOrdered c = Sorted priority_key c.resource_changes × Sorted priority_key c.service_changes

  -- every component's changes are in the order of their priorities
  pub record IsOrdered (p : Plan) : Type 0 where
    pub at : (name : String) → ChangesOrdered (changes_at p name)

  pub changes_at-put :
      (p : Plan) (name j : String) (c : ComponentChanges)
      → changes_at (record p { changes_map = D.tree.put name c p.changes_map }) j
        ≡ (if name == j then c else changes_at p j)
  unfolding changes_at
  changes_at-put p name j c =
      rw (D.tree.get-entries, D.tree.entries-put, assoc_get-tree_put, ← D.tree.get-entries)
        (ground arith)

  put-IsOrdered :
      (p : Plan) (name : String) (c : ComponentChanges)
      → ChangesOrdered c
      → IsOrdered p
      → IsOrdered (record p { changes_map = D.tree.put name c p.changes_map })
  put-IsOrdered p name c h v = record {
    at = λ j.
        rw changes_at-put
          (elim (Bool-cases (name == j)) [ inl e ↦ rw e h | inr e ↦ rw e (v.at j) ]);
  }

  add_resource_change-IsOrdered :
      (p : Plan) (a : Action) → IsOrdered p → OnOk IsOrdered (add_resource_change p a)
  unfolding add_resource_change
  add_resource_change-IsOrdered p a v = OnOk-bind (parent_name a) _ λ name _.
      OnOk-ok (put-IsOrdered p name _ (Sorted-sort_stable priority_key _, (v.at name).1) v)

  add_service_change-IsOrdered :
      (p : Plan) (a : Action) → IsOrdered p → OnOk IsOrdered (add_service_change p a)
  unfolding add_service_change
  add_service_change-IsOrdered p a v = OnOk-bind (parent_name a) _ λ name _.
      OnOk-ok (put-IsOrdered p name _ ((v.at name).0, Sorted-sort_stable priority_key _) v)

  need_reload-IsOrdered : (p : Plan) → IsOrdered p → IsOrdered (record p { need_reload = true })
  need_reload-IsOrdered p v = record { at = unfold changes_at in v.at }

  counted-IsOrdered : (p : Plan) → IsOrdered p → OnOk IsOrdered (ok (counted p))
  unfolding counted changes_at
  counted-IsOrdered p v = OnOk-ok (record { at = v.at })

  place_default-IsOrdered :
      (p : Plan) (a : Action) → IsOrdered p → OnOk IsOrdered (place_default p a)
  unfolding place_default
  place_default-IsOrdered p a v =
      search
        (on_ok, need_reload-IsOrdered, add_service_change-IsOrdered, add_resource_change-IsOrdered)

  add_defaulted-IsOrdered :
      (p : Plan) (a : Action) → IsOrdered p → OnOk IsOrdered (add_defaulted p a)
  unfolding add_defaulted
  add_defaulted-IsOrdered p a v = OnOk-bind (get_default_priority a) _ λ priority _.
      OnOk-step (place_default p _) _ (place_default-IsOrdered p _ v) counted-IsOrdered

  add_manual-IsOrdered : (p : Plan) (a : Action) → IsOrdered p → OnOk IsOrdered (add_manual p a)
  unfolding add_manual
  add_manual-IsOrdered p a v =
      OnOk-step (add_resource_change p a) _ (add_resource_change-IsOrdered p a v) counted-IsOrdered

  pub add_action-IsOrdered : (p : Plan) (a : Action) → IsOrdered p → OnOk IsOrdered (add_action p a)
  unfolding add_action
  add_action-IsOrdered p a v =
      OnOk-bind (validate_action a) _
        λ _ _. search (on_ok, add_defaulted-IsOrdered, add_manual-IsOrdered)

  -- If the changes of every component of a plan are ordered by priority, they still are when
  -- appending any list of actions succeeds.
  pub append_actions-IsOrdered :
      (p : Plan) (actions : List Action) → IsOrdered p → OnOk IsOrdered (append_actions p actions)
  unfolding append_actions
  append_actions-IsOrdered p [] v = OnOk-ok v
  append_actions-IsOrdered p (a ∷ actions) v =
      OnOk-step (add_action p a) _ (add_action-IsOrdered p a v)
        (λ p' v'. append_actions-IsOrdered p' actions v')

  pub IsOrdered-new : IsOrdered new_plan
  unfolding changes_at assoc_get
  IsOrdered-new = record {
    at = λ name. rw (D.tree.get-entries, D.tree.entries-new, assoc_get) (tt, tt);
  }
