-- ===== src/Engine/Planned.antt =====
-- What a plan that `Materia.Plan` (materia.go) returns is sure to satisfy.
use materia.Base.{String, ◌≡◌, sym, subst, inl, inr, List}
use materia.Errors.{ok, err, >>=-eq-ok, lock_failed, ok_injective}
use materia.Deps.{Deps}
use materia.Plan.Build.{Plan, steps}
use materia.Plan.Checks.{IsValid, validate_plan-IsValid}
use materia.Plan.Order.{IsOrdered}
use materia.Plan.Validator.{validate_plan}
use materia.Planner.Planning.{make_plan}
use materia.Planner.Validity.{make_plan-IsValid}
use materia.Engine.Backend.{Materia}
use materia.Engine.Assigned.{get_assigned_components}
use materia.Engine.Planning.{plan, plan_body, load_installed, load_assigned}
use materia.Engine.Held.{enter, leave, with_lock-Held}

module _ ⦃D : Deps⦄ {S : Type 0} (m : Materia S) where
  -- a plan that was made with the lock held, from the state of the world `inside`
  pub record Planned (s s' : S) (p : Plan) : Type 0 where
    pub inside : S
    pub names : List String
    pub entered : enter m.locker s ≡ (inside, ok tt)
    pub left : s' ≡ leave m.locker inside
    pub listed : m.list_installed_components inside ≡ ok names
    pub valid : IsValid names (steps p)
    pub ordered : IsOrdered p

  planned_inside :
      (s s' : S) (p : Plan) (t : S)
      → enter m.locker s ≡ (t, ok tt)
      → s' ≡ leave m.locker t
      → plan_body m t ≡ ok p
      → Planned s s' p
  unfolding plan_body
  planned_inside s s' p t entered left h =
      let (names, listed, h₁) = >>=-eq-ok (m.list_installed_components t) _ h in
      let (installed, _, h₂) = >>=-eq-ok (load_installed m t names) _ h₁ in
      let (assigned, _, h₃) =
        >>=-eq-ok (load_assigned m t (get_assigned_components m.manifest m.hostname m.roles)) _
          h₂ in
      let (q, made, h₄) =
        >>=-eq-ok (make_plan (m.host_state t) m.planner installed assigned) _ h₃ in
      let (_, checked, h₅) = >>=-eq-ok (validate_plan names q) _ h₄ in
      let same = ok_injective h₅ in
      record {
        inside = t;
        names = names;
        entered = entered;
        left = left;
        listed = listed;
        valid = subst (λ q. IsValid names (steps q)) same (validate_plan-IsValid names q checked);
        ordered =
            subst IsOrdered same
              (make_plan-IsValid (m.host_state t) m.planner installed assigned q made).1;
      }

  -- If `Plan` returns a plan, then it got the lock and gave it back, the names of the installed
  -- components were listed, and the steps of the plan pass each check of the validation against
  -- these names; the changes of each of its components are ordered by priority.
  pub plan-Planned : (s s' : S) (p : Plan) → plan m s ≡ (s', ok p) → Planned s s' p
  unfolding plan
  plan-Planned s s' p h = elim (with_lock-Held m.locker (err lock_failed) _ s s' (ok p) h) [
    | inl failed ↦ cc
    | inr held ↦ planned_inside s s' p held.inside held.entered held.left (sym held.answered)
  ]
