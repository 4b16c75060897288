-- ===== src/Commands/Updated.antt =====
-- What an `update` that returns no error has done.
use materia.Base.{true, ◌≡◌, refl, ◌⊎◌, inl, inr, Bool-cases, Option, none, some, ap, ◌∙◌, arith}
use materia.Errors.{Error, Result, ok, err, need_rollback}
use materia.Deps.{Deps}
use materia.Plan.Build.{Plan, is_empty_plan}
use materia.Executor.Host.{Exec, after}
use materia.Engine.Planning.{plan}
use materia.Engine.Planned.{Planned, plan-Planned}
use materia.Engine.Execution.{ExecutionReport, execute}
use materia.Engine.Executed.{Executed, execute-Executed}
use materia.Commands.{
  Instance, rollback_initiated, is_need_rollback, error_of, update_again, or_rolled_back, update,
}

pub after-ok :
    {S A B : Type 0} (m : S × Result A) (next : A → Exec S B) (s' : S) (b : B)
    → after m next ≡ (s', ok b)
    → (a : A) × (t : S) × (m ≡ (t, ok a)) × (next a t ≡ (s', ok b))
after-ok (s, ok a) next s' b h = (a, s, refl, h)
after-ok (s, err e) next s' b h = cc

is_need_rollback-eq : (e : Error) → is_need_rollback e ≡ true → e ≡ need_rollback
unfolding is_need_rollback
is_need_rollback-eq e h = ground arith

module _ ⦃D : Deps⦄ {S : Type 0} (i : Instance S) where
  -- a plan was run without an error: it was empty, or all of it succeeded under the lock
  abbrev pub Ran : Plan → S → S → Type 0
  Ran p s s' = (is_empty_plan p ≡ true) ⊎ Executed i.materia p s s'

  execute-Ran :
      (p : Plan) (s s' : S) (x : ExecutionReport)
      → execute i.materia p s ≡ (s', (x, none))
      → Ran p s s'
  execute-Ran p s s' x h = elim (Bool-cases (is_empty_plan p)) [
    | inl e ↦ inl e
    | inr e ↦ inr (execute-Executed i.materia p s s' x e h)
  ]

  -- the sources were rolled back, and the plan that was made from them was run
  pub record RolledBack (s s' : S) : Type 0 where
    pub told : S
    pub back : S
    pub made : S
    pub plan_of : Plan
    pub notified : i.notify "rollback" rollback_initiated s ≡ (told, ok tt)
    pub rolled_back : i.roll_back told ≡ (back, ok tt)
    pub planned : Planned i.materia back made plan_of
    pub ran : Ran plan_of made s'

  -- the first plan, what became of it, and the report
  pub record Updated (s s' : S) : Type 0 where
    pub made : S
    pub tried : S
    pub done : S
    pub plan_of : Plan
    pub report : ExecutionReport
    pub planned : Planned i.materia s made plan_of
    pub ran :
        (Ran plan_of made tried × (done ≡ tried))
        ⊎ ((execute i.materia plan_of made ≡ (tried, (report, some need_rollback)))
            × RolledBack tried done)
    pub saved : i.save_plan plan_of "lastrun.toml" done ≡ (s', ok tt)

  error_of-none :
      (m : S × (ExecutionReport × Option Error)) (s' : S)
      → error_of i m ≡ (s', ok tt)
      → (x : ExecutionReport) × (m ≡ (s', (x, none)))
  unfolding error_of
  error_of-none (s, (x, none)) s' h = (x, cc)
  error_of-none (s, (x, some e)) s' h = cc

  update_again-RolledBack : (s s' : S) → update_again i s ≡ (s', ok tt) → RolledBack s s'
  unfolding update_again
  update_again-RolledBack s s' h =
      let (_, told, n, h₁) = after-ok (i.notify "rollback" rollback_initiated s) _ s' tt h in
      let (_, back, r, h₂) = after-ok (i.roll_back told) _ s' tt h₁ in
      let (q, made, p, h₃) = after-ok (plan i.materia back) _ s' tt h₂ in
      let (x, e) = error_of-none (execute i.materia q made) s' h₃ in
      record {
        told = told;
        back = back;
        made = made;
        plan_of = q;
        notified = n;
        rolled_back = r;
        planned = plan-Planned i.materia back made q p;
        ran = execute-Ran q made s' x e;
      }

  -- how the execution of the first plan ended
  or_rolled_back-Ran :
      (p : Plan) (s t : S) (m : S × (ExecutionReport × Option Error))
      → execute i.materia p s ≡ m
      → or_rolled_back i m ≡ (t, ok tt)
      → (Ran p s m.0 × (t ≡ m.0))
        ⊎ ((execute i.materia p s ≡ (m.0, (m.1.0, some need_rollback))) × RolledBack m.0 t)
  unfolding or_rolled_back
  or_rolled_back-Ran p s t (u, (x, none)) e h = inl (execute-Ran p s u x e, cc)
  or_rolled_back-Ran p s t (u, (x, some why)) e h = elim (Bool-cases (is_need_rollback why)) [
    | inl n ↦ inr (
      e ∙ ap (λ w. (u, (x, some w))) (is_need_rollback-eq why n),
      update_again-RolledBack u t (rw n at h),
    )
    | inr n ↦ absurd (ground arith)
  ]

  -- If `update` returns no error, then a plan was made under the lock that passes the validation,
  -- and either it was run without an error, or its run asked for a rollback, and then the rollback
  -- was notified, the sources were rolled back, and a second plan that passes the validation was
  -- made and run without an error. The first plan was saved as the last run in both cases.
  pub update-Updated : (s s' : S) → update i s ≡ (s', ok tt) → Updated s s'
  unfolding update
  update-Updated s s' h =
      let (p, made, planned, h₁) = after-ok (plan i.materia s) _ s' tt h in
      let (_, done, r, saved) = after-ok (or_rolled_back i (execute i.materia p made)) _ s' tt h₁ in
      record {
        made = made;
        tried = (execute i.materia p made).0;
        done = done;
        plan_of = p;
        report = (execute i.materia p made).1.0;
        planned = plan-Planned i.materia s made p planned;
        ran = or_rolled_back-Ran p made done (execute i.materia p made) refl r;
        saved = saved;
      }
