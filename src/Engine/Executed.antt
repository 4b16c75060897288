-- ===== src/Engine/Executed.antt =====
-- What `Materia.Execute` (execute.go) has done when it returns, and when it asks for a rollback.
use materia.Base.{
  ℕ, Bool, true, false, ◌≡◌, refl, ◌∙◌, sym, ap, arith, inl, inr, Option, none, some, if◌then◌else◌,
}
use materia.Errors.{Error, ok, need_rollback}
use materia.Deps.{Deps}
use materia.Plan.Build.{Plan, is_empty_plan}
use materia.Executor.Run.{execute_plan}
use materia.Executor.Success.{Succeeded, execute_plan-Succeeded}
use materia.Engine.Backend.{Materia}
use materia.Engine.Held.{Held, enter, leave, with_lock-Held}
use materia.Engine.Execution.{
  ExecutionReport, is_unhealthy, reported, no_report, run_executor, validate_post_execute, cleaned,
  execute,
}

module _ ⦃D : Deps⦄ {S : Type 0} (m : Materia S) where
  -- what the deferred cleanup leaves
  abbrev pub cleanup : S → S
  cleanup s = if m.executor.config.cleanup_components then validate_post_execute m s else s

  -- the plan was executed with the lock held
  pub record Executed (p : Plan) (s s' : S) : Type 0 where
    pub inside : S
    pub behind : S
    pub count : ℕ
    pub entered : enter m.locker s ≡ (inside, ok tt)
    pub succeeded : Succeeded m.host m.executor p inside behind count
    pub left : s' ≡ cleanup (leave m.locker behind)

  reported-none :
      (rollback : Bool) (r : ℕ × Option Error) (x : ExecutionReport)
      → reported rollback r ≡ (x, none)
      → (n : ℕ) × (r ≡ (n, none))
  unfolding reported
  reported-none rollback (n, none) x h = (n, refl)
  reported-none rollback (n, some e) x h = absurd (ground arith)

  -- the result under the lock, and the state that the cleanup finds
  uncleaned :
      (r : S × (ExecutionReport × Option Error)) (s' : S) (x : ExecutionReport × Option Error)
      → cleaned m r ≡ (s', x)
      → (t : S) × (r ≡ (t, x)) × (s' ≡ cleanup t)
  unfolding cleaned
  uncleaned (t, y) s' x h = (t, ap (λ q. (t, q.1)) h, sym (ap (λ q. q.0) h))

  executor_answer :
      (p : Plan) (s : S)
      → (run_executor m p s).1 ≡ reported m.rollback (execute_plan m.host m.executor p s).1
  unfolding run_executor
  executor_answer p s = refl

  executor_state :
      (p : Plan) (s : S) → (run_executor m p s).0 ≡ (execute_plan m.host m.executor p s).0
  unfolding run_executor
  executor_state p s = refl

  run_executor-Executed :
      (p : Plan) (s s' t : S) (x : ExecutionReport)
      → is_empty_plan p ≡ false
      → s' ≡ cleanup t
      → Held m.locker (run_executor m p) s t (x, none)
      → Executed p s s'
  run_executor-Executed p s s' t x full clean v =
      let (n, e) =
        reported-none m.rollback (execute_plan m.host m.executor p v.inside).1 x
          (sym (executor_answer p v.inside) ∙ sym v.answered) in
      let behind = (execute_plan m.host m.executor p v.inside).0 in
      record {
        inside = v.inside;
        behind = behind;
        count = n;
        entered = v.entered;
        succeeded =
            execute_plan-Succeeded m.host m.executor p v.inside behind n full
              (ap (λ q. (behind, q)) e);
        left = clean ∙ ap cleanup (v.left ∙ ap (leave m.locker) (executor_state p v.inside));
      }

  pub execute-Executed :
      (p : Plan) (s s' : S) (x : ExecutionReport)
      → is_empty_plan p ≡ false
      → execute m p s ≡ (s', (x, none))
      → Executed p s s'
  unfolding execute
  execute-Executed p s s' x full h =
      let (t, r, clean) = uncleaned _ s' (x, none) h in
      elim (with_lock-Held m.locker _ _ s t (x, none) r) [
        | inl failed ↦ absurd (ground arith)
        | inr held ↦ run_executor-Executed p s s' t x full clean held
      ]

  -- why a rollback is asked for
  pub record Unhealthy (p : Plan) (s : S) (x : ExecutionReport) (e : Option Error) : Type 0 where
    pub inside : S
    pub why : Error
    pub entered : enter m.locker s ≡ (inside, ok tt)
    pub enabled : m.rollback ≡ true
    pub asked : e ≡ some need_rollback
    pub unhealthy : is_unhealthy why ≡ true
    pub failed : (execute_plan m.host m.executor p inside).1 ≡ (x.steps_completed, some why)

  -- what is made of an error, by whether it is one of services that are not healthy
  abbrev answer : Bool → Bool → ℕ → Error → ExecutionReport × Option Error
  answer unhealthy rollback n why =
      if unhealthy
      then (if rollback
          then (
            record { steps_completed = n; rolled_back = true; error = some why },
            some need_rollback,
          )
          else (no_report, some why))
      else (no_report, some why)

  asked_for :
      (unhealthy rollback : Bool) (n : ℕ) (why : Error) (x : ExecutionReport) (e : Option Error)
      → answer unhealthy rollback n why ≡ (x, e)
      → x.rolled_back ≡ true
      → (unhealthy ≡ true) × (rollback ≡ true) × (e ≡ some need_rollback) × (n ≡ x.steps_completed)
  asked_for true true n why x e h b =
      (refl, refl, sym (ap (λ q. q.1) h), ap (λ q. q.0.steps_completed) h)
  asked_for true false n why x e h b = cc (ap (λ q. q.0.rolled_back) h)
  asked_for false rollback n why x e h b = cc (ap (λ q. q.0.rolled_back) h)

  reported-rolled_back :
      (rollback : Bool) (r : ℕ × Option Error) (x : ExecutionReport) (e : Option Error)
      → reported rollback r ≡ (x, e)
      → x.rolled_back ≡ true
      → (why : Error) × (rollback ≡ true)
        × (e ≡ some need_rollback)
        × (is_unhealthy why ≡ true)
        × (r ≡ (x.steps_completed, some why))
  unfolding reported
  reported-rolled_back rollback (n, none) x e h b = absurd (ground arith)
  reported-rolled_back rollback (n, some why) x e h b =
      let (unhealthy, enabled, asked, ran) = asked_for (is_unhealthy why) rollback n why x e h b in
      (why, enabled, asked, unhealthy, ap (λ k. (k, some why)) ran)

  -- `Execute` reports a rollback only if it is enabled and the executor, run with the lock held,
  -- failed because of services that are not healthy; the error is then that a rollback is needed,
  -- and the report has the number of the executor's steps.
  pub execute_rolled_back :
      (p : Plan) (s s' : S) (x : ExecutionReport) (e : Option Error)
      → execute m p s ≡ (s', (x, e))
      → x.rolled_back ≡ true
      → Unhealthy p s x e
  unfolding execute
  execute_rolled_back p s s' x e h b =
      let (t, r, clean) = uncleaned _ s' (x, e) h in
      elim (with_lock-Held m.locker _ _ s t (x, e) r) [
        | inl failed ↦ absurd (ground arith)
        | inr held ↦
            let (why, enabled, asked, unhealthy, ran) =
              reported-rolled_back m.rollback (execute_plan m.host m.executor p held.inside).1 x e
                (sym (executor_answer p held.inside) ∙ sym held.answered) b in
            record {
              inside = held.inside;
              why = why;
              entered = held.entered;
              enabled = enabled;
              asked = asked;
              unhealthy = unhealthy;
              failed = ran;
            }
      ]
