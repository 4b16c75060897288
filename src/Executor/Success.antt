-- ===== src/Executor/Success.antt =====
-- What `Execute` (execute.go) has done when it returns no error, and where it stops when a step fails.
use materia.Base.{
  ℕ, String, ◌≡◌, refl, Bool, true, false, Option, none, some, List, [], ◌∷◌, ◌++◌, arith, subst,
  ap, sym, ◌∙◌, ◌⊎◌, inl, inr,
}
use materia.Errors.{Error, Result, ok, err}
use materia.Deps.{Deps, assoc_get}
use materia.Services.{ServiceState}
use materia.Actions.{Action}
use materia.Plan.Build.{Plan, steps, is_empty_plan}
use materia.Executor.Host.{Host, Executor, wait_until_state}
use materia.Executor.Table.{execute_action}
use materia.Executor.Expects.{Expects, expect_all-Expects}
use materia.Executor.Noted.{
  last_on, state_on, counted_of, note_all, note_all-last, note_all-state, note_all-done,
}
use materia.Executor.Run.{
  Progress, no_progress, Expected, carry, run_steps, note_step, expect_all, check_all, check_rest,
  check_one, verdict, check_expected, check_services, execute_plan,
}

pub both_ways : (b : Bool) → b ≡ true → b ≡ false → ⊥
both_ways true h k = ground arith
both_ways false h k = ground arith

module _ ⦃D : Deps⦄ {S : Type 0} (h : Host S) (e : Executor) where
  -- every step is run in its order, each without an error
  pub data Ran : List Action → S → S → Type 0 where
    ran_all : {s : S} → Ran [] s s
    ran :
        {rest : List Action} {s s' s'' : S} (v : Action)
        → execute_action h e v s ≡ (s', ok tt)
        → Ran rest s' s''
        → Ran (v ∷ rest) s s''

  -- the first step has run, and then the others
  pub ran_cons :
      {v : Action} {rest : List Action} {s s'' : S}
      → Ran (v ∷ rest) s s''
      → (s' : S) × (execute_action h e v s ≡ (s', ok tt)) × Ran rest s' s''
  ran_cons (ran v q others) = (_, q, others)

  pub ran_nil : {s s' : S} → Ran [] s s' → s' ≡ s
  ran_nil ran_all = refl

  -- every unit is waited for in its order, and reaches its state
  pub data Reached : Expected → S → S → Type 0 where
    reached_all : {s : S} → Reached [] s s
    reached :
        {rest : Expected} {s s' s'' : S} (name : String) (state : ServiceState)
        → h.perform (wait_until_state name state e.default_timeout) s ≡ (s', ok tt)
        → Reached rest s' s''
        → Reached ((name, state) ∷ rest) s s''

  -- a step fails, those before it have run and those behind it have not
  pub record Stopped (xs : List Action) (s s' : S) (why : Error) : Type 0 where
    pub before : List Action
    pub failing : Action
    pub later : List Action
    pub middle : S
    pub parts : xs ≡ before ++ (failing ∷ later)
    pub done : Ran before s middle
    pub failed : execute_action h e failing middle ≡ (s', err why)

  carry-none :
      (p : Progress) (r : S × Result (Unit {0})) (next : S → S × (Progress × Option Error)) (s' : S)
      (p' : Progress)
      → carry h e p r next ≡ (s', (p', none))
      → (s₁ : S) × (r ≡ (s₁, ok tt)) × (next s₁ ≡ (s', (p', none)))
  unfolding carry
  carry-none p (s₁, ok tt) next s' p' g = (s₁, refl, g)
  carry-none p (s₁, err why) next s' p' g = absurd (ground arith)

  carry-some :
      (p : Progress) (r : S × Result (Unit {0})) (next : S → S × (Progress × Option Error)) (s' : S)
      (p' : Progress) (why : Error)
      → carry h e p r next ≡ (s', (p', some why))
      → (r ≡ (s', err why)) ⊎ ((s₁ : S) × (r ≡ (s₁, ok tt)) × (next s₁ ≡ (s', (p', some why))))
  unfolding carry
  carry-some p (s₁, ok tt) next s' p' why g = inr (s₁, refl, g)
  carry-some p (s₁, err other) next s' p' why g = inl (ground arith)

  pub run_steps-Ran :
      (xs : List Action) (p : Progress) (s s' : S) (p' : Progress)
      → run_steps h e xs p s ≡ (s', (p', none))
      → Ran xs s s'
  unfolding run_steps
  run_steps-Ran [] p s s' p' g = subst (λ t. Ran [] s t) (ap (λ x. x.0) g) ran_all
  run_steps-Ran (v ∷ rest) p s s' p' g =
      let (s₁, q, k) =
        carry-none p (execute_action h e v s) (run_steps h e rest (note_step v p)) s' p' g in
      ran v q (run_steps-Ran rest (note_step v p) s₁ s' p' k)

  run_steps-note_all :
      (xs : List Action) (p : Progress) (s s' : S) (p' : Progress)
      → run_steps h e xs p s ≡ (s', (p', none))
      → p' ≡ note_all p xs
  unfolding run_steps
  run_steps-note_all [] p s s' p' g = sym (ap (λ x. x.1.0) g)
  run_steps-note_all (v ∷ rest) p s s' p' g =
      let (s₁, _, k) =
        carry-none p (execute_action h e v s) (run_steps h e rest (note_step v p)) s' p' g in
      run_steps-note_all rest (note_step v p) s₁ s' p' k

  -- If running a list of steps ends in an error, the list has a first step that failed with this
  -- error: the steps before it have run without an error, and the host is left as the failed step
  -- left it, so that no later step has run.
  pub run_steps-Stopped :
      (xs : List Action) (p : Progress) (s s' : S) (p' : Progress) (why : Error)
      → run_steps h e xs p s ≡ (s', (p', some why))
      → Stopped xs s s' why
  unfolding run_steps
  run_steps-Stopped [] p s s' p' why g = absurd (ground arith)
  run_steps-Stopped (v ∷ rest) p s s' p' why g =
      elim (carry-some p (execute_action h e v s) (run_steps h e rest (note_step v p)) s' p' why
        g) [
          | inl q ↦ record {
            before = [];
            failing = v;
            later = rest;
            middle = s;
            parts = refl;
            done = ran_all;
            failed = q;
          }
          | inr (s₁, q, k) ↦
              let found = run_steps-Stopped rest (note_step v p) s₁ s' p' why k in
              record {
                before = v ∷ found.before;
                failing = found.failing;
                later = found.later;
                middle = found.middle;
                parts = ap (λ (l : List Action). v ∷ l) found.parts;
                done = ran v q found.done;
                failed = found.failed;
              }
        ]

  check_one-bad :
      (name : String) (state : ServiceState) (found : Bool × Expected) (r : S × Result (Unit {0}))
      → found.0 ≡ true
      → (check_one h e name state found r).1.0 ≡ true
  unfolding check_one
  check_one-bad name state (bad, final) (s, ok u) b = b
  check_one-bad name state (bad, final) (s, err why) b = refl

  -- a bad state that the final check finds is not forgotten
  check_all-bad :
      (expected : Expected) (found : Bool × Expected) (s : S)
      → found.0 ≡ true
      → (check_all h e expected found s).1.0 ≡ true
  unfolding check_all check_rest
  check_all-bad [] found s b = b
  check_all-bad ((name, state) ∷ rest) found s b =
      let r = h.perform (wait_until_state name state e.default_timeout) s in
      let next = check_one h e name state found r in
      check_all-bad rest next.1 next.0 (check_one-bad name state found r b)

  reached_one :
      (name : String) (state : ServiceState) (rest final final' : Expected) (s' : S)
      (r : S × Result (Unit {0}))
      → check_rest h e (check_one h e name state (false, final) r) (check_all h e rest)
        ≡ (s', (false, final'))
      → (s₁ : S) × (final₁ : Expected) × (r ≡ (s₁, ok tt))
        × (check_all h e rest (false, final₁) s₁ ≡ (s', (false, final')))
  unfolding check_rest check_one
  reached_one name state rest final final' s' (s₁, ok tt) g = (s₁, _, refl, g)
  reached_one name state rest final final' s' (s₁, err why) g = absurd (
      both_ways _
        (check_all-bad rest (check_one h e name state (false, final) (s₁, err why)).1 s₁ refl)
        (ap (λ x. x.1.0) g))

  check_all-Reached :
      (expected final final' : Expected) (s s' : S)
      → check_all h e expected (false, final) s ≡ (s', (false, final'))
      → Reached expected s s'
  unfolding check_all
  check_all-Reached [] final final' s s' g =
      subst (λ t. Reached [] s t) (ap (λ x. x.0) g) reached_all
  check_all-Reached ((name, state) ∷ rest) final final' s s' g =
      let (s₁, final₁, q, k) =
        reached_one name state rest final final' s'
          (h.perform (wait_until_state name state e.default_timeout) s) g in
      reached name state q (check_all-Reached rest final₁ final' s₁ s' k)

  -- what a run without an error has done
  pub record Succeeded (p : Plan) (s s' : S) (n : ℕ) : Type 0 where
    pub progress : Progress
    pub expected : Expected
    pub middle : S
    pub noted : run_steps h e (steps p) no_progress s ≡ (middle, (progress, none))
    pub counted : n ≡ counted_of (steps p)
    pub last : (k : String) → assoc_get k progress.last_action ≡ last_on k none (steps p)
    pub states : (k : String) → assoc_get k progress.expected ≡ state_on k none (steps p)
    pub ran_steps : Ran (steps p) s middle
    pub asked : Expects h middle progress.last_action progress.expected expected
    pub reached_states : Reached expected middle s'

  healthy :
      (done n : ℕ) (r : S × (Bool × Expected)) (s' : S)
      → verdict h e done r ≡ (s', (n, none))
      → (final : Expected) × (r ≡ (s', (false, final))) × (n ≡ done)
  unfolding verdict
  healthy done n (s₁, (true, final)) s' g = absurd (ground arith)
  healthy done n (s₁, (false, final)) s' g =
      (final, ap (λ x. (x.0, (false, final))) g, sym (ap (λ x. x.1.0) g))

  checked :
      (done n : ℕ) (s s' : S) (r : Result Expected)
      → check_expected h e done s r ≡ (s', (n, none))
      → (expected : Expected) × (r ≡ ok expected) × Reached expected s s' × (n ≡ done)
  unfolding check_expected
  checked done n s s' (err why) g = absurd (ground arith)
  checked done n s s' (ok expected) g =
      let (final, q, same) = healthy done n (check_all h e expected (false, []) s) s' g in
      (expected, refl, check_all-Reached expected [] final s s' q, same)

  succeeded :
      (p : Plan) (s s' : S) (n : ℕ) (r : S × (Progress × Option Error))
      → run_steps h e (steps p) no_progress s ≡ r
      → check_services h e r ≡ (s', (n, none))
      → Succeeded p s s' n
  unfolding check_services assoc_get
  succeeded p s s' n (s₁, (q, some why)) e₁ g = absurd (ground arith)
  succeeded p s s' n (s₁, (q, none)) e₁ g =
      let (expected, asked, reached_them, same) =
        checked q.done n s₁ s' (expect_all h e q.last_action s₁ q.expected) g in
      let noted_all = run_steps-note_all (steps p) no_progress s s₁ q e₁ in
      let summed = ap (λ (x : Progress). x.done) noted_all ∙ note_all-done (steps p) no_progress in
      let all_counted : n ≡ counted_of (steps p) = omega arith in
      record {
        progress = q;
        expected = expected;
        middle = s₁;
        noted = e₁;
        counted = all_counted;
        last = λ k.
            ap (λ (x : Progress). assoc_get k x.last_action) noted_all
            ∙ note_all-last k (steps p) no_progress;
        states = λ k.
            ap (λ (x : Progress). assoc_get k x.expected) noted_all
            ∙ note_all-state k (steps p) no_progress;
        ran_steps = run_steps-Ran (steps p) no_progress s s₁ q e₁;
        asked = (expect_all-Expects h s₁ e q.last_action q.expected).at expected asked;
        reached_states = reached_them;
      }

  -- If executing a plan that is not empty returns no error, then all of its steps have run in
  -- their order, each without an error, and the count that is returned is that of the steps but
  -- for the service steps that have a state to wait for. The run has noted, for each unit, the
  -- last of the service steps on it that have no state to wait for, and the state to wait for of
  -- the last that has one. The states to expect are, on the host behind the run, those to wait for
  -- and, under the name that the host gives the unit, active for a unit whose last action is a
  -- start, restart or reload, and inactive for a stop; a stopped unit that the host does not find
  -- adds none. Each of them was then waited for and reached.
  pub execute_plan-Succeeded :
      (p : Plan) (s s' : S) (n : ℕ)
      → is_empty_plan p ≡ false
      → execute_plan h e p s ≡ (s', (n, none))
      → Succeeded p s s' n
  unfolding execute_plan
  execute_plan-Succeeded p s s' n full g =
      succeeded p s s' n (run_steps h e (steps p) no_progress s) refl (rw full at g)
