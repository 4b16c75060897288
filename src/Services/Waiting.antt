-- ===== src/Services/Waiting.antt =====
-- What a wait for the state of a unit (services.go) has seen when it ends without an error.
use materia.Base.{
  ℕ, zero, suc, ◌<◌, String, ◌≡◌, ◌≢◌, refl, subst, sym, none, some, Option, [], ◌∷◌, arith, ◌⊎◌,
  inl, inr, ◌==◌, eq_iff, Bool-cases, is_empty,
}
use materia.Errors.{Result, ok, err}
use materia.Deps.{assoc_get}
use materia.Services.{ServiceState, new_service_state, state_wildcard}
use materia.Services.Manager.{
  Bus, Properties, Property, text, other, Ending, judged, polled, or_go_on, wait_loop, wait_listed,
  equals_state, wait_until_state,
}
use materia.Executor.Host.{Exec, ◌>=>◌, finish}

judged-ok :
    (state : ServiceState) (o : Option Property)
    → judged state o ≡ some (ok tt)
    → (raw : String) × (o ≡ some (text raw)) × (new_service_state raw ≡ state)
unfolding judged
judged-ok state (some (text raw)) h = elim (Bool-cases (new_service_state raw == state)) [
  | inl e ↦ (raw, refl, (eq_iff (new_service_state raw) state).0 e)
  | inr e ↦ elim (Bool-cases (new_service_state raw == "failed")) [
    | inl f ↦ absurd (ground (arith, rw (e, f) at h))
    | inr f ↦ absurd (ground (arith, rw (e, f) at h))
  ]
]
judged-ok state (some other) h = absurd (ground arith)
judged-ok state none h = absurd (ground arith)

module _ {S : Type 0} (b : Bus S) where
  -- at a moment, systemd gives the unit a text as its active state that stands for the state
  pub record InState (name : String) (state : ServiceState) (s : S) : Type 0 where
    pub props : Properties
    pub raw : String
    pub asked : b.get_all_properties name s ≡ ok props
    pub active : assoc_get "ActiveState" props ≡ some (text raw)
    pub stands_for : new_service_state raw ≡ state

  -- the host some seconds later
  abbrev pub later : ℕ → S → S
  later zero s = s
  later (suc n) s = later n (b.second s)

  polled-InState :
      (name : String) (state : ServiceState) (s : S)
      → polled state (b.get_all_properties name s) ≡ some (ok tt)
      → InState name state s
  unfolding polled
  polled-InState name state s h = found _ refl h
    where
      found :
          (r : Result Properties)
          → b.get_all_properties name s ≡ r
          → polled state r ≡ some (ok tt)
          → InState name state s
      found (err why) e g = absurd (ground arith)
      found (ok props) e g =
          let (raw, a, f) = judged-ok state (assoc_get "ActiveState" props) g in
          record { props = props; raw = raw; asked = e; active = a; stands_for = f }

  going_on :
      (o : Option (Result (Unit {0}))) (next : Exec S (Unit {0})) (s s' : S)
      → or_go_on o next s ≡ (s', ok tt)
      → ((o ≡ some (ok tt)) × (s' ≡ s)) ⊎ (next s ≡ (s', ok tt))
  going_on (some (ok tt)) next s s' h = inl (refl, ground arith)
  going_on (some (err e)) next s s' h = absurd (ground arith)
  going_on none next s s' h = inr h

  -- a wait that ends well: how many seconds it took, and the state it saw last
  pub record Waited (ticks : ℕ) (name : String) (state : ServiceState) (s s' : S) : Type 0 where
    pub seconds : ℕ
    pub in_time : seconds < ticks
    pub passed : s' ≡ later (suc seconds) s
    pub seen : InState name state s'

  wait_loop-Waited :
      (n : ℕ) (ending : Ending) (name : String) (state : ServiceState) (s s' : S)
      → wait_loop b n ending name state s ≡ (s', ok tt)
      → Waited n name state s s'
  unfolding wait_loop
  wait_loop-Waited zero ending name state s s' h = absurd (ground arith)
  wait_loop-Waited (suc n) ending name state s s' h =
      elim (going_on (polled state (b.get_all_properties name (b.second s)))
        (wait_loop b n ending name state) (b.second s) s' h) [
          | inl (p, same) ↦ record {
            seconds = 0;
            in_time = omega arith;
            passed = same;
            seen = subst (InState name state) (sym same) (polled-InState name state (b.second s) p);
          }
          | inr g ↦
              let w = wait_loop-Waited n ending name state (b.second s) s' g in
              record {
                seconds = suc w.seconds;
                in_time = ground (arith, w.in_time);
                passed = w.passed;
                seen = w.seen;
              }
        ]

  finish-ok :
      {A : Type 0} (r : Result A) (next : A → Exec S (Unit {0})) (s s' : S)
      → (finish r >=> next) s ≡ (s', ok tt)
      → (a : A) × (next a s ≡ (s', ok tt))
  finish-ok (ok a) next s s' h = (a, h)
  finish-ok (err e) next s s' h = absurd (ground arith)

  wait_listed-Waited :
      (name : String) (state : ServiceState) (timeout : ℕ) (s s' : S)
      → wait_listed b name state timeout s ≡ (s', ok tt)
      → Waited (b.rounds timeout s).ticks name state s s'
  unfolding wait_listed equals_state
  wait_listed-Waited name state timeout s s' h =
      let (_, g) = finish-ok (b.get_all_properties name s) _ s s' h in
      wait_loop-Waited (b.rounds timeout s).ticks (b.rounds timeout s).ending name state s s' g

  -- If a wait for any state but the wildcard returns no error, then at least one second has
  -- passed, and not more than there are ticks before the timer or the cancellation, and at the
  -- last of them systemd gave the unit an active state that stands for the one waited for.
  pub wait_until_state-Waited :
      (name : String) (state : ServiceState) (timeout : ℕ) (s s' : S)
      → state ≢ state_wildcard
      → wait_until_state b name state timeout s ≡ (s', ok tt)
      → Waited (b.rounds timeout s).ticks name state s s'
  unfolding wait_until_state
  wait_until_state-Waited name state timeout s s' apart h =
      elim (Bool-cases (state == state_wildcard)) [
        | inl e ↦ absurd (apart ((eq_iff state state_wildcard).0 e))
        | inr e ↦
            let (us, g) = finish-ok (b.list_units_by_names (name ∷ []) s) _ s s' (rw e at h) in
            elim (Bool-cases (is_empty us)) [
              | inl f ↦ absurd (ground (arith, rw f at g))
              | inr f ↦ wait_listed-Waited name state timeout s s' (rw f at g)
            ]
      ]

  pub wait_wildcard :
      (name : String) (state : ServiceState) (timeout : ℕ) (s s' : S)
      → state ≡ state_wildcard
      → wait_until_state b name state timeout s ≡ (s', ok tt)
      → s' ≡ s
  unfolding wait_until_state
  wait_wildcard name state timeout s s' same h =
      ground (arith, rw ((eq_iff state state_wildcard).1 same) at h)
