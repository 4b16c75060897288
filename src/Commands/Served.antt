-- ===== src/Commands/Served.antt =====
-- What the server's loops and its hook are sure to do.
use materia.Base.{
  ℕ, zero, suc, String, Bool, true, false, ◌≡◌, ◌≢◌, refl, ◌∙◌, ◌||◌, ◌&&◌, not, ◌==◌, Option, none,
  some, if◌then◌else◌,
}
use materia.Errors.{Error, Result, ok, err}
use materia.Deps.{Deps}
use materia.Plan.Build.{Plan}
use materia.Executor.Host.{Exec, after}
use materia.Engine.Planning.{plan}
use materia.Engine.Execution.{ExecutionReport, execute}
use materia.Commands.{Instance, Notice}
use materia.Commands.Server.{
  settle, UpdatePayload, told, told_by, executed, sync_round, background_sync, update_hook_handler,
}

passed_guards :
    {S R : Type 0} (a b c : Bool) (s : S) (r r' : R) (z : S × R)
    → (if not a then (s, r) else if not b && not c then (s, r') else z).0 ≢ s
    → (a ≡ true) × ((b || c) ≡ true)
passed_guards false b c s r r' z h = absurd (h refl)
passed_guards true true c s r r' z h = (refl, refl)
passed_guards true false true s r r' z h = (refl, refl)
passed_guards true false false s r r' z h = absurd (h refl)

settled :
    {S A B : Type 0} (P : S × Result B → Type 0) (m : S × Result A) (failed : Error → Exec S B)
    (next : A → Exec S B)
    → ((e : Error) (t : S) → P (failed e t))
    → ((a : A) (t : S) → P (next a t))
    → P (settle m failed next)
settled P (s, ok a) failed next f g = g a s
settled P (s, err e) failed next f g = f e s

-- a step that gives no error
abbrev pub Fine : {S : Type 0} → S × Result (Unit {0}) → Type 0
Fine r = r.1 ≡ ok tt

module _ ⦃D : Deps⦄ {S : Type 0} (i : Instance S) where
  -- If the update hook changes anything, it was called by POST with a payload that could be read,
  -- and the secret of the server is empty or the one of the payload.
  pub update_hook_handler-authorized :
      (quit is_post : Bool) (secret : String) (payload : Result UpdatePayload) (s : S)
      → (update_hook_handler i quit secret is_post payload s).0 ≢ s
      → (p : UpdatePayload) × (payload ≡ ok p)
        × (is_post ≡ true)
        × ((secret == "" || secret == p.secret) ≡ true)
  unfolding update_hook_handler
  update_hook_handler-authorized quit is_post secret (err e) s h = absurd (h refl)
  update_hook_handler-authorized quit is_post secret (ok p) s h =
      let (post, known) = passed_guards is_post (secret == "") (secret == p.secret) s _ _ _ h in
      (p, refl, post, known)

  Fine-state :
      (m : S × Result (Unit {0})) (next : Exec S (Unit {0}))
      → Fine m
      → after m (λ _. next) ≡ next m.0
  Fine-state (s, ok u) next h = refl
  Fine-state (s, err e) next h = cc

  -- the state behind a number of rounds
  abbrev pub rounds : ℕ → S → S
  rounds zero s = s
  rounds (suc n) s = rounds n (sync_round i false s).0

  module _ (heard : (event : String) (n : Notice) (s : S) → Fine (i.notify event n s)) where
    told_by-Fine : (e : Error) (m : S × Result (Unit {0})) → Fine m → Fine (told_by i false e m)
    unfolding told_by
    told_by-Fine e (s, ok u) h = refl
    told_by-Fine e (s, err n) h = cc

    told-Fine : (n : Notice) (e : Error) (s : S) → Fine (told i false n e s)
    unfolding told
    told-Fine n e s = told_by-Fine e (i.notify "default" n s) (heard "default" n s)

    executed-Fine :
        (p : Plan) (m : S × (ExecutionReport × Option Error)) → Fine (executed i false p m)
    unfolding executed
    executed-Fine p (s, (x, none)) =
        settled Fine (i.save_plan p "lastrun.toml" s) _ _ (λ e t. told-Fine _ e t) (λ _ t. refl)
    executed-Fine p (s, (x, some e)) = told-Fine _ e s

    sync_round-Fine : (s : S) → Fine (sync_round i false s)
    unfolding sync_round
    sync_round-Fine s =
        settled Fine (i.sync none s) _ _ (λ e t. told-Fine _ e t)
          (λ _ t.
            settled Fine (plan i.materia t) _ _ (λ e u. told-Fine _ e u)
              (λ p u. executed-Fine p (execute i.materia p u)))

    -- If every notification is delivered and the server is not set to quit on an error, its loop
    -- of updates ends without an error behind any number of rounds in the state that as many
    -- rounds lead to, one after the other, whatever fails in them.
    pub background_sync-goes_on :
        (n : ℕ) (s : S) → background_sync i false n s ≡ (rounds n s, ok tt)
    unfolding background_sync
    background_sync-goes_on zero s = refl
    background_sync-goes_on (suc n) s =
        Fine-state (sync_round i false s) (background_sync i false n) (sync_round-Fine s)
        ∙ background_sync-goes_on n (sync_round i false s).0
