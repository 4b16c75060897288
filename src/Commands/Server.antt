-- ===== src/Commands/Server.antt =====
-- server.go: the rounds of the background loops and the handler of the update hook.
use materia.Base.{
  ℕ, zero, suc, String, Bool, false, Option, none, some, ◌==◌, ◌&&◌, not, if◌then◌else◌,
}
use materia.Errors.{Error, Result, ok, err, notification_failed}
use materia.Deps.{Deps}
use materia.Plan.Build.{Plan}
use materia.Executor.Host.{Exec, ◌>=>◌, finish}
use materia.Engine.Planning.{plan}
use materia.Engine.Execution.{ExecutionReport, execute}
use materia.Commands.{
  Instance, Notice, sync_failed, plan_failed, invalid_plan, save_failed, execution_failed,
}

-- `if err != nil { … }` with what follows it
abbrev pub settle :
    {S A B : Type 0} → S × Result A → (Error → Exec S B) → (A → Exec S B) → S × Result B
settle (s, ok a) failed next = next a s
settle (s, err e) failed next = failed e s

pub record UpdatePayload : Type 0 where
  pub revision : String
  pub update : Bool
  pub secret : String

-- what the hook answers; if it is accepted, whether the program quits
pub data Reply : Type 0 where
  method_not_allowed invalid_payload unauthorized : Reply
  accepted : Bool → Reply

module _ ⦃D : Deps⦄ {S : Type 0} (i : Instance S) (quit_on_error : Bool) where
  -- an error is told, and ends the loop if the server is set to quit or cannot tell it
  unfoldable pub told_by : Error → S × Result (Unit {0}) → S × Result (Unit {0})
  told_by e (s, err n) = (s, err notification_failed)
  told_by e (s, ok u) = if quit_on_error then (s, err e) else (s, ok tt)

  unfoldable pub told : Notice → Error → Exec S (Unit {0})
  unfolding told_by
  told notice e s = told_by e (i.notify "default" notice s)

  unfoldable pub executed : Plan → S × (ExecutionReport × Option Error) → S × Result (Unit {0})
  unfolding told
  executed p (s, (x, none)) =
      settle (i.save_plan p "lastrun.toml" s) (λ e. told (save_failed e) e) (λ _. finish (ok tt))
  executed p (s, (x, some e)) = told (execution_failed e x.steps_completed p.size) e s

  -- what `backgroundSync` does when its timer fires
  unfoldable pub sync_round : Exec S (Unit {0})
  unfolding executed told
  sync_round s =
      settle (i.sync none s) (λ e. told (sync_failed e) e)
        (λ _ t.
          settle (plan i.materia t) (λ e. told (plan_failed e) e)
            (λ p u. executed p (execute i.materia p u)))

  -- the loop until its context is done, which is after the given number of rounds
  unfoldable pub background_sync : ℕ → Exec S (Unit {0})
  unfolding sync_round
  background_sync zero = finish (ok tt)
  background_sync (suc n) = sync_round >=> λ _. background_sync n

  unfoldable pub plan_round : Exec S (Unit {0})
  unfolding told
  plan_round s = settle (plan i.materia s) (λ e. told (invalid_plan e) e) (λ p. finish (ok tt))

  unfoldable pub background_plan : ℕ → Exec S (Unit {0})
  unfolding plan_round
  background_plan zero = finish (ok tt)
  background_plan (suc n) = plan_round >=> λ _. background_plan n

  -- in the hook, a notification that fails is logged
  unfoldable pub hook_failed : Notice → S → S × Reply
  hook_failed notice s = ((i.notify "default" notice s).0, accepted quit_on_error)

  unfoldable pub hook_saved : S × Result (Unit {0}) → S × Reply
  unfolding hook_failed
  hook_saved (s, ok u) = (s, accepted false)
  hook_saved (s, err e) = hook_failed (save_failed e) s

  unfoldable pub hook_executed : Plan → S × (ExecutionReport × Option Error) → S × Reply
  unfolding hook_saved
  hook_executed p (s, (x, none)) = hook_saved (i.save_plan p "lastrun.toml" s)
  hook_executed p (s, (x, some e)) = hook_failed (execution_failed e x.steps_completed p.size) s

  unfoldable pub hook_planned : S × Result Plan → S × Reply
  unfolding hook_executed
  hook_planned (s, ok p) = hook_executed p (execute i.materia p s)
  hook_planned (s, err e) = hook_failed (plan_failed e) s

  unfoldable pub hook_synced : S × Result (Unit {0}) → S × Reply
  unfolding hook_planned
  hook_synced (s, ok u) = hook_planned (plan i.materia s)
  hook_synced (s, err e) = hook_failed (sync_failed e) s

  -- the payload is decoded from JSON if the method is POST
  unfoldable pub update_hook_handler : String → Bool → Result UpdatePayload → S → S × Reply
  unfolding hook_synced
  update_hook_handler sync_secret is_post (err e) s =
      (s, if is_post then invalid_payload else method_not_allowed)
  update_hook_handler sync_secret is_post (ok payload) s =
      if not is_post
      then (s, method_not_allowed)
      else if not (sync_secret == "") && not (sync_secret == payload.secret)
      then (s, unauthorized)
      else hook_synced (i.sync (some (record { revision = payload.revision; subpath = "" })) s)
