-- ===== src/Commands.antt =====
-- internal/materia, cmd/materia/main.go and server.go: what the commands and the server do with a
-- `Materia`. What they print is left out.
pub mod Server
pub mod Directories
pub mod Setup
pub mod Made
pub mod Started
pub mod Updated
pub mod Served
use materia.Base.{String, Bool, true, false, Option, none, some, ℕ, List, [], ◌==◌, if◌then◌else◌}
use materia.Errors.{Error, Result, ok, err, ◌>>=◌, need_rollback, notification_failed}
use materia.Deps.{Deps}
use materia.Sources.{SyncOpts}
use materia.Plan.Build.{Plan}
use materia.Planner.Planning.{make_plan}
use materia.Executor.Host.{Exec, after, ◌>=>◌, finish}
use materia.Executor.Run.{execute_plan}
use materia.Engine.Backend.{Materia}
use materia.Engine.Planning.{plan, load_installed}
use materia.Engine.Execution.{ExecutionReport, execute, purge_all, validate_components}

-- the messages that are sent
pub data Notice : Type 0 where
  rollback_initiated : Notice
  sync_failed plan_failed invalid_plan save_failed : Error → Notice
  execution_failed : Error → ℕ → ℕ → Notice

unfoldable pub is_need_rollback : Error → Bool
is_need_rollback need_rollback = true
is_need_rollback _ = false

module _ ⦃D : Deps⦄ where
  -- a `Materia` with what its sources, its notifier, its repositories and its output directory do
  pub record Instance (S : Type 0) : Type 0 where
    pub materia : Materia S
    pub sync : Option SyncOpts → Exec S (Unit {0})
    pub roll_back : Exec S (Unit {0})
    pub notify : String → Notice → Exec S (Unit {0})
    pub save_plan : Plan → String → Exec S (Unit {0})
    pub clean_host : Exec S (Unit {0})
    pub clean_source : Exec S (Unit {0})
    pub clean_output : Exec S (Unit {0})

  module _ {S : Type 0} (i : Instance S) where
    error_of : {A : Type 0} → S × (A × Option Error) → S × Result (Unit {0})
    error_of (s, (x, none)) = (s, ok tt)
    error_of (s, (x, some e)) = (s, err e)

    -- the update after the sources were rolled back
    unfoldable pub update_again : Exec S (Unit {0})
    unfolding error_of
    update_again = i.notify "rollback" rollback_initiated >=> λ _.
        i.roll_back >=> λ _. plan i.materia >=> λ p s. error_of (execute i.materia p s)

    unfoldable pub or_rolled_back : S × (ExecutionReport × Option Error) → S × Result (Unit {0})
    unfolding update_again is_need_rollback
    or_rolled_back (s, (x, none)) = (s, ok tt)
    or_rolled_back (s, (x, some e)) = if is_need_rollback e then update_again s else (s, err e)

    -- the command `update`: the plan that is saved is the first one, also behind a rollback
    unfoldable pub update : Exec S (Unit {0})
    unfolding or_rolled_back
    update = plan i.materia >=> λ p.
        (λ s. or_rolled_back (execute i.materia p s)) >=> λ _. i.save_plan p "lastrun.toml"

    unfoldable pub remove_all_components : Exec S (Unit {0})
    unfolding error_of
    remove_all_components s =
        (finish (
              i.materia.list_component_names s >>= λ names.
              load_installed i.materia s names >>= λ installed.
              make_plan (i.materia.host_state s) i.materia.planner installed [])
            >=> λ p t. error_of (execute_plan i.materia.host i.materia.executor p t))
          s

    -- Materia.Clean
    unfoldable pub clean : Bool → Exec S (Unit {0})
    unfolding remove_all_components
    clean force = (if force then finish (ok tt) else remove_all_components) >=> λ _.
        i.clean_host >=> λ _. i.clean_source >=> λ _. i.clean_output
