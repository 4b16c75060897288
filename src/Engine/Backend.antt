-- ===== src/Engine/Backend.antt =====
-- materia.go, lock.go, host_manager.go, source_manager.go: the fields of `Materia`, and its lock.
use materia.Base.{String, Bool, Option, none, some, List}
use materia.Errors.{Result, ok, err}
use materia.Deps.{Deps}
use materia.Manifests.Hosts.{MateriaManifest}
use materia.Attributes.{AttributesEngine}
use materia.Loader.Stages.{ComponentReader, SecretsManager, Render}
use materia.Planner.Host.{HostState, PlannerConfig}
use materia.Executor.Host.{Host, Executor}

-- `Locker`, as far as it is used: `LockOrWait` and `Unlock`
pub record Locker (S : Type 0) : Type 0 where
  pub lock_or_wait : S → S × Result (Unit {0})
  pub unlock : S → S × Result (Unit {0})

-- a failed `Unlock` is logged
unfoldable pub unlocked : {S A : Type 0} → Locker S → S × A → S × A
unlocked l (s, a) = ((l.unlock s).0, a)

-- a body between `lock` and the deferred `unlock`; what it returns if there is no lock is given
unfoldable pub locked_body :
    {S A : Type 0} → Locker S → A → (S → S × A) → S × Result (Unit {0}) → S × A
unfolding unlocked
locked_body l failed body (s, ok u) = unlocked l (body s)
locked_body l failed body (s, err e) = (s, failed)

unfoldable pub with_lock : {S A : Type 0} → Option (Locker S) → A → (S → S × A) → S → S × A
unfolding locked_body unlocked
with_lock none failed body s = body s
with_lock (some l) failed body s = locked_body l failed body (l.lock_or_wait s)

module _ ⦃D : Deps⦄ where
  pub record Materia (S : Type 0) : Type 0 where
    pub list_component_names : S → Result (List String)
    pub list_installed_components : S → Result (List String)
    pub host_reader : S → ComponentReader
    pub secrets : S → SecretsManager
    pub host_state : S → HostState
    pub host : Host S
    pub purge_component_by_name : String → S → S × Result (Unit {0})
    pub source_reader : S → ComponentReader
    pub vault : AttributesEngine
    pub render : Render
    pub as_text : D.Value → Option String
    pub locker : Option (Locker S)
    pub manifest : MateriaManifest
    pub executor : Executor
    pub planner : PlannerConfig
    pub hostname : String
    pub roles : List String
    pub rollback : Bool
    pub app_mode : Bool
