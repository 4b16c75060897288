-- ===== src/Executor/Host.antt =====
-- host.go, service_helpers.go: what the executor asks of the host. A call may change the host, also
-- when it fails; a question does not. A step of the executor takes the host's state to the next.
use materia.Base.{ℕ, String, Bool, List}
use materia.Errors.{Result, ok, err}
use materia.Deps.{Deps}
use materia.Services.{Service, ServiceState, ServiceCommand}
use materia.Components.Resource.{Resource}
use materia.Components.Component.{Component}

module _ ⦃D : Deps⦄ where
  pub data Call : Type 0 where
    install_component update_component remove_component : Component → Call
    install_resource : Resource → String → Call
    remove_resource : Resource → Call
    install_script install_unit : String → String → Call
    remove_script remove_unit : String → Call
    write_secret : String → String → Call
    remove_secret : String → Call
    apply_service : String → ServiceCommand → ℕ → Call
    wait_until_state : String → ServiceState → ℕ → Call
    run_oneshot_command : ℕ → String → List String → Call
    exec_container : String → List String → Call
    remove_volume remove_network remove_image : String → Call
    dump_volume import_volume : String → String → Call

  -- the containers that a question finds, by name
  pub record Host (S : Type 0) : Type 0 where
    pub perform : Call → S → S × Result (Unit {0})
    pub get_service : String → S → Result Service
    pub containers_with_volume : String → S → Result (List String)
    pub containers_with_image : String → S → Result (List String)
    pub network_containers : String → S → Result (List String)

pub record ExecutorConfig : Type 0 where
  pub cleanup_components : Bool
  pub materia_dir : String
  pub quadlet_dir : String
  pub scripts_dir : String
  pub service_dir : String
  pub output_dir : String

module _ ⦃D : Deps⦄ where
  -- the executor without its host; the timeout is a 64-bit pattern
  pub record Executor : Type 0 where
    pub config : ExecutorConfig
    pub default_timeout : ℕ

abbrev pub Exec : Type 0 → Type 0 → Type 0
Exec S A = S → S × Result A

infixl 5 ◌>=>◌
abbrev pub after : {S A B : Type 0} → S × Result A → (A → Exec S B) → S × Result B
after (s, ok a) next = next a s
after (s, err e) next = (s, err e)

abbrev pub ◌>=>◌ : {S A B : Type 0} → Exec S A → (A → Exec S B) → Exec S B
(step >=> next) s = after (step s) next

abbrev pub finish : {S A : Type 0} → Result A → Exec S A
finish r s = (s, r)
