-- ===== src/Errors.antt =====
-- Go's errors as values. A constructor stands for one place that makes an error; `fmt.Errorf` with
-- `%w` keeps the cause, and the text of a message is not modelled.
use materia.Base.{◌≡◌, refl, subst, Bool, true, false, if◌then◌else◌}

pub data Error : Type 0 where
  -- a dereferenced nil pointer or an index out of range, which stops the program
  panic : Error
  -- pkg/components
  unnamed_component unknown_component_state setup_without_cleanup cleanup_without_setup : Error
  resource_in_set resource_not_found service_config_not_found unnamed_service_config : Error
  named_host_resource unknown_resource_type unnamed_resource resource_without_parent : Error
  no_extension not_a_quadlet bad_unit_file invalid_resource bad_filename : Error
  -- pkg/manifests
  nil_manifest unnamed_host unnamed_host_component unnamed_role : Error
  host_not_in_manifest component_not_assigned : Error
  -- pkg/actions, pkg/plan
  unknown_action action_without_parent file_action_without_diff no_diffs : Error
  no_default_priority : Error
  missing_reload combined_resource no_podman_object deleted_before_dump : Error
  resource_before_component : Error
  -- pkg/planner
  two_components empty_tree unnamed_tree tree_not_found : Error
  not_fresh not_to_be_removed not_a_volume empty_live_service : Error
  not_a_service_action not_a_service_resource invalid_container_quadlet : Error
  -- pkg/services, pkg/containers
  service_not_found podman_object_not_found state_change_failed operation_timed_out : Error
  unnamed_service no_active_state no_file_state job_unfinished wait_cancelled : Error
  host_failure : Error
  -- os, io/fs and path/filepath
  not_exist file_exists not_a_directory is_a_directory directory_not_empty no_relative_path : Error
  -- internal/repository
  invalid_parent no_such_resource secret_in_repository corrupt_component : Error
  invalid_component no_component data_left_over no_search_paths no_prefix half_scripted : Error
  -- pkg/sourceman
  rollback_unsupported no_sync_report rollback_to_nothing no_remote_source : Error
  -- pkg/lock
  lock_in_use : Error
  -- internal/materia
  no_vaults not_a_text lock_failed not_installed nothing_to_plan need_rollback : Error
  -- cmd/materia
  notification_failed : Error
  -- pkg/notify
  unknown_trigger : Error
  -- settings
  no_quadlet_dir no_service_dir no_scripts_dir no_source_dir no_materia_dir no_output_dir : Error
  unknown_rollback bad_settings no_source_url unknown_source_kind : Error
  -- pkg/executor
  unsupported_resource_type no_handler no_command service_unhealthy : Error
  not_a_service unknown_final_action final_state_unhealthy : Error

pub data Result {ℓ} (A : Type ℓ) : Type ℓ where
  ok : A → Result A
  err : Error → Result A

infixl 5 ◌>>=◌ ◌>>◌
abbrev pub ◌>>=◌ {ℓ ν} : {X : Type ℓ} {Y : Type ν} → Result X → (X → Result Y) → Result Y
err why >>= next = err why
ok x >>= next = next x

-- the result of the first step is not used
abbrev pub ◌>>◌ {ℓ ν} : {X : Type ℓ} {Y : Type ν} → Result X → Result Y → Result Y
step >> rest = step >>= λ _. rest

-- `if … { return err }`
abbrev pub fail_if : Bool → Error → Result (Unit {0})
fail_if true e = err e
fail_if false e = ok tt

pub >>=-eq-ok {ℓ ν} :
    {X : Type ℓ} {Y : Type ν} {y : Y} (step : Result X) (next : X → Result Y)
    → (step >>= next) ≡ ok y
    → (x : X) × (step ≡ ok x) × (next x ≡ ok y)
>>=-eq-ok (err why) next h = cc
>>=-eq-ok (ok x) next h = (x, refl, h)

-- what a successful result satisfies, with the ways to prove it
pub record OnOk {ℓ ν} {A : Type ℓ} (Q : A → Type ν) (m : Result A) : Type (ℓ ⊔ ν) where
  pub at : (a : A) → m ≡ ok a → Q a

pub ok_injective {ℓ} : {A : Type ℓ} {a b : A} → ok a ≡ ok b → a ≡ b
ok_injective h = cc

pub OnOk-ok {ℓ ν} : {A : Type ℓ} {Q : A → Type ν} {a : A} → Q a → OnOk Q (ok a)
OnOk-ok {Q} q = record { at = λ b e. subst Q (ok_injective e) q }

pub OnOk-err {ℓ ν} : {A : Type ℓ} {Q : A → Type ν} (e : Error) → OnOk Q (err e)
OnOk-err e = record { at = λ a h. cc }

pub OnOk-bind {ℓ κ ν} :
    {A : Type ℓ} {B : Type κ} {Q : B → Type ν} (m : Result A) (f : A → Result B)
    → ((a : A) → m ≡ ok a → OnOk Q (f a))
    → OnOk Q (m >>= f)
OnOk-bind (ok a) f k = k a refl
OnOk-bind (err e) f k = OnOk-err e

pub OnOk-if {ℓ ν} :
    {A : Type ℓ} {Q : A → Type ν} (b : Bool) (m n : Result A)
    → (b ≡ true → OnOk Q m)
    → (b ≡ false → OnOk Q n)
    → OnOk Q (if b then m else n)
OnOk-if true m n km kn = km refl
OnOk-if false m n km kn = kn refl

-- a step whose result is known to satisfy `P`
pub OnOk-step {ℓ κ μ ν} :
    {A : Type ℓ} {B : Type κ} {P : A → Type μ} {Q : B → Type ν} (m : Result A) (f : A → Result B)
    → OnOk P m
    → ((a : A) → P a → OnOk Q (f a))
    → OnOk Q (m >>= f)
OnOk-step (ok a) f h k = k a (h.at a refl)
OnOk-step (err e) f h k = OnOk-err e

-- a result that satisfies more
pub OnOk-map {ℓ μ ν} :
    {A : Type ℓ} {P : A → Type μ} {Q : A → Type ν} (m : Result A)
    → OnOk P m
    → ((a : A) → P a → Q a)
    → OnOk Q m
OnOk-map m h f = record { at = λ a e. f a (h.at a e) }

pub ruleset on_ok = (OnOk-ok, OnOk-err, OnOk-if)
