-- ===== src/Executor/Services.antt =====
-- service_helpers.go: starting, stopping and waiting for the unit of a step.
use materia.Base.{ℕ, String, Bool, ◌&&◌, not, Option, none, some, if◌then◌else◌}
use materia.Errors.{
  Error, Result, ok, err, panic, not_a_service, service_unhealthy, state_change_failed,
}
use materia.Deps.{Deps}
use materia.Components.Kind.{kind_eq, host, service}
use materia.Components.Resource.{Resource, validate_resource, is_quadlet, service_of}
use materia.Actions.{
  ActionType, start, stop, restart, reload, enable, disable, Action, ActionMetadata,
  validate_action,
}
use materia.Services.{
  ServiceCommand, new_service_state, restart_unit, start_unit, stop_unit, enable_unit, disable_unit,
  reload_service, reload_units,
}
use materia.Executor.Host.{Host, Exec, apply_service, wait_until_state, ◌>=>◌, finish}

module _ ⦃D : Deps⦄ where
  -- any other type panics
  unfoldable pub service_type : ActionType → Resource → Result ServiceCommand
  unfolding kind_eq
  service_type disable res = ok disable_unit
  service_type enable res = ok enable_unit
  service_type reload res = if kind_eq res.kind host then ok reload_units else ok reload_service
  service_type restart res = ok restart_unit
  service_type start res = ok start_unit
  service_type stop res = ok stop_unit
  service_type _ res = err panic

  unfoldable pub get_service_type : Action → Result ServiceCommand
  get_service_type a = service_type a.todo a.target

  unfoldable pub or_default : Option ℕ → ℕ → ℕ
  or_default none timeout = timeout
  or_default (some given) timeout = given

  unfoldable pub timeout_of : Option ActionMetadata → ℕ → ℕ
  unfolding or_default
  timeout_of none timeout = timeout
  timeout_of (some m) timeout = or_default m.service_timeout timeout

  unfoldable pub is_no_service : Resource → Bool
  unfolding is_quadlet kind_eq
  is_no_service res =
      not (is_quadlet res) && (not (kind_eq res.kind service) && not (kind_eq res.kind host))

  -- `ErrServiceUnhealthy` wraps a failed change of state
  unfoldable pub unhealthy : Error → Error
  unhealthy state_change_failed = service_unhealthy
  unhealthy e = e

  unfoldable pub marked : {S : Type 0} → S × Result (Unit {0}) → S × Result (Unit {0})
  unfolding unhealthy
  marked (s, ok u) = (s, ok u)
  marked (s, err e) = (s, err (unhealthy e))

  unfoldable pub modify_service : {S : Type 0} → Host S → Action → ℕ → Exec S (Unit {0})
  modify_service h command timeout = finish (validate_action command) >=> λ _.
      if is_no_service command.target
      then finish (err not_a_service)
      else (finish (validate_resource command.target) >=> λ _.
          finish (get_service_type command) >=> λ cmd s. marked (
            h.perform
              (apply_service (service_of command.target) cmd (timeout_of command.metadata timeout))
              s))

  unfoldable pub wait_for : {S : Type 0} → Host S → Action → ℕ → String → Exec S (Unit {0})
  wait_for h command timeout state =
      if is_no_service command.target
      then finish (err not_a_service)
      else (finish (validate_resource command.target) >=> λ _ s. marked (
          h.perform
            (wait_until_state (service_of command.target) (new_service_state state)
              (timeout_of command.metadata timeout))
            s))

  -- `ServiceUntilState` of the metadata, if both are there
  unfoldable pub until_state : Option ActionMetadata → Option String
  until_state none = none
  until_state (some m) = m.service_until_state

  unfoldable pub wait_if : {S : Type 0} → Host S → Action → ℕ → Option String → Exec S (Unit {0})
  wait_if h command timeout none = finish (ok tt)
  wait_if h command timeout (some state) = wait_for h command timeout state

  unfoldable pub wait_service : {S : Type 0} → Host S → Action → ℕ → Exec S (Unit {0})
  wait_service h command timeout = finish (validate_action command) >=> λ _.
      wait_if h command timeout (until_state command.metadata)
