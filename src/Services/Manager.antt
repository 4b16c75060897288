-- ===== src/Services/Manager.antt =====
-- services.go: the service manager on a connection to systemd. The connection, the clock and the
-- generator's command are parameters: what is asked does not change the host, what is told may.
use materia.Base.{
  ℕ, zero, suc, String, Bool, Option, none, some, List, [], ◌∷◌, ◌==◌, if◌then◌else◌, nat_eq,
  is_empty,
}
use materia.Errors.{
  Error, Result, ok, err, ◌>>=◌, panic, service_not_found, state_change_failed, operation_timed_out,
  unnamed_service, no_active_state, no_file_state, job_unfinished, wait_cancelled,
}
use materia.Deps.{assoc_get}
use materia.Services.{
  Service, ServiceState, ServiceCommand, no_service, new_service_state, new_service_enable_state,
  state_wildcard, restart_unit, start_unit, stop_unit, enable_unit, disable_unit, reload_service,
  reload_units,
}
use materia.Executor.Host.{Exec, ◌>=>◌, finish}

-- a value of a property: D-Bus gives texts and values of other basic types
pub data Property : Type 0 where
  text : String → Property
  other : Property

abbrev pub Properties : Type 0
Properties = List (String × Property)

pub record UnitStatus : Type 0 where
  pub load_state : String

-- the methods that start a job of a unit, each in the mode "fail"
pub data Job : Type 0 where
  restart_job reload_job start_job stop_job : Job

-- what the select of `waitForCallback` takes
pub data Callback : Type 0 where
  cancelled time_over : Callback
  answered : String → Callback

-- what ends a wait from outside
pub data Ending : Type 0 where
  wait_done timer_fired : Ending

-- how often the select of `WaitUntilState` takes the ticker before it takes one of the others
pub record Rounds : Type 0 where
  pub ticks : ℕ
  pub ending : Ending

-- `ServiceManager` without its connection
pub record ServiceManager : Type 0 where
  pub is_root : Bool
  pub dryrun_quadlets : Bool

-- which connection to systemd is made
pub data Connection : Type 0 where
  system_bus user_bus : Connection
  at_socket : String → Connection

-- the name of the current user, the settings, and what makes a connection
unfoldable pub new_services :
    {C : Type 0}
    → Result String
    → Bool
    → String
    → (Connection → Result C)
    → Result (C × ServiceManager)
new_services user dryrun socket connect = do
  username ← user
  let is_root = username == "root"
  conn ←
      connect
        (if socket == "" then (if is_root then system_bus else user_bus) else at_socket socket)
  ok (conn, record { is_root = is_root; dryrun_quadlets = dryrun })

pub record Bus (S : Type 0) : Type 0 where
  pub list_units_by_names : List String → S → Result (List UnitStatus)
  pub get_all_properties : String → S → Result Properties
  pub reload : Exec S (Unit {0})
  pub unit_job : Job → String → Exec S (Unit {0})
  pub enable_unit_files : List String → Exec S (Unit {0})
  pub disable_unit_files : List String → Exec S (Unit {0})
  pub start_transient_unit : String → List String → Exec S (Unit {0})
  pub callback : ℕ → S → S × Callback
  pub generator : List String → Exec S (Unit {0})
  pub rounds : ℕ → S → Rounds
  -- the host a second later
  pub second : S → S

abbrev text_of : Option Property → Option String
text_of (some (text t)) = some t
text_of (some other) = none
text_of none = none

abbrev required : Error → Option String → Result String
required why none = err why
required why (some t) = ok t

abbrev or_non_existent : Option String → String
or_non_existent none = "non-existent"
or_non_existent (some t) = t

unfoldable pub fill_from_properties : Service → Properties → Result Service
fill_from_properties s props = do
  job_state ← required no_active_state (text_of (assoc_get "ActiveState" props))
  file_state ← required no_file_state (text_of (assoc_get "UnitFileState" props))
  ok (record s {
    state = new_service_state job_state;
    type = or_non_existent (text_of (assoc_get "Type" props));
    enabled = new_service_enable_state file_state;
  })

unfoldable pub finished : Callback → Result (Unit {0})
finished cancelled = err wait_cancelled
finished time_over = err operation_timed_out
finished (answered result) =
    if result == "done"
    then ok tt
    else if result == "failed"
    then err state_change_failed
    else err job_unfinished

-- the first unit of the answer, which must be loaded
unfoldable pub must_be_loaded : List UnitStatus → Result (Unit {0})
must_be_loaded [] = err service_not_found
must_be_loaded (u ∷ us) = if u.load_state == "not-found" then err service_not_found else ok tt

-- `activeState == state`: an interface that holds a string is never equal to a `ServiceState`
unfoldable pub equals_state : Option Property → ServiceState → Bool
equals_state p state = Bool.false

-- what one tick finds; `none` goes on waiting
unfoldable pub judged : ServiceState → Option Property → Option (Result (Unit {0}))
judged state (some (text raw)) =
    let active = new_service_state raw in
    if active == state
    then some (ok tt)
    else if active == "failed"
    then some (err state_change_failed)
    else none
judged state (some other) = some (err panic)
judged state none = some (err panic)

unfoldable pub polled : ServiceState → Result Properties → Option (Result (Unit {0}))
unfolding judged
polled state (err e) = some (err e)
polled state (ok props) = judged state (assoc_get "ActiveState" props)

abbrev pub ended : Ending → Error
ended wait_done = wait_cancelled
ended timer_fired = operation_timed_out

abbrev pub or_go_on :
    {S : Type 0} → Option (Result (Unit {0})) → Exec S (Unit {0}) → Exec S (Unit {0})
or_go_on (some r) next s = (s, r)
or_go_on none next s = next s

module _ {S : Type 0} (b : Bus S) where
  unfoldable pub wait_for_callback : ℕ → Exec S (Unit {0})
  unfolding finished
  wait_for_callback timeout s = let (s', c) = b.callback timeout s in (s', finished c)

  unfoldable pub get_service : String → S → Result Service
  unfolding must_be_loaded fill_from_properties
  get_service name s =
      if name == ""
      then err unnamed_service
      else (b.list_units_by_names (name ∷ []) s >>= λ us. must_be_loaded us >>= λ _.
          b.get_all_properties name s >>= λ props.
          fill_from_properties (record no_service { name = name }) props)

  -- the loop over the ticks
  unfoldable pub wait_loop : ℕ → Ending → String → ServiceState → Exec S (Unit {0})
  unfolding polled
  wait_loop zero ending name state s = (s, err (ended ending))
  wait_loop (suc n) ending name state s =
      let next = wait_loop n ending name state in
      or_go_on (polled state (b.get_all_properties name (b.second s))) next (b.second s)

  unfoldable pub wait_listed : String → ServiceState → ℕ → Exec S (Unit {0})
  unfolding equals_state
  wait_listed name state timeout s =
      (finish (b.get_all_properties name s) >=> λ props t.
      if equals_state (assoc_get "ActiveState" props) state
      then (t, ok tt)
      else wait_loop (b.rounds timeout t).ticks (b.rounds timeout t).ending name state t)
        s

  unfoldable pub wait_until_state : String → ServiceState → ℕ → Exec S (Unit {0})
  wait_until_state name state timeout s =
      if state == state_wildcard
      then (s, ok tt)
      else (finish (b.list_units_by_names (name ∷ []) s) >=> λ us t.
            if is_empty us then (t, err service_not_found) else wait_listed name state timeout t)
          s

  unfoldable pub run_oneshot_command : ℕ → String → List String → Exec S (Unit {0})
  run_oneshot_command timeout name actions =
      b.start_transient_unit name actions >=> λ _. wait_for_callback timeout

  module _ (m : ServiceManager) where
    unfoldable pub dryrun_generator : Exec S (Unit {0})
    dryrun_generator =
        b.generator (if m.is_root then "--dryrun" ∷ [] else "--user" ∷ "--dryrun" ∷ [])

    unfoldable pub job_done : Job → String → ℕ → Exec S (Unit {0})
    job_done job name timeout =
        b.unit_job job name >=> λ _. wait_for_callback (if nat_eq timeout 0 then 30 else timeout)

    unfoldable pub apply_service : String → ServiceCommand → ℕ → Exec S (Unit {0})
    apply_service name reload_units timeout =
        if m.dryrun_quadlets then (dryrun_generator >=> λ _. b.reload) else b.reload
    apply_service name restart_unit timeout = job_done restart_job name timeout
    apply_service name enable_unit timeout = b.enable_unit_files (name ∷ [])
    apply_service name disable_unit timeout = b.disable_unit_files (name ∷ [])
    apply_service name reload_service timeout = job_done reload_job name timeout
    apply_service name start_unit timeout = job_done start_job name timeout
    apply_service name stop_unit timeout = job_done stop_job name timeout
