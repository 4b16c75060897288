-- ===== src/Services.antt =====
-- pkg/services: the states of a systemd unit (service_state.go), services and unit names
-- (services.go) and the service set (service_set.go). A `ServiceState` is a text, as in Go.
pub mod Manager
pub mod Waiting
use Prim.Native.String.{compare}
use materia.Base.{
  String, Bool, List, [], ◌∷◌, Ordering, ◌==◌, if◌then◌else◌, contains, replace_all, ext,
}
use materia.Errors.{Result, ok, err, service_not_found}
use materia.Deps.{Deps}

abbrev pub ServiceState : Type 0
ServiceState = String

abbrev pub state_unknown : ServiceState
state_unknown = "unknown"

abbrev pub state_active : ServiceState
state_active = "active"

abbrev pub state_inactive : ServiceState
state_inactive = "inactive"

abbrev pub state_activating : ServiceState
state_activating = "activating"

-- any state is allowed; never read from systemd, and not in the table below
abbrev pub state_wildcard : ServiceState
state_wildcard = "wildcard"

-- the keys of serviceStateMap, each mapped to itself
abbrev pub service_state_names : List String
service_state_names =
    "unknown" ∷ "active" ∷ "reloading" ∷ "inactive" ∷ "failed" ∷ "activating" ∷ "deactivating"
    ∷ "maintenance" ∷ "refreshing" ∷ []

unfoldable pub new_service_state : String → ServiceState
new_service_state name = if contains service_state_names name then name else state_unknown

-- the keys of serviceEnableStateMap; all but one are mapped to themselves
abbrev pub enable_state_names : List String
enable_state_names =
    "unknown" ∷ "enabled" ∷ "linked" ∷ "linked-runtime" ∷ "alias" ∷ "masked" ∷ "masked-runtime"
    ∷ "static" ∷ "indirect" ∷ "disabled" ∷ "generated" ∷ "transient" ∷ "bad" ∷ []

unfoldable pub new_service_enable_state : String → String
new_service_enable_state name =
    if name == "enabled-runtime"
    then "enabled"
    else if contains enable_state_names name
    then name
    else "unknown"

abbrev pub enable_state_enabled : String
enable_state_enabled = "enabled"

abbrev pub enable_state_disabled : String
enable_state_disabled = "disabled"

pub record Service : Type 0 where
  pub name : String
  pub state : ServiceState
  pub type : String
  pub enabled : String

-- Go's zero value `Service{}`
abbrev pub no_service : Service
no_service = record { name = ""; state = ""; type = ""; enabled = "" }

-- the constants of `ServiceAction`
pub data ServiceCommand : Type 0 where
  restart_unit start_unit stop_unit enable_unit disable_unit reload_service reload_units :
      ServiceCommand

unfoldable pub started : Service → Bool
started s = s.state == state_active

-- the unit that podman's generator makes of a quadlet file; other names stay
unfoldable pub path_to_service : String → String
path_to_service name =
    let kind = ext name in
    if kind == ".container"
    then replace_all name ".container" ".service"
    else if kind == ".kube"
    then replace_all name ".kube" ".service"
    else if kind == ".pod"
    then replace_all name ".pod" "-pod.service"
    else if kind == ".network"
    then replace_all name ".network" "-network.service"
    else if kind == ".volume"
    then replace_all name ".volume" "-volume.service"
    else if kind == ".build"
    then replace_all name ".build" "-build.service"
    else if kind == ".image"
    then replace_all name ".image" "-image.service"
    else name

unfoldable pub compare_service : Service → Service → Ordering
compare_service left right = compare left.name right.name

-- `ServiceSet.Get`
unfoldable pub find_service : String → List Service → Result Service
find_service name [] = err service_not_found
find_service name (s ∷ r) = if s.name == name then ok s else find_service name r

module _ ⦃D : Deps⦄ where
  abbrev pub ServiceSet : Type 0
  ServiceSet = D.set.Set Service compare_service

  abbrev pub new_service_set : ServiceSet
  new_service_set = D.set.new

  unfoldable pub add_service : ServiceSet → Service → ServiceSet
  add_service s serv = D.set.add serv s

  unfoldable pub list_services : ServiceSet → List Service
  list_services s = D.set.values s

  unfoldable pub names_of : List Service → List String
  names_of [] = []
  names_of (s ∷ r) = s.name ∷ names_of r

  unfoldable pub list_service_names : ServiceSet → List String
  list_service_names s = names_of (D.set.values s)

  unfoldable pub get_service_of : ServiceSet → String → Result Service
  get_service_of s name = find_service name (D.set.values s)

  unfoldable pub add_services : ServiceSet → List Service → ServiceSet
  add_services s [] = s
  add_services s (x ∷ xs) = add_services (add_service s x) xs

  unfoldable pub union_services : ServiceSet → ServiceSet → ServiceSet
  union_services r other =
      add_services (add_services new_service_set (list_services r)) (list_services other)

  unfoldable pub missing_from : ServiceSet → List Service → List Service
  missing_from other [] = []
  missing_from other (x ∷ xs) =
      if D.set.contains x other then missing_from other xs else x ∷ missing_from other xs

  unfoldable pub shared_with : ServiceSet → List Service → List Service
  shared_with other [] = []
  shared_with other (x ∷ xs) =
      if D.set.contains x other then x ∷ shared_with other xs else shared_with other xs

  unfoldable pub difference_services : ServiceSet → ServiceSet → ServiceSet
  difference_services r other = add_services new_service_set (missing_from other (list_services r))

  unfoldable pub intersection_services : ServiceSet → ServiceSet → ServiceSet
  intersection_services r other = add_services new_service_set (shared_with other (list_services r))
