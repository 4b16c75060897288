-- ===== src/Notify.antt =====
-- pkg/notify: where a notification goes. The sending of a message is a parameter.
use materia.Base.{String, Option, none, some, List, [], ◌∷◌, ◌==◌, if◌then◌else◌, contains}
use materia.Errors.{Result, ok, err, ◌>>=◌, unknown_trigger}
use materia.Deps.{assoc_get}
use materia.Executor.Host.{Exec, finish}

-- the destinations by the kinds of events
abbrev pub NotifyConfig : Type 0
NotifyConfig = List (String × String)

abbrev notify_types : List String
notify_types = "unknown" ∷ "default" ∷ "update" ∷ "rollback" ∷ []

unfoldable pub new_notify_type : String → String
new_notify_type name = if contains notify_types name then name else "unknown"

unfoldable pub validate_triggers : NotifyConfig → Result (Unit {0})
validate_triggers [] = ok tt
validate_triggers ((k, v) ∷ triggers) =
    let rest = validate_triggers triggers in
    if contains notify_types k then rest else err unknown_trigger

unfoldable pub new_notifier : NotifyConfig → Result NotifyConfig
unfolding validate_triggers
new_notifier c = validate_triggers c >>= λ _. ok c

-- an empty destination is as none, and then the default one is taken, if there is one
unfoldable pub destination : NotifyConfig → Option String → Option String
destination c none = assoc_get "default" c
destination c (some dest) = if dest == "" then assoc_get "default" c else some dest

module _ {S : Type 0} (send_message : String → String → Exec S (Unit {0})) where
  unfoldable pub notify_to : Option String → String → Exec S (Unit {0})
  notify_to none msg = finish (ok tt)
  notify_to (some dest) msg = send_message dest msg

  unfoldable pub notify : NotifyConfig → String → String → Exec S (Unit {0})
  unfolding notify_to destination
  notify [] event msg = finish (ok tt)
  notify (t ∷ ts) event msg =
      if new_notify_type event == "unknown"
      then finish (err unknown_trigger)
      else notify_to (destination (t ∷ ts) (assoc_get (new_notify_type event) (t ∷ ts))) msg
