-- ===== src/Samples/Plans.antt =====
-- The theorems on plans at small plans and lists of steps.
use materia.Base.{
  sort_texts, arith, ◌<◌, String, ◌≡◌, refl, ◌↔◌, ◌⊎◌, [], ◌∷◌, ◌++◌, true, false, any, contains,
  ◌||◌, some, Pairwise, All, map,
}
use materia.Errors.{ok, OnOk}
use materia.Deps.Model.{list_deps}
use materia.Components.Kind.{container, kind_eq, kind_code, combined, component}
use materia.Actions.{
  Action, enable, install, start, stop, dump, remove, make_action, reload_host, todo_eq, todo_code,
  parent_name,
}
use materia.Plan.Build.{new_plan, add_action}
use materia.Plan.Steps.{merge_steps_into_plan, coalesce_services, is_switch}
use materia.Plan.Validator.{
  validate_reload, validate_dumps, validate_installs, validate_combined, installs_unit,
  reloads_units, dump_loop, removes_volume, dumps_volume, note_removal, install_loop,
}
use materia.Plan.Priority.{priority_of, quadlet_row}
use materia.Plan.Contents.{Stored, add_action-Stored}
use materia.Plan.Merge.{Interleave, merge-Interleave}
use materia.Plan.Dumps.{NotDumpedAfter, validate_dumps_iff}
use materia.Plan.Installs.{installs_named, validate_installs_sound}
use materia.Plan.Checks.{validate_reload_iff, validate_combined_iff}
use materia.Plan.Coalesce.{coalesce_services_lem, strongest, units_from, enabling, or_no_action}
use materia.Plan.Phases.{priority_of-Before}
use materia.Samples.Data.{
  install_web, start_web, stop_web, data_volume, host_web, source_web, new_web,
}

add_action-Stored_example : OnOk (Stored new_plan install_web 1) (add_action new_plan install_web)
add_action-Stored_example = add_action-Stored new_plan install_web

merge-Interleave_example :
    Interleave
      (install_web ∷ [])
      (stop_web ∷ start_web ∷ [])
      (merge_steps_into_plan (install_web ∷ []) (stop_web ∷ start_web ∷ []))
merge-Interleave_example = merge-Interleave (install_web ∷ []) (stop_web ∷ start_web ∷ [])

coalesce_services_lem_example :
    coalesce_services (stop_web ∷ start_web ∷ [])
    ≡ enabling (stop_web ∷ start_web ∷ [])
      ++ map
          (λ k. or_no_action (strongest k (stop_web ∷ start_web ∷ [])))
          (sort_texts (units_from [] (stop_web ∷ start_web ∷ [])))
coalesce_services_lem_example = coalesce_services_lem (stop_web ∷ start_web ∷ [])

validate_reload_iff_example : (validate_reload (install_web ∷ reload_host ∷ []) ≡ ok tt) ↔ (
    (any installs_unit (install_web ∷ reload_host ∷ []) ≡ false)
    ⊎ (any reloads_units (install_web ∷ reload_host ∷ []) ≡ true))
validate_reload_iff_example = validate_reload_iff (install_web ∷ reload_host ∷ [])

validate_combined_iff_example :
    (validate_combined (install_web ∷ []) ≡ ok tt)
    ↔ All (λ a. kind_eq a.target.kind combined ≡ false) (install_web ∷ [])
validate_combined_iff_example = validate_combined_iff (install_web ∷ [])

abbrev dump_data : Action
dump_data = make_action dump host_web data_volume

abbrev remove_data : Action
remove_data = make_action remove host_web data_volume

dumped-valid : validate_dumps (dump_data ∷ remove_data ∷ []) ≡ ok tt
unfolding validate_dumps dump_loop removes_volume dumps_volume note_removal kind_eq kind_code
    todo_eq todo_code
dumped-valid = refl

validate_dumps_iff_example :
    (validate_dumps (dump_data ∷ remove_data ∷ []) ≡ ok tt)
    ↔ Pairwise NotDumpedAfter (dump_data ∷ remove_data ∷ [])
validate_dumps_iff_example = validate_dumps_iff (dump_data ∷ remove_data ∷ [])

installed-valid : validate_installs ("web" ∷ []) (reload_host ∷ install_web ∷ []) ≡ ok tt
unfolding validate_installs install_loop kind_eq kind_code todo_eq todo_code parent_name
installed-valid = refl

installs : todo_eq install install ≡ true
unfolding todo_eq todo_code
installs = refl

no_component : kind_eq container component ≡ false
unfolding kind_eq kind_code
no_component = refl

validate_installs_sound_example :
    (name : String) × (parent_name install_web ≡ ok name)
    × ((contains ("web" ∷ []) name || any (installs_named name) (reload_host ∷ [])) ≡ true)
validate_installs_sound_example =
    validate_installs_sound ("web" ∷ []) (reload_host ∷ []) install_web [] installed-valid installs
      no_component

stop_priority : priority_of container stop ≡ some 1
unfolding priority_of quadlet_row
stop_priority = refl

start_priority : priority_of container start ≡ some 6
unfolding priority_of quadlet_row
start_priority = refl

priority_of-Before_example : 1 < 6
priority_of-Before_example =
    priority_of-Before container container stop start 1 6 (omega arith) stop_priority start_priority

abbrev enable_web : Action
enable_web = make_action enable source_web new_web

enabled-switch : is_switch enable_web ≡ true
unfolding is_switch todo_eq todo_code
enabled-switch = refl
