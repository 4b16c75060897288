-- ===== src/Plan/Validator.antt =====
-- validator.go: the checks that every plan passes before it is returned.
use materia.Base.{
  String, Bool, false, ◌&&◌, ◌||◌, List, [], ◌∷◌, ◌++◌, ◌==◌, if◌then◌else◌, not, contains,
}
use materia.Errors.{
  Result, ok, err, ◌>>=◌, ◌>>◌, missing_reload, combined_resource, no_podman_object,
  deleted_before_dump, resource_before_component,
}
use materia.Deps.{Deps}
use materia.Components.Kind.{kind_eq, service, combined, app_file, volume, component}
use materia.Components.Resource.{is_quadlet}
use materia.Actions.{Action, todo_eq, parent_name, install, reload, remove, dump}
use materia.Plan.Build.{Plan, steps}

module _ ⦃D : Deps⦄ where
  unfoldable pub installs_unit : Action → Bool
  unfolding kind_eq is_quadlet todo_eq
  installs_unit a = (kind_eq a.target.kind service || is_quadlet a.target) && todo_eq a.todo install

  unfoldable pub reloads_units : Action → Bool
  unfolding todo_eq
  reloads_units a = todo_eq a.todo reload && a.target.path == ""

  unfoldable pub reload_loop : Bool → Bool → List Action → Result (Unit {0})
  reload_loop need_reload reloaded [] =
      if need_reload && not reloaded then err missing_reload else ok tt
  reload_loop need_reload reloaded (a ∷ rest) =
      reload_loop (need_reload || installs_unit a) (reloaded || reloads_units a) rest

  unfoldable pub validate_reload : List Action → Result (Unit {0})
  validate_reload rest = reload_loop false false rest

  unfoldable pub validate_combined : List Action → Result (Unit {0})
  unfolding kind_eq
  validate_combined [] = ok tt
  validate_combined (a ∷ rest) =
      if kind_eq a.target.kind combined then err combined_resource else validate_combined rest

  unfoldable pub lacks_object : Action → Bool
  unfolding is_quadlet kind_eq
  lacks_object a =
      is_quadlet a.target && a.target.host_object == "" && not (kind_eq a.target.kind app_file)

  unfoldable pub validate_quadlets : List Action → Result (Unit {0})
  unfolding lacks_object
  validate_quadlets [] = ok tt
  validate_quadlets (a ∷ rest) =
      if lacks_object a then err no_podman_object else validate_quadlets rest

  unfoldable pub removes_volume : Action → Bool
  unfolding todo_eq kind_eq
  removes_volume a = todo_eq a.todo remove && kind_eq a.target.kind volume

  unfoldable pub dumps_volume : Action → Bool
  unfolding todo_eq kind_eq
  dumps_volume a = todo_eq a.todo dump && kind_eq a.target.kind volume

  unfoldable pub note_removal : List String → Action → List String
  note_removal deleted a = if removes_volume a then deleted ++ a.target.path ∷ [] else deleted

  unfoldable pub dump_loop : List String → List Action → Result (Unit {0})
  dump_loop deleted [] = ok tt
  dump_loop deleted (a ∷ rest) =
      if dumps_volume a && contains (note_removal deleted a) a.target.path
      then err deleted_before_dump
      else dump_loop (note_removal deleted a) rest

  unfoldable pub validate_dumps : List Action → Result (Unit {0})
  validate_dumps rest = dump_loop [] rest

  unfoldable pub install_loop : List String → List Action → Result (Unit {0})
  unfolding kind_eq todo_eq
  install_loop known [] = ok tt
  install_loop known (a ∷ rest) =
      if kind_eq a.target.kind combined
      then err combined_resource
      else if todo_eq a.todo install
      then (parent_name a >>= λ name.
          if kind_eq a.target.kind component
          then install_loop (known ++ name ∷ []) rest
          else if contains known name
          then install_loop known rest
          else err resource_before_component)
      else install_loop known rest

  unfoldable pub validate_installs : List String → List Action → Result (Unit {0})
  validate_installs existing rest = install_loop existing rest

  -- the stages of `NewDefaultValidationPipeline`, in order, on the steps of the plan
  unfoldable pub validate_plan : List String → Plan → Result (Unit {0})
  validate_plan installed p = do
    let rest = steps p
    validate_reload rest
    validate_dumps rest
    validate_installs installed rest
    validate_quadlets rest
    validate_combined rest
