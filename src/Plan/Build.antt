-- ===== src/Plan/Build.antt =====
-- The plan itself (plan.go): adding actions and listing the steps.
use materia.Base.{
  ℕ, ◌+◌, String, Bool, true, false, ◌&&◌, Option, none, some, List, [], ◌∷◌, ◌++◌, ◌==◌,
  if◌then◌else◌, nat_eq, not, sort_stable,
}
use materia.Errors.{Result, ok, ◌>>=◌, ◌>>◌}
use materia.Deps.{Deps}
use materia.Components.Kind.{host, kind_eq}
use materia.Actions.{
  Action, reload_host, validate_action, parent_name, is_service_action, todo_eq, reload,
}
use materia.Plan.Priority.{get_default_priority}
use materia.Plan.Steps.{merge_steps_into_plan, coalesce_services}

module _ ⦃D : Deps⦄ where
  pub record ComponentChanges : Type 0 where
    pub resource_changes : List Action
    pub service_changes : List Action

  abbrev no_changes : ComponentChanges
  no_changes = record { resource_changes = []; service_changes = [] }

  pub record Plan : Type 0 where
    pub size : ℕ
    pub changes_map : D.tree.Map ComponentChanges
    pub need_reload : Bool

  abbrev pub new_plan : Plan
  new_plan = record { size = 0; changes_map = D.tree.new; need_reload = false }

  abbrev pub priority_key : Action → ℕ
  priority_key a = a.priority

  unfoldable pub or_empty : Option ComponentChanges → ComponentChanges
  or_empty none = no_changes
  or_empty (some c) = c

  unfoldable pub changes_at : Plan → String → ComponentChanges
  unfolding or_empty
  changes_at p name = or_empty (D.tree.get name p.changes_map)

  unfoldable pub add_resource_change : Plan → Action → Result Plan
  add_resource_change p a = do
    name ← parent_name a
    let changes = changes_at p name
    ok (record p {
      changes_map =
          D.tree.put name
            (record changes {
              resource_changes = sort_stable priority_key (changes.resource_changes ++ a ∷ []);
            })
            p.changes_map;
    })

  unfoldable pub add_service_change : Plan → Action → Result Plan
  add_service_change p a = do
    name ← parent_name a
    let changes = changes_at p name
    ok (record p {
      changes_map =
          D.tree.put name
            (record changes {
              service_changes = sort_stable priority_key (changes.service_changes ++ a ∷ []);
            })
            p.changes_map;
    })

  unfoldable pub counted : Plan → Plan
  counted p = record p { size = p.size + 1 }

  -- where an action with its default priority goes
  unfoldable pub place_default : Plan → Action → Result Plan
  unfolding kind_eq todo_eq is_service_action
  place_default p a =
      if kind_eq a.target.kind host && todo_eq a.todo reload
      then ok (record p { need_reload = true })
      else if is_service_action a.todo
      then add_service_change p a
      else add_resource_change p a

  unfoldable pub add_defaulted : Plan → Action → Result Plan
  add_defaulted p a = do
    priority ← get_default_priority a
    placed ← place_default p (record a { priority = priority })
    ok (counted placed)

  -- a priority set by hand: services are not kept apart
  unfoldable pub add_manual : Plan → Action → Result Plan
  add_manual p a = do placed ← add_resource_change p a; ok (counted placed)

  unfoldable pub add_action : Plan → Action → Result Plan
  add_action p a = do
    validate_action a
    if nat_eq a.priority 0 then add_defaulted p a else add_manual p a

  unfoldable pub append_actions : Plan → List Action → Result Plan
  append_actions p [] = ok p
  append_actions p (a ∷ rest) = do p' ← add_action p a; append_actions p' rest

  unfoldable pub is_empty_plan : Plan → Bool
  is_empty_plan p = nat_eq p.size 0

  unfoldable pub without_root : List String → List String
  without_root [] = []
  without_root (k ∷ ks) = if not (k == "root") then k ∷ without_root ks else without_root ks

  unfoldable pub list_components : Plan → List String
  list_components p = without_root (D.tree.keys p.changes_map)

  unfoldable pub get_resource_changes : Plan → String → List Action
  get_resource_changes p name = (changes_at p name).resource_changes

  unfoldable pub get_service_changes : Plan → String → List Action
  get_service_changes p name = (changes_at p name).service_changes

  unfoldable pub resource_steps : Plan → List String → List Action
  resource_steps p [] = []
  resource_steps p (k ∷ ks) = get_resource_changes p k ++ resource_steps p ks

  unfoldable pub service_steps : Plan → List String → List Action
  service_steps p [] = []
  service_steps p (k ∷ ks) = coalesce_services (get_service_changes p k) ++ service_steps p ks

  unfoldable pub reload_steps : Plan → List Action
  reload_steps p = if p.need_reload then reload_host ∷ [] else []

  unfoldable pub steps : Plan → List Action
  steps p =
      merge_steps_into_plan (resource_steps p (list_components p) ++ reload_steps p)
        (sort_stable priority_key (service_steps p (list_components p)))
