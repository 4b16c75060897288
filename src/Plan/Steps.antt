-- ===== src/Plan/Steps.antt =====
-- The parts of `Plan.Steps` (plan.go): merging the service steps in, and reducing the service
-- actions of one component to one for each unit.
use materia.Base.{
  ℕ, String, Bool, false, ◌&&◌, ◌||◌, Option, none, some, List, [], ◌∷◌, ◌++◌, ◌==◌, if◌then◌else◌,
  leb, ltb, sort_texts,
}
use materia.Deps.{Deps}
use materia.Actions.{Action, no_action, todo_eq, start, stop, restart, reload, enable, disable}

module _ ⦃D : Deps⦄ where
  -- the service steps at the head that do not come after `p`, and the others
  unfoldable pub due : ℕ → List Action → List Action
  due p [] = []
  due p (s ∷ ss) = if leb s.priority p then s ∷ due p ss else []

  unfoldable pub not_due : ℕ → List Action → List Action
  not_due p [] = []
  not_due p (s ∷ ss) = if leb s.priority p then not_due p ss else s ∷ ss

  -- `mergeStepsIntoPlan`: `si` is what is left of the service steps
  unfoldable pub merge_steps_into_plan : List Action → List Action → List Action
  merge_steps_into_plan [] service_steps = service_steps
  merge_steps_into_plan (step ∷ steps) service_steps =
      due step.priority service_steps
      ++ (step ∷ merge_steps_into_plan steps (not_due step.priority service_steps))

  -- what `coalesceServices` keeps of one unit: the rank reached (`serviceResults`) and the action
  -- that reached it (`serviceActions`, absent at rank 0)
  pub record Slot : Type 0 where
    pub path : String
    pub end_state : ℕ
    pub action : Option Action

  -- reload 1, start 2, restart 3, stop 4
  unfoldable pub raise_to : Bool → ℕ → Action → Slot → Slot
  raise_to wanted rank a s =
      if wanted && ltb s.end_state rank then record s { end_state = rank; action = some a } else s

  unfoldable pub raise : Action → Slot → Slot
  unfolding raise_to todo_eq
  raise a s = raise_to (todo_eq a.todo stop) 4 a (
      raise_to (todo_eq a.todo restart) 3 a
        (raise_to (todo_eq a.todo start) 2 a (raise_to (todo_eq a.todo reload) 1 a s)))

  unfoldable pub has_slot : String → List Slot → Bool
  has_slot path [] = false
  has_slot path (s ∷ ss) = s.path == path || has_slot path ss

  -- `if _, ok := serviceResults[path]; !ok { serviceResults[path] = 0 }`
  unfoldable pub open_slot : String → List Slot → List Slot
  open_slot path slots =
      if has_slot path slots
      then slots
      else record { path = path; end_state = 0; action = none } ∷ slots

  unfoldable pub update_slot : Action → List Slot → List Slot
  update_slot a [] = []
  update_slot a (s ∷ ss) = if s.path == a.target.path then raise a s ∷ ss else s ∷ update_slot a ss

  unfoldable pub is_switch : Action → Bool
  unfolding todo_eq
  is_switch a = todo_eq a.todo enable || todo_eq a.todo disable

  -- the loop over the changes: enabling and disabling goes straight to the results
  unfoldable pub switches : List Action → List Action
  unfolding is_switch
  switches [] = []
  switches (a ∷ rest) = if is_switch a then a ∷ switches rest else switches rest

  unfoldable pub slots_of : List Slot → List Action → List Slot
  unfolding is_switch
  slots_of slots [] = slots
  slots_of slots (a ∷ rest) =
      slots_of
        (if is_switch a
          then open_slot a.target.path slots
          else update_slot a (open_slot a.target.path slots))
        rest

  unfoldable pub paths_of : List Slot → List String
  paths_of [] = []
  paths_of (s ∷ ss) = s.path ∷ paths_of ss

  unfoldable pub or_zero : Option Action → Action
  or_zero none = no_action
  or_zero (some a) = a

  -- `serviceActions[k]`: the zero value where the map has no such key
  unfoldable pub action_at : String → List Slot → Action
  unfolding or_zero
  action_at path [] = no_action
  action_at path (s ∷ ss) = if s.path == path then or_zero s.action else action_at path ss

  unfoldable pub actions_at : List String → List Slot → List Action
  actions_at [] slots = []
  actions_at (k ∷ ks) slots = action_at k slots ∷ actions_at ks slots

  unfoldable pub coalesce_services : List Action → List Action
  coalesce_services changes =
      let slots = slots_of [] changes in
      switches changes ++ actions_at (sort_texts (paths_of slots)) slots
