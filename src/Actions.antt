-- ===== src/Actions.antt =====
-- pkg/actions/actions.go: what a step of a plan does, to what, and when an action is valid. Every
-- priority in the program is a literal from 0 to 7, so it is a natural number here; the texts of
-- `String`, `Pretty` and `MarshalJSON` are not modelled.
use materia.Base.{
  ℕ, String, Bool, true, false, ◌||◌, Option, none, some, List, if◌then◌else◌, nat_eq,
}
use materia.Errors.{
  Result, ok, err, panic, ◌>>◌, unknown_action, action_without_parent, file_action_without_diff,
  no_diffs,
}
use materia.Deps.{Deps}
use materia.Components.Kind.{host}
use materia.Components.Resource.{Resource, no_resource, validate_resource, is_file}
use materia.Components.Component.{Component, new_root_component}

pub data ActionType : Type 0 where
  unknown install remove update start stop restart reload enable disable ensure : ActionType
  setup cleanup mount import dump execute : ActionType

-- the values of the `iota` block
unfoldable pub todo_code : ActionType → ℕ
todo_code unknown = 0
todo_code install = 1
todo_code remove = 2
todo_code update = 3
todo_code start = 4
todo_code stop = 5
todo_code restart = 6
todo_code reload = 7
todo_code enable = 8
todo_code disable = 9
todo_code ensure = 10
todo_code setup = 11
todo_code cleanup = 12
todo_code mount = 13
todo_code import = 14
todo_code dump = 15
todo_code execute = 16

unfoldable pub todo_eq : ActionType → ActionType → Bool
unfolding todo_code
todo_eq a b = nat_eq (todo_code a) (todo_code b)

unfoldable pub is_service_action : ActionType → Bool
unfolding todo_eq
is_service_action t =
    todo_eq t start
    || todo_eq t restart
    || todo_eq t stop
    || todo_eq t reload
    || todo_eq t enable
    || todo_eq t disable

unfoldable pub is_resource_action : ActionType → Bool
unfolding todo_eq
is_resource_action t = todo_eq t install || todo_eq t remove || todo_eq t update

unfoldable pub is_host_action : ActionType → Bool
unfolding todo_eq
is_host_action t =
    todo_eq t setup
    || todo_eq t cleanup
    || todo_eq t mount
    || todo_eq t import
    || todo_eq t dump
    || todo_eq t enable

-- the timeout, an `int`, is its 64-bit pattern
pub record ActionMetadata : Type 0 where
  pub service_timeout : Option ℕ
  pub service_until_state : Option String
  pub command : Option String
  pub volume_name : Option String
  pub oneshot_name : Option String

abbrev pub no_metadata : ActionMetadata
no_metadata = record {
  service_timeout = none;
  service_until_state = none;
  command = none;
  volume_name = none;
  oneshot_name = none;
}

module _ ⦃D : Deps⦄ where
  pub record Action : Type 0 where
    pub todo : ActionType
    pub parent : Option Component
    pub target : Resource
    pub diff_content : Option (List D.dmp.Diff)
    pub priority : ℕ
    pub metadata : Option ActionMetadata

  -- Go's zero value `Action{}`
  abbrev pub no_action : Action
  no_action = record {
    todo = unknown;
    parent = none;
    target = no_resource;
    diff_content = none;
    priority = 0;
    metadata = none;
  }

  -- the fields that most literals give
  abbrev pub make_action : ActionType → Component → Resource → Action
  make_action todo parent target = record {
    todo = todo;
    parent = some parent;
    target = target;
    diff_content = none;
    priority = 0;
    metadata = none;
  }

  -- the daemon-reload that the planner and the plan add
  abbrev pub reload_host : Action
  reload_host = make_action reload new_root_component (record no_resource { kind = host })

  unfoldable pub is_nil : {A : Type 0} → Option A → Bool
  is_nil none = true
  is_nil (some a) = false

  unfoldable pub checked_diff : Action → Result (Unit {0})
  unfolding is_nil todo_eq is_file
  checked_diff a =
      if todo_eq a.todo update
      then (if is_file a.target
          then (if is_nil a.diff_content then err file_action_without_diff else ok tt)
          else ok tt)
      else ok tt

  unfoldable pub validate_action : Action → Result (Unit {0})
  unfolding is_nil todo_eq
  validate_action a =
      if todo_eq a.todo unknown
      then err unknown_action
      else if is_nil a.parent
      then err action_without_parent
      else (validate_resource a.target >> checked_diff a)

  unfoldable pub get_content_as_diffs : Action → Result (Option (List D.dmp.Diff))
  unfolding is_resource_action
  get_content_as_diffs a = if is_resource_action a.todo then ok a.diff_content else err no_diffs

  unfoldable pub name_of_parent : Option Component → Result String
  name_of_parent none = err panic
  name_of_parent (some c) = ok c.name

  -- `a.Parent.Name`
  unfoldable pub parent_name : Action → Result String
  unfolding name_of_parent
  parent_name a = name_of_parent a.parent
