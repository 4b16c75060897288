-- ===== src/Plan/Installs.antt =====
-- What the installation check (`ComponentInstallValidator`, validator.go) gives.
use materia.Base.{
  String, ◌≡◌, refl, Bool, true, false, ◌&&◌, ◌||◌, List, [], ◌∷◌, ◌++◌, arith, ◌==◌, if◌then◌else◌,
  contains, any, Option, none, some, ap, append-nil,
}
use materia.Errors.{ok}
use materia.Deps.{Deps}
use materia.Components.Kind.{kind_eq, component}
use materia.Actions.{Action, todo_eq, install, parent_name}
use materia.Components.Component.{Component}
use materia.Plan.Validator.{install_loop, validate_installs}
use materia.Plan.Dumps.{contains-append_one}

abbrev pub parent_is : ⦃D : Deps⦄ → String → Option Component → Bool
parent_is name none = false
parent_is name (some c) = c.name == name

module _ ⦃D : Deps⦄ where
  abbrev pub installs_named : String → Action → Bool
  installs_named name a =
      todo_eq a.todo install && (kind_eq a.target.kind component && parent_is name a.parent)

  names_in : Option Component → List String
  names_in none = []
  names_in (some c) = c.name ∷ []

  -- the components that are known behind a step
  next_known : List String → Action → List String
  unfolding names_in
  next_known known b =
      if todo_eq b.todo install && kind_eq b.target.kind component
      then known ++ names_in b.parent
      else known

  install_loop-step :
      (known : List String) (b : Action) (rest : List Action) (o : Option Component)
      → b.parent ≡ o
      → install_loop known (b ∷ rest) ≡ ok tt
      → install_loop (next_known known b) rest ≡ ok tt
  unfolding install_loop next_known parent_name
  install_loop-step known b rest none e h = ground arith
  install_loop-step known b rest (some c) e h = ground arith

  contains-next_known :
      (known : List String) (b : Action) (name : String) (o : Option Component)
      → b.parent ≡ o
      → contains (next_known known b) name ≡ (contains known name || installs_named name b)
  unfolding next_known
  contains-next_known known b name none e =
      ground (arith, ap (λ (l : List String). contains l name) (append-nil known))
  contains-next_known known b name (some c) e =
      ground (arith, contains-append_one known c.name name)

  install_head :
      (known : List String) (a : Action) (after : List Action) (o : Option Component)
      → a.parent ≡ o
      → install_loop known (a ∷ after) ≡ ok tt
      → todo_eq a.todo install ≡ true
      → kind_eq a.target.kind component ≡ false
      → (name : String) × (parent_name a ≡ ok name) × ((contains known name || false) ≡ true)
  unfolding install_loop parent_name
  install_head known a after none e h i k = absurd (ground arith)
  install_head known a after (some c) e h i k = (c.name, ground arith, ground arith)

  install_loop_sound :
      (known : List String) (before : List Action) (a : Action) (after : List Action)
      → install_loop known (before ++ (a ∷ after)) ≡ ok tt
      → todo_eq a.todo install ≡ true
      → kind_eq a.target.kind component ≡ false
      → (name : String) × (parent_name a ≡ ok name)
        × ((contains known name || any (installs_named name) before) ≡ true)
  install_loop_sound known [] a after h i k = install_head known a after a.parent refl h i k
  install_loop_sound known (b ∷ before) a after h i k =
      let (name, named, found) =
        install_loop_sound (next_known known b) before a after
          (install_loop-step known b (before ++ (a ∷ after)) b.parent refl h) i k in
      (name, named, ground (arith, contains-next_known known b name b.parent refl))

  -- If the installation check passes on a list of steps, then each step in it that installs
  -- anything but a component has a parent whose name is among the existing components or among
  -- those that an earlier step of the list installs.
  pub validate_installs_sound :
      (existing : List String) (before : List Action) (a : Action) (after : List Action)
      → validate_installs existing (before ++ (a ∷ after)) ≡ ok tt
      → todo_eq a.todo install ≡ true
      → kind_eq a.target.kind component ≡ false
      → (name : String) × (parent_name a ≡ ok name)
        × ((contains existing name || any (installs_named name) before) ≡ true)
  unfolding validate_installs
  validate_installs_sound existing before a after h i k =
      install_loop_sound existing before a after h i k
