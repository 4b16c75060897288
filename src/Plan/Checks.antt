-- ===== src/Plan/Checks.antt =====
-- The validation pipeline (validator.go): the reload, the quadlet and the combined check, and the
-- pipeline of all five.
use materia.Base.{
  String, ◌≡◌, ◌↔◌, Bool, true, false, ◌&&◌, ◌||◌, not, List, [], ◌∷◌, ◌++◌, arith, if◌then◌else◌,
  contains, any, ◌⊎◌, Pairwise, All, subst,
}
use materia.Errors.{ok, err, >>=-eq-ok, missing_reload}
use materia.Deps.{Deps}
use materia.Components.Kind.{kind_eq, combined, component}
use materia.Actions.{Action, todo_eq, install, parent_name}
use materia.Plan.Build.{Plan, steps}
use materia.Plan.Validator.{
  installs_unit, reloads_units, reload_loop, validate_reload, validate_combined, lacks_object,
  validate_quadlets, validate_dumps, validate_installs, validate_plan,
}
use materia.Plan.Dumps.{NotDumpedAfter, validate_dumps_iff}
use materia.Plan.Installs.{installs_named, validate_installs_sound}

module _ ⦃D : Deps⦄ where
  reload_loop_lem :
      (need reloaded : Bool) (rest : List Action)
      → reload_loop need reloaded rest ≡ (
          if (need || any installs_unit rest) && not (reloaded || any reloads_units rest)
          then err missing_reload
          else ok tt)
  unfolding reload_loop
  reload_loop_lem need reloaded [] = ground arith
  reload_loop_lem need reloaded (a ∷ rest) =
      ground (arith, reload_loop_lem (need || installs_unit a) (reloaded || reloads_units a) rest)

  -- The reload check passes on a list of steps exactly when no step installs a service or a
  -- quadlet or some step reloads the daemon.
  pub validate_reload_iff :
      (rest : List Action)
      → (validate_reload rest ≡ ok tt)
        ↔ ((any installs_unit rest ≡ false) ⊎ (any reloads_units rest ≡ true))
  unfolding validate_reload
  validate_reload_iff rest = ground (arith, reload_loop_lem false false rest)

  -- The quadlet check passes on a list of steps exactly when no step acts on a quadlet, other than
  -- an app file, that lacks a podman object.
  pub validate_quadlets_iff :
      (rest : List Action)
      → (validate_quadlets rest ≡ ok tt) ↔ All (λ a. lacks_object a ≡ false) rest
  unfolding validate_quadlets
  validate_quadlets_iff [] = ground arith
  validate_quadlets_iff (a ∷ rest) = ground (arith, validate_quadlets_iff rest)

  pub validate_combined_iff :
      (rest : List Action)
      → (validate_combined rest ≡ ok tt) ↔ All (λ a. kind_eq a.target.kind combined ≡ false) rest
  unfolding validate_combined
  validate_combined_iff [] = ground arith
  validate_combined_iff (a ∷ rest) = ground (arith, validate_combined_iff rest)

  -- What a validated list of steps satisfies.
  pub record IsValid (installed : List String) (rest : List Action) : Type 0 where
    pub reloaded : (any installs_unit rest ≡ false) ⊎ (any reloads_units rest ≡ true)
    pub dumped_first : Pairwise NotDumpedAfter rest
    pub component_first :
        (before : List Action) (a : Action) (after : List Action)
        → rest ≡ before ++ (a ∷ after)
        → todo_eq a.todo install ≡ true
        → kind_eq a.target.kind component ≡ false
        → (name : String) × (parent_name a ≡ ok name)
          × ((contains installed name || any (installs_named name) before) ≡ true)
    pub backed : All (λ a. lacks_object a ≡ false) rest
    pub single : All (λ a. kind_eq a.target.kind combined ≡ false) rest

  steps-IsValid :
      (installed : List String) (rest : List Action)
      → validate_reload rest ≡ ok tt
      → validate_dumps rest ≡ ok tt
      → validate_installs installed rest ≡ ok tt
      → validate_quadlets rest ≡ ok tt
      → validate_combined rest ≡ ok tt
      → IsValid installed rest
  steps-IsValid installed rest r d i q c = record {
    reloaded = (validate_reload_iff rest).0 r;
    dumped_first = (validate_dumps_iff rest).0 d;
    component_first = λ before a after e.
        validate_installs_sound installed before a after
          (subst (λ l. validate_installs installed l ≡ ok tt) e i);
    backed = (validate_quadlets_iff rest).0 q;
    single = (validate_combined_iff rest).0 c;
  }

  -- The steps of a plan that passes the pipeline are valid.
  pub validate_plan-IsValid :
      (installed : List String) (p : Plan)
      → validate_plan installed p ≡ ok tt
      → IsValid installed (steps p)
  unfolding validate_plan
  validate_plan-IsValid installed p h =
      let (_, r, h₁) = >>=-eq-ok (validate_reload (steps p)) _ h in
      let (_, d, h₂) = >>=-eq-ok (validate_dumps (steps p)) _ h₁ in
      let (_, i, h₃) = >>=-eq-ok (validate_installs installed (steps p)) _ h₂ in
      let (_, q, c) = >>=-eq-ok (validate_quadlets (steps p)) _ h₃ in
      steps-IsValid installed (steps p) r d i q c
