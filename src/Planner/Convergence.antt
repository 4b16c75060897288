-- ===== src/Planner/Convergence.antt =====
-- `serviceStateHelper` (planner.go) brings a service to its assigned state.
use materia.Base.{
  String, ◌≡◌, refl, Bool, true, false, List, [], ◌∷◌, arith, ◌==◌, eq_iff, if◌then◌else◌, ◌++◌,
  ◌&&◌, not, ◌∙◌,
}
use materia.Services.{
  Service, state_active, state_inactive, enable_state_enabled, enable_state_disabled,
}
use materia.Actions.{ActionType, start, stop, enable, disable}
use materia.Planner.ServiceActions.{service_state_helper, is_absent, is_enabled, step_if}

-- what an action on a service is for
abbrev pub effect : ActionType → Service → Service
effect start s = record s { state = state_active }
effect stop s = record s { state = state_inactive }
effect enable s = record s { enabled = enable_state_enabled }
effect disable s = record s { enabled = enable_state_disabled }
effect _ s = s

abbrev pub run : List ActionType → Service → Service
run [] s = s
run (t ∷ ts) s = run ts (effect t s)

-- the state that the assigned service asks for: any state but "active" and "inactive" asks nothing
abbrev pub asked_state : Service → Service → String
asked_state assigned current =
    if assigned.state == state_active
    then state_active
    else if assigned.state == state_inactive
    then state_inactive
    else current.state

run-append : (xs ys : List ActionType) (s : Service) → run (xs ++ ys) s ≡ run ys (run xs s)
run-append [] ys s = refl
run-append (x ∷ xs) ys s = run-append xs ys (effect x s)

run-step_if :
    (b : Bool) (t : ActionType) (s : Service) → run (step_if b t) s ≡ (if b then effect t s else s)
unfolding step_if
run-step_if true t s = refl
run-step_if false t s = refl

state-if :
    (b : Bool) (x y : Service) → (if b then x else y).state ≡ (if b then x.state else y.state)
state-if true x y = refl
state-if false x y = refl

-- starting and stopping does not touch whether a service is enabled
started_enabled :
    (x y : Bool) (d : Service)
    → is_enabled (
        let stopped = if y then effect stop d else d in if x then effect start stopped else stopped)
      ≡ is_enabled d
unfolding is_enabled
started_enabled true true d = refl
started_enabled true false d = refl
started_enabled false true d = refl
started_enabled false false d = refl

switched :
    (e c : Bool) (s : Service)
    → is_enabled s ≡ c
    → is_enabled (
        let enabled = if e && not c then effect enable s else s in
        if not e && c then effect disable enabled else enabled)
      ≡ e
unfolding is_enabled
switched true true s h = h
switched true false s h = refl
switched false true s h = refl
switched false false s h = h

module _ (assigned current : Service) (there : is_absent current ≡ false)
    (wanted : is_absent assigned ≡ false) where
  run-helper : run (service_state_helper assigned current) current ≡ (
      let enabled =
        if is_enabled assigned && not (is_enabled current)
        then effect enable current
        else current in
      let disabled =
        if not (is_enabled assigned) && is_enabled current
        then effect disable enabled
        else enabled in
      let stopped =
        if assigned.state == state_inactive && not (current.state == state_inactive)
        then effect stop disabled
        else disabled in
      if assigned.state == state_active && not (current.state == state_active)
      then effect start stopped
      else stopped)
  unfolding service_state_helper
  run-helper = rw (there, wanted) (simp (run-append, run-step_if))

  -- For a current and an assigned service that both have a name and a known state, the steps of
  -- `serviceStateHelper`, each with the effect of its name, bring the current service to the
  -- assigned state if that is active or inactive, leave its state otherwise, and make it enabled
  -- exactly if the assigned one is.
  pub service_state_helper-reaches :
      ((run (service_state_helper assigned current) current).state ≡ asked_state assigned current)
      × (is_enabled (run (service_state_helper assigned current) current) ≡ is_enabled assigned)
  service_state_helper-reaches = rw run-helper (
    simp state-if (
        ground (
          arith,
          eq_iff assigned.state state_active,
          eq_iff assigned.state state_inactive,
          eq_iff current.state state_active,
          eq_iff current.state state_inactive,
        )),
    started_enabled (assigned.state == state_active && not (current.state == state_active))
          (assigned.state == state_inactive && not (current.state == state_inactive)) _
        ∙ switched (is_enabled assigned) (is_enabled current) current refl,
  )
