-- ===== src/Planner/Migration.antt =====
-- The order of the steps that move the contents of a volume (planner.go).
use materia.Base.{
  ℕ, ◌≤◌, String, ◌≡◌, ◌≢◌, refl, not, true, false, ◌==◌, Bool, eq_iff, Option, none, some, List,
  [], ◌∷◌, ◌++◌, arith, All, Sorted, AllLe, inl, inr, ◌⊎◌, subst, sym,
}
use materia.Errors.{
  Result, ok, err, OnOk, OnOk-ok, OnOk-err, OnOk-if, OnOk-bind, OnOk-step, OnOk-map, on_ok,
}
use materia.Deps.{Deps}
use materia.Manifests.{ServiceResourceConfig}
use materia.Services.{started, Service}
use materia.Components.Kind.{kind_eq, volume}
use materia.Components.Resource.{Resource}
use materia.Components.ServiceConfigs.{list_configs}
use materia.Components.Component.{Component}
use materia.Actions.{ActionType, Action, stop, start, dump, cleanup, ensure, import}
use materia.Plan.Build.{priority_key}
use materia.Planner.Host.{HostState, Volume}
use materia.Planner.ServiceActions.{
  get_service_action, action_on, service_action_with_metadata, resource_action_with_metadata,
  parsed_container, container_action, image_timeout, with_timeout, get_live_service,
}
use materia.Executor.Services.{until_state}
use materia.Planner.Cleanup.{
  has_volume, stop_first, stop_running, start_again, move_volume, generate_volume_migration_actions,
}

not-true : (b : Bool) → not b ≡ true → b ≡ false
not-true b h = ground arith

unlike : (t : String) → t ≡ "active" → not (t == "active") ≡ true → ⊥
unlike t e n = ground (arith, (eq_iff t "active").1 e, n)

alike : (t : String) → not (t == "active") ≡ false → t ≡ "active"
alike t n = (eq_iff t "active").0 (ground arith)

module _ ⦃D : Deps⦄ where
  abbrev Does : ActionType → Action → Type 0
  Does t a = a.todo ≡ t

  image_timeout-Does :
      (parent : Component) (res : Resource) (t : ActionType) (r : Result ServiceResourceConfig)
      → OnOk (Does t) (image_timeout parent res t r)
  unfolding image_timeout with_timeout
  image_timeout-Does parent res t (ok src) = OnOk-ok refl
  image_timeout-Does parent res t (err e) = record { at = λ a h. ground arith }

  container_action-Does :
      (parent : Component) (res : Resource) (t : ActionType) (o : Option String)
      → OnOk (Does t) (container_action parent res t o)
  unfolding container_action
  container_action-Does parent res t none = OnOk-err _
  container_action-Does parent res t (some name) = search (on_ok, image_timeout-Does, refl)

  parsed_container-Does :
      (parent : Component) (res : Resource) (t : ActionType) (o : Option D.unit.UnitFile)
      → OnOk (Does t) (parsed_container parent res t o)
  unfolding parsed_container
  parsed_container-Does parent res t none = OnOk-err _
  parsed_container-Does parent res t (some unitfile) = container_action-Does parent res t _

  resource_action-Does :
      (res : Resource) (parent : Component) (t : ActionType)
      → OnOk (Does t) (resource_action_with_metadata res parent t)
  unfolding resource_action_with_metadata with_timeout
  resource_action-Does res parent t = search (on_ok, parsed_container-Does, refl)

  action_on-Does :
      (src : ServiceResourceConfig) (parent : Component) (t : ActionType) (r : Result Resource)
      → OnOk (Does t) (action_on src parent t r)
  unfolding action_on service_action_with_metadata
  action_on-Does src parent t (ok res) = resource_action-Does res parent t
  action_on-Does src parent t (err e) = OnOk-ok refl

  get_service_action-Does :
      (src : ServiceResourceConfig) (parent : Component) (t : ActionType)
      → OnOk (Does t) (get_service_action src parent t)
  unfolding get_service_action
  get_service_action-Does src parent t = action_on-Does src parent t _

  -- stops a unit now, and waits until it is inactive
  pub record StopsFirst (a : Action) : Type 0 where
    pub todo : a.todo ≡ stop
    pub priority : a.priority ≡ 1
    pub waits : until_state a.metadata ≡ some "inactive"

  -- each service that is active now, and no other, is stopped, in their order
  pub data Stops (mgr : HostState) (parent : Component)
      : List ServiceResourceConfig → List Action → Type 0 where
    none_left : Stops mgr parent [] []
    passed :
        {ss : List ServiceResourceConfig} {l : List Action} (s : ServiceResourceConfig)
        (current : Service)
        → get_live_service mgr s ≡ ok current
        → current.state ≢ "active"
        → Stops mgr parent ss l
        → Stops mgr parent (s ∷ ss) l
    stopped :
        {ss : List ServiceResourceConfig} {l : List Action} (s : ServiceResourceConfig)
        (current : Service) (a unit : Action)
        → get_live_service mgr s ≡ ok current
        → current.state ≡ "active"
        → get_service_action s parent stop ≡ ok unit
        → a.target ≡ unit.target
        → StopsFirst a
        → Stops mgr parent ss l
        → Stops mgr parent (s ∷ ss) (a ∷ l)

  Stops-StopsFirst :
      (mgr : HostState) (parent : Component) (ss : List ServiceResourceConfig) (l : List Action)
      → Stops mgr parent ss l
      → All StopsFirst l
  Stops-StopsFirst mgr parent [] l none_left = tt
  Stops-StopsFirst mgr parent (x ∷ ss) l (passed s current g n rest) =
      Stops-StopsFirst mgr parent ss l rest
  Stops-StopsFirst mgr parent (x ∷ ss) (y ∷ l) (stopped s current a unit g n u t f rest) =
      (f, Stops-StopsFirst mgr parent ss l rest)

  stop_first-StopsFirst : (a : Action) → a.todo ≡ stop → StopsFirst (stop_first a)
  unfolding stop_first until_state
  stop_first-StopsFirst a d = record { todo = d; priority = refl; waits = refl }

  stop_first-target : (a : Action) → (stop_first a).target ≡ a.target
  unfolding stop_first
  stop_first-target a = refl

  stop_running-Stops :
      (mgr : HostState) (parent : Component) (ss : List ServiceResourceConfig)
      → OnOk (Stops mgr parent ss) (stop_running mgr parent ss)
  unfolding stop_running started
  stop_running-Stops mgr parent [] = OnOk-ok none_left
  stop_running-Stops mgr parent (s ∷ ss) = OnOk-bind (get_live_service mgr s) _ λ current live.
      OnOk-if (not (current.state == "active")) _ _
        (λ n.
          OnOk-map (stop_running mgr parent ss) (stop_running-Stops mgr parent ss)
            λ l q. passed s current live (λ e. unlike current.state e n) q)
        (λ n. OnOk-bind (get_service_action s parent stop) _ λ a made.
          OnOk-step (stop_running mgr parent ss) _ (stop_running-Stops mgr parent ss) λ stops q.
            OnOk-ok (
              stopped s current (stop_first a) a live (alike current.state n) made
                (stop_first-target a)
                (stop_first-StopsFirst a ((get_service_action-Does s parent stop).at a made)) q))

  -- one start for each stop, in their order
  pub data Starts : List Action → List Action → Type 0 where
    none_stopped : Starts [] []
    starts :
        {stops l : List Action} (a b : Action)
        → b.todo ≡ start
        → b.target ≡ a.target
        → until_state b.metadata ≡ some "active"
        → Starts stops l
        → Starts (a ∷ stops) (b ∷ l)

  start_again-Starts :
      (parent : Component) (stops : List Action) → Starts stops (start_again parent stops)
  unfolding start_again until_state
  start_again-Starts parent [] = none_stopped
  start_again-Starts parent (a ∷ stops) =
      starts a _ refl refl refl (start_again-Starts parent stops)

  AllLe-starts :
      (parent : Component) (n : ℕ) (stops : List Action)
      → n ≤ 5
      → AllLe priority_key n (start_again parent stops)
  unfolding start_again
  AllLe-starts parent n [] h = tt
  AllLe-starts parent n (a ∷ stops) h = (h, AllLe-starts parent n stops h)

  Sorted-starts :
      (parent : Component) (stops : List Action) → Sorted priority_key (start_again parent stops)
  unfolding start_again
  Sorted-starts parent [] = tt
  Sorted-starts parent (a ∷ stops) =
      (AllLe-starts parent 5 stops (omega arith), Sorted-starts parent stops)

  Sorted-move :
      (parent : Component) (res : Resource) (stops : List Action)
      → Sorted priority_key (move_volume parent res ++ start_again parent stops)
  unfolding move_volume
  Sorted-move parent res stops = (
    (omega arith, (omega arith, (omega arith, AllLe-starts parent 1 stops (omega arith)))),
    (
      (omega arith, (omega arith, AllLe-starts parent 2 stops (omega arith))),
      (
        (omega arith, AllLe-starts parent 4 stops (omega arith)),
        (AllLe-starts parent 4 stops (omega arith), Sorted-starts parent stops),
      ),
    ),
  )

  AllLe-move :
      (parent : Component) (res : Resource) (stops : List Action)
      → AllLe priority_key 1 (move_volume parent res ++ start_again parent stops)
  unfolding move_volume
  AllLe-move parent res stops = (
    omega arith,
    (omega arith, (omega arith, (omega arith, AllLe-starts parent 1 stops (omega arith)))),
  )

  AllLe-stops :
      (xs tail : List Action)
      → All StopsFirst xs
      → AllLe priority_key 1 tail
      → AllLe priority_key 1 (xs ++ tail)
  AllLe-stops [] tail h a = a
  AllLe-stops (x ∷ xs) tail h a = (omega (arith, h.0.priority), AllLe-stops xs tail h.1 a)

  Sorted-stops :
      (xs tail : List Action)
      → All StopsFirst xs
      → AllLe priority_key 1 tail
      → Sorted priority_key tail
      → Sorted priority_key (xs ++ tail)
  Sorted-stops [] tail h a k = k
  Sorted-stops (x ∷ xs) tail h a k = (
    subst (λ n. AllLe priority_key n (xs ++ tail)) (sym h.0.priority) (AllLe-stops xs tail h.1 a),
    Sorted-stops xs tail h.1 a k,
  )

  -- a step on the volume
  pub record OnVolume (t : ActionType) (parent : Component) (res : Resource) (a : Action)
      : Type 0 where
    pub todo : a.todo ≡ t
    pub target : a.target ≡ res
    pub of_component : a.parent ≡ some parent

  -- what moving a volume is: the active units stop, the volume is dumped, cleaned up, ensured and
  -- imported, and every unit that was stopped starts
  pub record Moves (mgr : HostState) (parent : Component) (res : Resource) (l : List Action)
      : Type 0 where
    pub stops : List Action
    pub first : Action
    pub second : Action
    pub third : Action
    pub fourth : Action
    pub starts : List Action
    pub shape : l ≡ stops ++ ((first ∷ second ∷ third ∷ fourth ∷ []) ++ starts)
    pub stop_active : Stops mgr parent (list_configs parent.service_configs) stops
    pub dumps : OnVolume dump parent res first
    pub cleans_up : OnVolume cleanup parent res second
    pub ensures : OnVolume ensure parent res third
    pub imports : OnVolume import parent res fourth
    pub start_again : Starts stops starts
    pub ordered : Sorted priority_key l

  -- podman has no volume of the resource's name
  abbrev pub NoVolume : HostState → Resource → Type 0
  NoVolume mgr res =
      (volumes : List Volume) × (mgr.list_volumes ≡ ok volumes)
      × (has_volume res.host_object volumes ≡ false)

  -- The steps that migrate a volume, when they are made without an error, are none, and then
  -- podman has no volume of its name, or they are ordered by priority and are these: for each
  -- service of the component that is active, and for no other, the unit of it stops with priority
  -- 1 until it is inactive, then the volume is dumped, cleaned up, ensured and imported, and then
  -- the target of each stop starts until it is active.
  pub generate_volume_migration_actions-Moves :
      (mgr : HostState) (parent : Component) (res : Resource)
      → OnOk
          (λ l. ((l ≡ []) × NoVolume mgr res) ⊎ Moves mgr parent res l)
          (generate_volume_migration_actions mgr parent res)
  unfolding generate_volume_migration_actions move_volume
  generate_volume_migration_actions-Moves mgr parent res =
      OnOk-if (not (kind_eq res.kind volume)) _ _ (λ _. OnOk-err _)
        (λ _. OnOk-bind mgr.list_volumes _ λ volumes listed.
          OnOk-if (not (has_volume res.host_object volumes)) _ _
            (λ n. OnOk-ok (inl (refl, (volumes, listed, not-true _ n))))
            (λ _.
              OnOk-step (stop_running mgr parent (list_configs parent.service_configs)) _
                (stop_running-Stops mgr parent (list_configs parent.service_configs))
                λ stops q. OnOk-ok (
                  inr (record {
                    stops = stops;
                    first = _;
                    second = _;
                    third = _;
                    fourth = _;
                    starts = start_again parent stops;
                    shape = refl;
                    stop_active = q;
                    dumps = record { todo = refl; target = refl; of_component = refl };
                    cleans_up = record { todo = refl; target = refl; of_component = refl };
                    ensures = record { todo = refl; target = refl; of_component = refl };
                    imports = record { todo = refl; target = refl; of_component = refl };
                    start_again = start_again-Starts parent stops;
                    ordered =
                        Sorted-stops stops _
                          (Stops-StopsFirst mgr parent (list_configs parent.service_configs) stops
                            q)
                          (AllLe-move parent res stops) (Sorted-move parent res stops);
                  }))))
