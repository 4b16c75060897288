-- ===== src/Planner/Validity.antt =====
-- What `Plan` (planner.go) guarantees of a plan that it returns.
use materia.Base.{◌≡◌, List, [], ◌∷◌}
use materia.Errors.{ok, OnOk, OnOk-ok, OnOk-bind, OnOk-step}
use materia.Deps.{Deps}
use materia.Components.Component.{Component}
use materia.Plan.Build.{Plan, new_plan, steps, append_actions}
use materia.Plan.Validator.{validate_plan}
use materia.Plan.Checks.{IsValid, validate_plan-IsValid}
use materia.Plan.Order.{IsOrdered, IsOrdered-new, append_actions-IsOrdered}
use materia.Planner.Host.{HostState, PlannerConfig}
use materia.Planner.Graph.{ComponentTree, build_component_graph, list_trees}
use materia.Planner.Planning.{make_plan, plan_trees, plan_tree, names_of}

module _ ⦃D : Deps⦄ where
  plan_trees-IsOrdered :
      (mgr : HostState) (conf : PlannerConfig) (ts : List ComponentTree) (p : Plan)
      → IsOrdered p
      → OnOk IsOrdered (plan_trees mgr conf ts p)
  unfolding plan_trees
  plan_trees-IsOrdered mgr conf [] p v = OnOk-ok v
  plan_trees-IsOrdered mgr conf (t ∷ ts) p v = OnOk-bind (plan_tree mgr conf t) _ λ planned _.
      OnOk-step (append_actions p planned.steps) _ (append_actions-IsOrdered p planned.steps v)
        (λ p' v'. plan_trees-IsOrdered mgr conf ts p' v')

  make_plan-OnOk :
      (mgr : HostState) (conf : PlannerConfig) (installed assigned : List Component)
      → OnOk
          (λ p. IsValid (names_of installed) (steps p) × IsOrdered p)
          (make_plan mgr conf installed assigned)
  unfolding make_plan
  make_plan-OnOk mgr conf installed assigned =
      OnOk-bind (build_component_graph installed assigned) _ λ graph _.
        OnOk-step (plan_trees mgr conf (list_trees graph) new_plan) _
          (plan_trees-IsOrdered mgr conf (list_trees graph) new_plan IsOrdered-new)
          (λ p o.
            OnOk-bind (validate_plan (names_of installed) p) _
              λ u e. OnOk-ok (validate_plan-IsValid (names_of installed) p e, o))

  -- Every plan that `Plan` returns passes each check of the validation against the names of the
  -- installed components (units are not installed without a daemon-reload, no volume is dumped
  -- behind its removal, no resource is installed before its component, every quadlet has a podman
  -- object, no combined resource is acted on), and the changes of each of its components are
  -- ordered by priority.
  pub make_plan-IsValid :
      (mgr : HostState) (conf : PlannerConfig) (installed assigned : List Component) (p : Plan)
      → make_plan mgr conf installed assigned ≡ ok p
      → IsValid (names_of installed) (steps p) × IsOrdered p
  make_plan-IsValid mgr conf installed assigned p e =
      (make_plan-OnOk mgr conf installed assigned).at p e
