-- ===== src/Planner/Ensure.antt =====
-- planner.go: volumes and networks whose unit runs while the podman object is gone
-- (`generateQuadletEnsurements`).
use materia.Base.{Bool, ◌&&◌, ◌||◌, not, List, [], ◌∷◌, ◌++◌, ◌==◌, if◌then◌else◌, is_empty, any}
use materia.Errors.{Result, ok, err, ◌>>=◌}
use materia.Deps.{Deps}
use materia.Services.{Service, started}
use materia.Components.Kind.{kind_eq, network, volume}
use materia.Components.Resource.{Resource, service_of, name_of}
use materia.Components.ResourceSet.{list_resources, contains_resource}
use materia.Components.Component.{Component}
use materia.Actions.{Action, make_action, ensure}
use materia.Planner.Host.{HostState, Volume, Network, is_service_not_found}

module _ ⦃D : Deps⦄ where
  unfoldable pub questionable : Component → List Resource → List Resource
  unfolding kind_eq
  questionable new_comp [] = []
  questionable new_comp (r ∷ rs) =
      if (kind_eq r.kind network || kind_eq r.kind volume)
        && contains_resource new_comp.resources (name_of r)
      then r ∷ questionable new_comp rs
      else questionable new_comp rs

  unfoldable pub object_exists : List Volume → List Network → Resource → Bool
  unfolding kind_eq
  object_exists volumes networks r =
      kind_eq r.kind volume && any (λ (v : Volume). v.name == r.host_object) volumes
      || kind_eq r.kind network && any (λ (n : Network). n.name == r.host_object) networks

  unfoldable pub ensure_one :
      Component → List Volume → List Network → Resource → Result Service → Result (List Action)
  unfolding is_service_not_found
  ensure_one comp volumes networks r (err e) = if is_service_not_found e then ok [] else err e
  ensure_one comp volumes networks r (ok serv) = ok (
      if not (started serv)
      then []
      else if object_exists volumes networks r
      then []
      else make_action ensure comp r ∷ [])

  unfoldable pub ensure_each :
      HostState → Component → List Volume → List Network → List Resource → Result (List Action)
  ensure_each mgr comp volumes networks [] = ok []
  ensure_each mgr comp volumes networks (r ∷ rs) = do
    here ← ensure_one comp volumes networks r (mgr.get_service (service_of r))
    rest ← ensure_each mgr comp volumes networks rs
    ok (here ++ rest)

  unfoldable pub generate_quadlet_ensurements :
      HostState → Component → Component → Result (List Action)
  generate_quadlet_ensurements mgr comp new_comp =
      let rs = questionable new_comp (list_resources comp.resources) in
      if is_empty rs
      then ok []
      else (mgr.list_volumes >>= λ volumes.
          mgr.list_networks >>= λ networks. ensure_each mgr comp volumes networks rs)
