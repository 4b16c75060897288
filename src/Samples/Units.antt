-- ===== src/Samples/Units.antt =====
-- The theorems on units, on the graph of components and on moved volumes at the web component.
use materia.Base.{◌≡◌, refl, ◌⊎◌, List, [], ◌∷◌, base_name, ext, trim_suffix, has_suffix}
use materia.Errors.{OnOk}
use materia.Deps.Model.{list_deps}
use materia.Services.{path_to_service}
use materia.Components.Kind.{container, find_resource_type, type_of_ext}
use materia.Components.Resource.{service_of}
use materia.Components.Units.{service_of-path_to_service}
use materia.Actions.{Action}
use materia.Planner.Graph.{build_component_graph}
use materia.Planner.Pairing.{Paired, build_component_graph-Paired}
use materia.Planner.Cleanup.{generate_volume_migration_actions}
use materia.Planner.Migration.{Moves, NoVolume, generate_volume_migration_actions-Moves}
use materia.Samples.Data.{quiet_host, host_web, source_web, new_web, data_volume}

new_web-kind : container ≡ find_resource_type "web.container"
unfolding find_resource_type type_of_ext ext trim_suffix has_suffix
new_web-kind = refl

new_web-base : base_name "web.container" ≡ "web.container"
unfolding base_name
new_web-base = refl

new_web-plain : trim_suffix "web.container" ".gotmpl" ≡ "web.container"
unfolding trim_suffix has_suffix
new_web-plain = refl

service_of-path_to_service_example : service_of new_web ≡ path_to_service "web.container"
service_of-path_to_service_example =
    service_of-path_to_service new_web new_web-kind new_web-base new_web-plain refl

build_component_graph-Paired_example :
    OnOk
      (Paired (host_web ∷ []) (source_web ∷ []))
      (build_component_graph (host_web ∷ []) (source_web ∷ []))
build_component_graph-Paired_example =
    build_component_graph-Paired (host_web ∷ []) (source_web ∷ [])

generate_volume_migration_actions-Moves_example :
    OnOk
      (λ (l : List Action).
        ((l ≡ []) × NoVolume quiet_host data_volume) ⊎ Moves quiet_host source_web data_volume l)
      (generate_volume_migration_actions quiet_host source_web data_volume)
generate_volume_migration_actions-Moves_example =
    generate_volume_migration_actions-Moves quiet_host source_web data_volume
