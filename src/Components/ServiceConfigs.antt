-- ===== src/Components/ServiceConfigs.antt =====
-- service_config_set.go: the services of a component, ordered by name.
use Prim.Native.String.{compare}
use materia.Base.{String, List, [], ◌∷◌, Ordering, ◌==◌, if◌then◌else◌}
use materia.Errors.{Result, ok, err, service_config_not_found}
use materia.Deps.{Deps}
use materia.Manifests.{ServiceResourceConfig}

unfoldable pub compare_service_resource : ServiceResourceConfig → ServiceResourceConfig → Ordering
compare_service_resource left right = compare left.service right.service

unfoldable pub find_config : String → List ServiceResourceConfig → Result ServiceResourceConfig
find_config name [] = err service_config_not_found
find_config name (s ∷ r) = if s.service == name then ok s else find_config name r

module _ ⦃D : Deps⦄ where
  abbrev pub ServiceConfigSet : Type 0
  ServiceConfigSet = D.set.Set ServiceResourceConfig compare_service_resource

  abbrev pub new_service_config_set : ServiceConfigSet
  new_service_config_set = D.set.new

  unfoldable pub add_config : ServiceConfigSet → ServiceResourceConfig → ServiceConfigSet
  add_config s src = D.set.add src s

  unfoldable pub list_configs : ServiceConfigSet → List ServiceResourceConfig
  list_configs s = D.set.values s

  unfoldable pub get_config : ServiceConfigSet → String → Result ServiceResourceConfig
  get_config s name = find_config name (D.set.values s)
