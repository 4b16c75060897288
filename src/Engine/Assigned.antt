-- ===== src/Engine/Assigned.antt =====
-- materia.go: GetAssignedComponents and getRolesFromManifest. The command that names the roles is a
-- parameter.
use materia.Base.{String, Option, none, some, List, [], ◌∷◌, ◌++◌, ◌==◌, if◌then◌else◌, sort_texts}
use materia.Errors.{Result, ok}
use materia.Deps.{Deps, assoc_get}
use materia.Manifests.Hosts.{Host, MateriaManifest}

module _ ⦃D : Deps⦄ where
  unfoldable pub components_of : Option Host → List String
  components_of none = []
  components_of (some h) = h.components

  unfoldable pub role_components : Option (List String) → List String
  role_components none = []
  role_components (some components) = components

  unfoldable pub components_of_roles : MateriaManifest → List String → List String
  unfolding role_components
  components_of_roles m [] = []
  components_of_roles m (r ∷ rs) = role_components (assoc_get r m.roles) ++ components_of_roles m rs

  unfoldable pub get_assigned_components : MateriaManifest → String → List String → List String
  unfolding components_of components_of_roles
  get_assigned_components m hostname roles = sort_texts (
      components_of (assoc_get "all" m.hosts)
      ++ (components_of (assoc_get hostname m.hosts) ++ components_of_roles m roles))

  unfoldable pub roles_of : Option Host → List String
  roles_of none = []
  roles_of (some h) = h.roles

  unfoldable pub get_roles_from_manifest :
      (String → Result (List String)) → MateriaManifest → String → Result (List String)
  unfolding roles_of
  get_roles_from_manifest run_command m hostname =
      if m.role_command == ""
      then ok (roles_of (assoc_get hostname m.hosts))
      else run_command m.role_command
