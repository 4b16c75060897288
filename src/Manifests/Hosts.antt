-- ===== src/Manifests/Hosts.antt =====
-- pkg/manifests/materia.go: the manifest of the repository, with the components of hosts and roles.
-- A Go map is the list of its entries. The remotes are in Sources/Remotes.
use materia.Base.{String, Option, none, some, List, [], ◌∷◌, ◌==◌, if◌then◌else◌, contains}
use materia.Errors.{
  Result, ok, err, unnamed_host, unnamed_host_component, unnamed_role, host_not_in_manifest,
  component_not_assigned,
}
use materia.Deps.{Deps, assoc_get}
use materia.Manifests.{ComponentManifest, SnippetConfig}

module _ ⦃D : Deps⦄ where
  pub record Host : Type 0 where
    pub components : List String
    pub roles : List String
    pub overrides : List (String × ComponentManifest)
    pub extensions : List (String × ComponentManifest)

  -- a role is the list of its components
  pub record MateriaManifest : Type 0 where
    pub hosts : List (String × Host)
    pub snippets : List SnippetConfig
    pub roles : List (String × List String)
    pub role_command : String

  unfoldable pub validate_hosts : List (String × Host) → Result (Unit {0})
  validate_hosts [] = ok tt
  validate_hosts ((k, v) ∷ hosts) =
      let rest = validate_hosts hosts in
      if k == ""
      then err unnamed_host
      else if contains v.components ""
      then err unnamed_host_component
      else if contains v.roles ""
      then err unnamed_role
      else rest

  unfoldable pub validate_manifest : MateriaManifest → Result (Unit {0})
  unfolding validate_hosts
  validate_manifest m = validate_hosts m.hosts

  or_not_assigned : Option ComponentManifest → Result ComponentManifest
  or_not_assigned none = err component_not_assigned
  or_not_assigned (some o) = ok o

  override_of : String → Option Host → Result ComponentManifest
  override_of name none = err host_not_in_manifest
  override_of name (some h) = or_not_assigned (assoc_get name h.overrides)

  extension_of : String → Option Host → Result ComponentManifest
  extension_of name none = err host_not_in_manifest
  extension_of name (some h) = or_not_assigned (assoc_get name h.extensions)

  unfoldable pub get_component_override :
      MateriaManifest → String → String → Result ComponentManifest
  unfolding override_of or_not_assigned
  get_component_override m hostname name = override_of name (assoc_get hostname m.hosts)

  unfoldable pub get_component_extension :
      MateriaManifest → String → String → Result ComponentManifest
  unfolding extension_of or_not_assigned
  get_component_extension m hostname name = extension_of name (assoc_get hostname m.hosts)
