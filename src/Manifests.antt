-- ===== src/Manifests.antt =====
-- pkg/manifests/component.go: the manifest of a component, and how overrides and extensions of a
-- host are put on it. A TOML table is a list of its keys and values, later keys first. An `int` is
-- its 64-bit pattern.
pub mod Hosts
use materia.Base.{
  ℕ, String, Bool, false, Option, none, some, List, [], ◌∷◌, ◌++◌, ◌==◌, if◌then◌else◌, is_empty,
}
use materia.Errors.{Result, ok, err, unnamed_service_config, nil_manifest}
use materia.Deps.{Deps}

abbrev pub component_manifest_file : String
component_manifest_file = "MANIFEST.toml"

pub record ServiceResourceConfig : Type 0 where
  pub service : String
  pub restarted_by : List String
  pub reloaded_by : List String
  pub disabled : Bool
  pub static : Bool
  pub stopped : Bool
  pub oneshot : Bool
  pub timeout : ℕ

pub record Settings : Type 0 where
  pub no_restart : Bool
  pub no_expansion : Bool
  pub setup_script : String
  pub cleanup_script : String
  pub pre_script : String
  pub post_script : String

abbrev pub no_settings : Settings
no_settings = record {
  no_restart = false;
  no_expansion = false;
  setup_script = "";
  cleanup_script = "";
  pre_script = "";
  post_script = "";
}

-- `Settings.Merge` takes three of the six fields over
unfoldable pub merge_settings : Settings → Settings → Settings
merge_settings s o = record s {
  no_restart = o.no_restart;
  cleanup_script = o.cleanup_script;
  setup_script = o.setup_script;
}

unfoldable pub validate_service_config : ServiceResourceConfig → Result (Unit {0})
validate_service_config src = if src.service == "" then err unnamed_service_config else ok tt

-- `copy(dst, src)` writes over the elements that dst has, and makes it no longer
unfoldable pub copy_over {ℓ} : {A : Type ℓ} → List A → List A → List A
copy_over [] src = []
copy_over (d ∷ ds) [] = d ∷ ds
copy_over (d ∷ ds) (s ∷ ss) = s ∷ copy_over ds ss

-- the loop body of `ExtendComponentManifests`: the first service of that name gets the triggers,
-- and a service of a new name goes to the end
unfoldable pub extend_service :
    ServiceResourceConfig → List ServiceResourceConfig → List ServiceResourceConfig
extend_service s [] = s ∷ []
extend_service s (r ∷ rs) =
    if r.service == s.service
    then record r {
      restarted_by = r.restarted_by ++ s.restarted_by;
      reloaded_by = r.reloaded_by ++ s.reloaded_by;
    }
      ∷ rs
    else r ∷ extend_service s rs

unfoldable pub extend_services :
    List ServiceResourceConfig → List ServiceResourceConfig → List ServiceResourceConfig
unfolding extend_service
extend_services rs [] = rs
extend_services rs (s ∷ ss) = extend_services (extend_service s rs) ss

pub record SnippetConfig : Type 0 where
  pub name : String
  pub body : String
  pub parameters : List String

module _ ⦃D : Deps⦄ where
  pub record ComponentManifest : Type 0 where
    pub defaults : List (String × D.Value)
    pub settings : Settings
    pub snippets : List SnippetConfig
    pub services : List ServiceResourceConfig
    pub scripts : List String
    pub secrets : List String

  -- pointers, so that the checks for nil can be stated
  unfoldable pub merge_component_manifests :
      Option ComponentManifest → Option ComponentManifest → Result ComponentManifest
  unfolding merge_settings copy_over
  merge_component_manifests none override = err nil_manifest
  merge_component_manifests (some original) none = err nil_manifest
  merge_component_manifests (some original) (some override) = ok (record {
    defaults = if is_empty override.defaults then original.defaults else override.defaults;
    settings = merge_settings no_settings override.settings;
    snippets =
        if is_empty override.snippets
        then copy_over [] original.snippets
        else copy_over [] override.snippets;
    services =
        if is_empty override.services
        then copy_over [] original.services
        else copy_over [] override.services;
    scripts =
        if is_empty override.scripts
        then copy_over [] original.scripts
        else copy_over [] override.scripts;
    secrets =
        if is_empty override.secrets
        then copy_over [] original.secrets
        else copy_over ([] ++ override.secrets) override.secrets;
  })

  unfoldable pub extend_component_manifests :
      Option ComponentManifest → Option ComponentManifest → Result ComponentManifest
  unfolding merge_settings extend_services
  extend_component_manifests none extension = err nil_manifest
  extend_component_manifests (some original) none = err nil_manifest
  extend_component_manifests (some original) (some extension) = ok (record {
    defaults = extension.defaults ++ original.defaults;
    settings = merge_settings original.settings extension.settings;
    snippets = original.snippets ++ extension.snippets;
    services = extend_services original.services extension.services;
    scripts = original.scripts ++ extension.scripts;
    secrets = original.secrets ++ extension.secrets;
  })
