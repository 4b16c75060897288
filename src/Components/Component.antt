-- ===== src/Components/Component.antt =====
-- component.go: a component, how it is named, validated and instantiated, how a manifest is applied
-- to it and the services that it wants. The version, an `int`, is its 64-bit pattern. The pointers to its sets are never nil: `NewComponent` and
-- `NewRootComponent` fill them and nothing clears them, so `Validate` has no branch for nil here.
use Prim.Native.String.{◌++◌}
use materia.Base.{
  ℕ, String, Bool, true, false, ◌||◌, ◌&&◌, not, List, [], ◌∷◌, ◌==◌, if◌then◌else◌, contains,
  contains_text, replace_all, split_text, sort_texts, join_texts,
}
use mathlib.Core.List
use materia.Errors.{
  Result, ok, err, panic, ◌>>=◌, ◌>>◌, unnamed_component, unknown_component_state,
  setup_without_cleanup, cleanup_without_setup,
}
use materia.Deps.{Deps}
use materia.Manifests.{
  ServiceResourceConfig, Settings, no_settings, ComponentManifest, validate_service_config,
}
use materia.Services.{
  Service, ServiceSet, new_service_set, add_service, state_active, state_wildcard,
  enable_state_enabled, enable_state_disabled,
}
use materia.Components.Kind.{kind_eq, script, podman_secret, component}
use materia.Components.Resource.{Resource, is_quadlet}
use materia.Components.ResourceSet.{
  ResourceSet, new_resource_set, add_resource, set_resource, list_resources,
}
use materia.Components.ServiceConfigs.{
  ServiceConfigSet, new_service_config_set, add_config, list_configs,
}

pub data ComponentLifecycle : Type 0 where
  unknown stale fresh up_to_date may_need_update need_update need_removal removed root :
      ComponentLifecycle

unfoldable pub is_fresh : ComponentLifecycle → Bool
is_fresh fresh = true
is_fresh _ = false

unfoldable pub is_need_removal : ComponentLifecycle → Bool
is_need_removal need_removal = true
is_need_removal _ = false

unfoldable pub is_unknown : ComponentLifecycle → Bool
is_unknown unknown = true
is_unknown _ = false

abbrev pub default_component_version : ℕ
default_component_version = 1

module _ ⦃D : Deps⦄ where
  pub record Component : Type 0 where
    pub name : String
    pub instance_of : String
    pub settings : Settings
    pub resources : ResourceSet
    pub state : ComponentLifecycle
    pub defaults : List (String × D.Value)
    pub service_configs : ServiceConfigSet
    pub version : ℕ

  abbrev empty_component : String → String → ComponentLifecycle → Component
  empty_component name instance_of state = record {
    name = name;
    instance_of = instance_of;
    settings = no_settings;
    resources = new_resource_set;
    state = state;
    defaults = [];
    service_configs = new_service_config_set;
    version = 0;
  }

  -- split[0] and split[1]
  unfoldable pub from_split : List String → Result Component
  from_split (name ∷ instance_of ∷ more) = ok (empty_component name instance_of stale)
  from_split _ = err panic

  unfoldable pub new_component : String → Result Component
  new_component name =
      if contains_text name "@"
      then from_split (split_text name b'@')
      else ok (empty_component name "" stale)

  abbrev pub new_root_component : Component
  new_root_component = empty_component "root" "" root

  unfoldable pub is_instanced : Component → Bool
  is_instanced c = not (c.instance_of == "")

  unfoldable pub instantiate : Component → String → String
  instantiate c template =
      if not (c.instance_of == "") && contains_text template "@."
      then replace_all template "@" ("@" ++ c.instance_of)
      else template

  unfoldable pub instance_name : Component → String
  instance_name c = if c.instance_of == "" then c.name else c.name ++ ("@" ++ c.instance_of)

  unfoldable pub instantiate_resource : Component → Resource → Resource
  instantiate_resource c template = if c.instance_of == "" then template else record template {
    parent = instance_name c;
    path =
        if contains_text template.path "@."
        then replace_all template.path "@" ("@" ++ c.instance_of)
        else template.path;
  }

  unfoldable pub instantiate_service_config :
      Component → ServiceResourceConfig → ServiceResourceConfig
  instantiate_service_config c template =
      if c.instance_of == ""
      then template
      else if contains_text template.service "@."
      then record template { service = replace_all template.service "@" ("@" ++ c.instance_of) }
      else template

  -- the loop over the manifest's services
  unfoldable pub add_service_configs : Component → List ServiceResourceConfig → Result Component
  add_service_configs c [] = ok c
  add_service_configs c (s ∷ ss) =
      let added = record c {
        service_configs = add_config c.service_configs (instantiate_service_config c s);
      } in
      validate_service_config s >> add_service_configs added ss

  -- the loop that makes the listed resources scripts
  unfoldable pub mark_scripts : List String → ResourceSet → List Resource → Result ResourceSet
  unfolding kind_eq
  mark_scripts scripts set [] = ok set
  mark_scripts scripts set (r ∷ rs) =
      if not (kind_eq r.kind script) && contains scripts r.path
      then (add_resource set (record r { kind = script }) >>= λ set'. mark_scripts scripts set' rs)
      else mark_scripts scripts set rs

  unfoldable pub secret_resource : Component → String → Resource
  secret_resource c s = record {
    path = s;
    host_object = "";
    parent = c.name;
    kind = podman_secret;
    template = false;
    content = "";
  }

  unfoldable pub add_secrets : Component → ResourceSet → List String → ResourceSet
  add_secrets c set [] = set
  add_secrets c set (s ∷ ss) = add_secrets c (set_resource set (secret_resource c s)) ss

  unfoldable pub apply_manifest : Component → ComponentManifest → Result Component
  apply_manifest c man = do
    let copied = record c { defaults = List.◌++◌ man.defaults c.defaults; settings = man.settings }
    served ← add_service_configs copied man.services
    marked ← mark_scripts man.scripts served.resources (list_resources served.resources)
    ok (record served { resources = add_secrets c marked (sort_texts man.secrets) })

  unfoldable pub validate_component : Component → Result (Unit {0})
  unfolding is_unknown
  validate_component c =
      if c.name == ""
      then err unnamed_component
      else if is_unknown c.state
      then err unknown_component_state
      else if not (c.settings.setup_script == "") && c.settings.cleanup_script == ""
      then err setup_without_cleanup
      else if c.settings.setup_script == "" && not (c.settings.cleanup_script == "")
      then err cleanup_without_setup
      else ok tt

  unfoldable pub to_resource : Component → Resource
  to_resource c = record {
    path = c.name;
    host_object = "";
    parent = c.name;
    kind = component;
    template = false;
    content = "";
  }

  -- the service that one entry of the manifest asks for
  unfoldable pub wanted_service : ServiceResourceConfig → Service
  wanted_service sc = record {
    name = sc.service;
    state = if sc.stopped || sc.oneshot then state_wildcard else state_active;
    type = "";
    enabled = if sc.disabled || not sc.static then enable_state_disabled else enable_state_enabled;
  }

  unfoldable pub add_wanted : ServiceSet → List ServiceResourceConfig → ServiceSet
  add_wanted set [] = set
  add_wanted set (sc ∷ scs) = add_wanted (add_service set (wanted_service sc)) scs

  -- Go's second result is always nil
  unfoldable pub to_service_state : Component → ServiceSet
  to_service_state c = add_wanted new_service_set (list_configs c.service_configs)

  unfoldable pub quadlet_paths : List Resource → List String
  unfolding is_quadlet
  quadlet_paths [] = []
  quadlet_paths (r ∷ rs) = if is_quadlet r then r.path ∷ quadlet_paths rs else quadlet_paths rs

  unfoldable pub to_appfile : Component → String
  to_appfile c = join_texts "\n" (quadlet_paths (list_resources c.resources))
