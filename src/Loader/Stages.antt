-- ===== src/Loader/Stages.antt =====
-- manifest.go, quadlet.go, resource.go, secret.go, template.go: each stage as a function that gives
-- the component behind it.
use Prim.Native.String.{◌++◌}
use mathlib.Core.List
use materia.Base.{
  String, not, Option, none, some, List, [], ◌∷◌, ◌==◌, nat_eq, if◌then◌else◌, contains,
  contains_text, replace_all, split_text,
}
use materia.Errors.{Result, ok, err, ◌>>=◌, panic, not_a_text}
use materia.Deps.{Deps, assoc_get}
use materia.Manifests.{ComponentManifest, merge_component_manifests, extend_component_manifests}
use materia.Attributes.{AttributeMap, merge_attributes}
use materia.Components.Kind.{kind_eq, podman_secret, combined, app_file}
use materia.Components.Resource.{Resource, no_resource, is_quadlet, get_host_object}
use materia.Components.ResourceSet.{
  add_resource, delete_resource, set_resource, list_resources, ResourceSet,
}
use materia.Components.Component.{
  Component, ComponentLifecycle, default_component_version, instance_name, is_instanced,
  instantiate, instantiate_resource, apply_manifest, to_appfile,
}
use materia.Components.Combined.{get_resources_from_quadlets_file}

module _ ⦃D : Deps⦄ where
  -- what the stages ask of `components.ComponentReader`
  pub record ComponentReader : Type 0 where
    pub get_component : String → Result Component
    pub get_manifest : Component → Result ComponentManifest
    pub read_resource : Resource → Result String

  -- a secret is its value
  pub record SecretsManager : Type 0 where
    pub list_secrets : Result (List String)
    pub get_secret : String → Result String

  abbrev pub with_resources : Component → ResourceSet → Component
  with_resources c set = record c { resources = set }

  -- `split[0]` and `split[1]` of a name with an `@`
  unfoldable pub split_name : Component → List String → Result Component
  split_name c (name ∷ instance_of ∷ more) =
      ok (record c { name = name; instance_of = instance_of })
  split_name c _ = err panic

  unfoldable pub named_component : Component → Result Component
  unfolding split_name
  named_component c =
      if contains_text c.name "@" then split_name c (split_text c.name b'@') else ok c

  unfoldable pub component_init : ComponentReader → Component → Result Component
  unfolding named_component
  component_init mgr c = do
    new ← mgr.get_component (instance_name c)
    named ← named_component c
    ok (record named { resources = new.resources; version = new.version })

  unfoldable pub put_overrides :
      ComponentManifest → List ComponentManifest → Result ComponentManifest
  put_overrides m [] = ok m
  put_overrides m (o ∷ os) =
      merge_component_manifests (some m) (some o) >>= λ m'. put_overrides m' os

  unfoldable pub put_extensions :
      ComponentManifest → List ComponentManifest → Result ComponentManifest
  put_extensions m [] = ok m
  put_extensions m (o ∷ os) =
      extend_component_manifests (some m) (some o) >>= λ m'. put_extensions m' os

  unfoldable pub manifest_load :
      ComponentReader
      → List ComponentManifest
      → List ComponentManifest
      → Component
      → Result Component
  unfolding put_overrides put_extensions
  manifest_load mgr overrides extensions c =
      if not (nat_eq c.version default_component_version)
      then ok c
      else (mgr.get_manifest c >>= λ m. put_overrides m overrides >>= λ m'.
          put_extensions m' extensions >>= λ m''. apply_manifest c m'')

  -- the loop of a stage that looks at each resource once: what it does with one is a parameter
  unfoldable pub each_resource :
      (ResourceSet → Resource → Result ResourceSet)
      → ResourceSet
      → List Resource
      → Result ResourceSet
  each_resource f set [] = ok set
  each_resource f set (r ∷ rs) = f set r >>= λ set'. each_resource f set' rs

  abbrev pub on_resources :
      (ResourceSet → Resource → Result ResourceSet) → Component → Result Component
  on_resources f c =
      each_resource f c.resources (list_resources c.resources) >>= λ set. ok (with_resources c set)

  unfoldable pub discover_one : ComponentReader → ResourceSet → Resource → Result ResourceSet
  unfolding kind_eq
  discover_one mgr set r =
      if kind_eq r.kind podman_secret
      then ok (set_resource set (record r { content = "<UNFILLED_SECRET>" }))
      else (mgr.read_resource r >>= λ body. ok (set_resource set (record r { content = body })))

  unfoldable pub resource_discovery : ComponentReader → Component → Result Component
  unfolding discover_one each_resource
  resource_discovery mgr c = on_resources (discover_one mgr) c

  abbrev pub Render : Type 0
  Render = AttributeMap → String → Result String

  unfoldable pub render_one : Render → AttributeMap → ResourceSet → Resource → Result ResourceSet
  render_one render vars set r =
      if r.template
      then (render vars r.content >>= λ body. ok (set_resource set (record r { content = body })))
      else ok set

  unfoldable pub template_processor : Render → AttributeMap → Component → Result Component
  unfolding render_one each_resource
  template_processor render attrs c =
      on_resources (render_one render (merge_attributes attrs c.defaults)) c

  unfoldable pub instantiate_one : Component → ResourceSet → Resource → Result ResourceSet
  unfolding kind_eq
  instantiate_one c set r =
      let rest = delete_resource set r.path in
      if kind_eq r.kind podman_secret
      then ok (set_resource rest (record r { path = instantiate c r.path }))
      else ok (set_resource rest (instantiate_resource c r))

  unfoldable pub component_instance : Component → Result Component
  unfolding instantiate_one each_resource
  component_instance c = if c.instance_of == "" then ok c else on_resources (instantiate_one c) c

  unfoldable pub or_no_text : Option String → Result String
  or_no_text none = err not_a_text
  or_no_text (some text) = ok text

  unfoldable pub filled :
      (D.Value → Option String) → ResourceSet → Resource → Option D.Value → Result ResourceSet
  unfolding or_no_text
  filled as_text set r none = ok (delete_resource set r.path)
  filled as_text set r (some v) =
      or_no_text (as_text v) >>= λ text. ok (set_resource set (record r { content = text }))

  unfoldable pub inject_one :
      (D.Value → Option String) → AttributeMap → ResourceSet → Resource → Result ResourceSet
  unfolding kind_eq filled
  inject_one as_text attrs set r =
      if kind_eq r.kind podman_secret then filled as_text set r (assoc_get r.path attrs) else ok set

  unfoldable pub secret_injector :
      (D.Value → Option String) → AttributeMap → Component → Result Component
  unfolding inject_one each_resource
  secret_injector as_text attrs c = on_resources (inject_one as_text attrs) c

  unfoldable pub set_all : ResourceSet → List Resource → ResourceSet
  set_all set [] = set
  set_all set (r ∷ rs) = set_all (set_resource set r) rs

  unfoldable pub expand_one : Component → ResourceSet → Resource → Result ResourceSet
  unfolding kind_eq set_all
  expand_one c set r =
      if kind_eq r.kind combined
      then (if c.settings.no_expansion
          then ok set
          else (get_resources_from_quadlets_file r.parent r.content >>= λ expanded.
              ok (delete_resource (set_all set expanded) r.path)))
      else ok set

  unfoldable pub quadlet_expander : Component → Result Component
  unfolding expand_one each_resource
  quadlet_expander c = on_resources (expand_one c) c

  unfoldable pub extract_one : Component → ResourceSet → Resource → Result ResourceSet
  extract_one c set r =
      if is_quadlet r
      then (get_host_object r r.content >>= λ object. ok (
          set_resource set (record r {
            host_object = if is_instanced c then replace_all object "@" "_" else object;
          })))
      else ok set

  unfoldable pub quadlet_object_extractor : Component → Result Component
  unfolding extract_one each_resource
  quadlet_object_extractor c = on_resources (extract_one c) c

  -- the secrets that podman lacks are noted, and removed behind the loop
  unfoldable pub find_secrets :
      SecretsManager
      → ResourceSet
      → List String
      → List Resource
      → Result (ResourceSet × List String)
  unfolding kind_eq
  find_secrets s set deleted [] = ok (set, deleted)
  find_secrets s set deleted (r ∷ rs) =
      let other = find_secrets s set deleted rs in
      let missing = find_secrets s set (List.◌++◌ deleted (r.path ∷ [])) rs in
      if kind_eq r.kind podman_secret
      then (s.list_secrets >>= λ names.
          if contains names r.path
          then (s.get_secret r.path >>= λ value.
              find_secrets s (set_resource set (record r { content = value })) deleted rs)
          else missing)
      else other

  unfoldable pub delete_all : ResourceSet → List String → ResourceSet
  delete_all set [] = set
  delete_all set (p ∷ ps) = delete_all (delete_resource set p) ps

  unfoldable pub secret_discovery : SecretsManager → Component → Result Component
  unfolding find_secrets delete_all
  secret_discovery s c =
      find_secrets s c.resources [] (list_resources c.resources) >>= λ (set, deleted).
      ok (with_resources c (delete_all set deleted))

  unfoldable pub state_injector : ComponentLifecycle → Component → Result Component
  state_injector state c = ok (record c { state = state })

  unfoldable pub app_compatibility : Component → Result Component
  app_compatibility c =
      let name = if is_instanced c then c.name ++ ("_" ++ c.instance_of) else c.name in
      add_resource c.resources (record no_resource {
        path = "." ++ (name ++ ".app");
        parent = c.name;
        kind = app_file;
        content = to_appfile c;
      })
      >>= λ set. ok (with_resources c set)
