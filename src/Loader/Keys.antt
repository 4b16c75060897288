-- ===== src/Loader/Keys.antt =====
-- What a source pipeline loads: a valid component in the fresh state, whose resources stand under
-- their own paths, as the planner needs it.
use materia.Base.{String, ◌≡◌, refl, Option, none, some, List, [], ◌∷◌, ◌==◌, nat_eq, not}
use materia.Errors.{Result, ok, OnOk, OnOk-ok, OnOk-if, OnOk-bind, OnOk-step}
use materia.Deps.{Deps, assoc_get}
use materia.Manifests.{ComponentManifest}
use materia.Attributes.{AttributeMap}
use materia.Components.Kind.{kind_eq, podman_secret, combined}
use materia.Components.Resource.{Resource, is_quadlet, get_host_object}
use materia.Components.ResourceSet.{ResourceSet, set_resource, delete_resource, list_resources}
use materia.Components.SetLaws.{IsKeyed}
use materia.Components.SetKeys.{set-IsKeyed, delete-IsKeyed}
use materia.Components.Applied.{apply_manifest-IsKeyed}
use materia.Components.Combined.{get_resources_from_quadlets_file}
use materia.Components.Component.{
  Component, ComponentLifecycle, validate_component, default_component_version, instance_name,
}
use materia.Loader.Stages.{
  ComponentReader, Render, each_resource, on_resources, render_one, discover_one, instantiate_one,
  inject_one, filled, or_no_text, named_component, expand_one, set_all, extract_one, component_init,
  manifest_load, put_overrides, put_extensions, resource_discovery, template_processor,
  component_instance, secret_injector, quadlet_expander, quadlet_object_extractor, state_injector,
}
use materia.Loader.Pipeline.{
  SourceInputs, template_and_secrets, shared_secret_injector, source_component_pipeline, run_stages,
  load,
}

module _ ⦃D : Deps⦄ where
  -- what one step of a loop keeps
  abbrev Keeps : (ResourceSet → Resource → Result ResourceSet) → Type 0
  Keeps f = (set : ResourceSet) (r : Resource) → IsKeyed set → OnOk IsKeyed (f set r)

  each_resource-IsKeyed :
      (f : ResourceSet → Resource → Result ResourceSet)
      → Keeps f
      → (set : ResourceSet) (rs : List Resource) → IsKeyed set
      → OnOk IsKeyed (each_resource f set rs)
  unfolding each_resource
  each_resource-IsKeyed f keep set [] k = OnOk-ok k
  each_resource-IsKeyed f keep set (r ∷ rs) k =
      OnOk-step (f set r) _ (keep set r k) (λ set' k'. each_resource-IsKeyed f keep set' rs k')

  discover_one-Keeps : (mgr : ComponentReader) → Keeps (discover_one mgr)
  unfolding discover_one
  discover_one-Keeps mgr set r k =
      OnOk-if (kind_eq r.kind podman_secret) _ _ (λ _. OnOk-ok (set-IsKeyed set _ k))
        (λ _. OnOk-bind (mgr.read_resource r) _ (λ body _. OnOk-ok (set-IsKeyed set _ k)))

  render_one-Keeps : (render : Render) (vars : AttributeMap) → Keeps (render_one render vars)
  unfolding render_one
  render_one-Keeps render vars set r k =
      OnOk-if r.template _ _
        (λ _. OnOk-bind (render vars r.content) _ (λ body _. OnOk-ok (set-IsKeyed set _ k)))
        (λ _. OnOk-ok k)

  instantiate_one-Keeps : (c : Component) → Keeps (instantiate_one c)
  unfolding instantiate_one
  instantiate_one-Keeps c set r k =
      let rest = delete-IsKeyed set r.path k in
      OnOk-if (kind_eq r.kind podman_secret) _ _
        (λ _. OnOk-ok (set-IsKeyed (delete_resource set r.path) _ rest))
        (λ _. OnOk-ok (set-IsKeyed (delete_resource set r.path) _ rest))

  filled-IsKeyed :
      (as_text : D.Value → Option String) (set : ResourceSet) (r : Resource) (o : Option D.Value)
      → IsKeyed set
      → OnOk IsKeyed (filled as_text set r o)
  unfolding filled
  filled-IsKeyed as_text set r none k = OnOk-ok (delete-IsKeyed set r.path k)
  filled-IsKeyed as_text set r (some v) k =
      OnOk-bind (or_no_text (as_text v)) _ (λ text _. OnOk-ok (set-IsKeyed set _ k))

  inject_one-Keeps :
      (as_text : D.Value → Option String) (attrs : AttributeMap) → Keeps (inject_one as_text attrs)
  unfolding inject_one
  inject_one-Keeps as_text attrs set r k =
      OnOk-if (kind_eq r.kind podman_secret) _ _
        (λ _. filled-IsKeyed as_text set r (assoc_get r.path attrs) k) (λ _. OnOk-ok k)

  set_all-IsKeyed :
      (rs : List Resource) (set : ResourceSet) → IsKeyed set → IsKeyed (set_all set rs)
  unfolding set_all
  set_all-IsKeyed [] set k = k
  set_all-IsKeyed (r ∷ rs) set k = set_all-IsKeyed rs (set_resource set r) (set-IsKeyed set r k)

  expand_one-Keeps : (c : Component) → Keeps (expand_one c)
  unfolding expand_one
  expand_one-Keeps c set r k =
      OnOk-if (kind_eq r.kind combined) _ _
        (λ _.
          OnOk-if c.settings.no_expansion _ _ (λ _. OnOk-ok k)
            (λ _. OnOk-bind (get_resources_from_quadlets_file r.parent r.content) _ (λ rs _.
              OnOk-ok (delete-IsKeyed (set_all set rs) r.path (set_all-IsKeyed rs set k)))))
        (λ _. OnOk-ok k)

  extract_one-Keeps : (c : Component) → Keeps (extract_one c)
  unfolding extract_one
  extract_one-Keeps c set r k =
      OnOk-if (is_quadlet r) _ _
        (λ _. OnOk-bind (get_host_object r r.content) _ (λ object _. OnOk-ok (set-IsKeyed set _ k)))
        (λ _. OnOk-ok k)

  -- a component whose resources stand under their own paths
  abbrev pub KeyedComponent : Component → Type 0
  KeyedComponent c = IsKeyed c.resources

  looped-IsKeyed :
      (f : ResourceSet → Resource → Result ResourceSet) (c : Component)
      → Keeps f
      → KeyedComponent c
      → OnOk KeyedComponent (on_resources f c)
  looped-IsKeyed f c keep k =
      OnOk-step (each_resource f c.resources (list_resources c.resources)) _
        (each_resource-IsKeyed f keep c.resources _ k) (λ set k'. OnOk-ok k')

  component_instance-IsKeyed :
      (c : Component) → KeyedComponent c → OnOk KeyedComponent (component_instance c)
  unfolding component_instance
  component_instance-IsKeyed c k =
      OnOk-if (c.instance_of == "") _ _ (λ _. OnOk-ok k)
        (λ _. looped-IsKeyed (instantiate_one c) c (instantiate_one-Keeps c) k)

  manifest_load-IsKeyed :
      (mgr : ComponentReader) (overrides extensions : List ComponentManifest) (c : Component)
      → KeyedComponent c
      → OnOk KeyedComponent (manifest_load mgr overrides extensions c)
  unfolding manifest_load
  manifest_load-IsKeyed mgr overrides extensions c k =
      OnOk-if (not (nat_eq c.version default_component_version)) _ _ (λ _. OnOk-ok k)
        (λ _. OnOk-bind (mgr.get_manifest c) _ (λ m _.
          OnOk-bind (put_overrides m overrides) _ (λ m' _.
            OnOk-bind (put_extensions m' extensions) _ (λ m'' _. apply_manifest-IsKeyed c m'' k))))

  template_and_secrets-IsKeyed :
      (i : SourceInputs) (c : Component)
      → KeyedComponent c
      → OnOk KeyedComponent (template_and_secrets i c)
  unfolding template_and_secrets shared_secret_injector template_processor secret_injector
  template_and_secrets-IsKeyed i c k =
      OnOk-step _ _ (looped-IsKeyed _ c (render_one-Keeps i.render _) k) (λ c₁ k₁.
        OnOk-step (component_instance c₁) _ (component_instance-IsKeyed c₁ k₁)
          (λ c₂ k₂. looped-IsKeyed _ c₂ (inject_one-Keeps i.as_text _) k₂))

  component_init-IsKeyed :
      (mgr : ComponentReader)
      → ((name : String) → OnOk KeyedComponent (mgr.get_component name))
      → (c : Component) → OnOk KeyedComponent (component_init mgr c)
  unfolding component_init
  component_init-IsKeyed mgr h c =
      OnOk-step (mgr.get_component (instance_name c)) _ (h (instance_name c))
        (λ new k. OnOk-bind (named_component c) _ (λ named _. OnOk-ok k))

  -- what the planner relies on of a component from the sources
  pub record IsFreshlyLoaded (c : Component) : Type 0 where
    pub keyed : KeyedComponent c
    pub fresh_state : c.state ≡ ComponentLifecycle.fresh
    pub valid : validate_component c ≡ ok tt

  abbrev IsFresh : Component → Type 0
  IsFresh c = KeyedComponent c × (c.state ≡ ComponentLifecycle.fresh)

  -- the stages behind the templates and the secrets
  last_stages-IsFresh :
      (c : Component)
      → KeyedComponent c
      → OnOk IsFresh (
          run_stages
            (quadlet_expander
              ∷ quadlet_object_extractor
              ∷ state_injector ComponentLifecycle.fresh
              ∷ [])
            c)
  unfolding run_stages quadlet_expander quadlet_object_extractor state_injector
  last_stages-IsFresh c k =
      OnOk-step _ _ (looped-IsKeyed (expand_one c) c (expand_one-Keeps c) k) (λ c₁ k₁.
        OnOk-step _ _ (looped-IsKeyed (extract_one c₁) c₁ (extract_one-Keeps c₁) k₁)
          (λ c₂ k₂. OnOk-ok (k₂, refl)))

  stages-IsFresh :
      (mgr : ComponentReader) (i : SourceInputs)
      → ((name : String) → OnOk KeyedComponent (mgr.get_component name))
      → (c : Component) → OnOk IsFresh (run_stages (source_component_pipeline mgr i) c)
  unfolding run_stages source_component_pipeline resource_discovery
  stages-IsFresh mgr i h c =
      OnOk-step (component_init mgr c) _ (component_init-IsKeyed mgr h c) (λ c₁ k₁.
        OnOk-step (manifest_load mgr i.overrides i.extensions c₁) _
          (manifest_load-IsKeyed mgr i.overrides i.extensions c₁ k₁)
          (λ c₂ k₂.
            OnOk-step _ _ (looped-IsKeyed (discover_one mgr) c₂ (discover_one-Keeps mgr) k₂)
              (λ c₃ k₃.
                OnOk-step (template_and_secrets i c₃) _ (template_and_secrets-IsKeyed i c₃ k₃)
                  last_stages-IsFresh)))

  -- If each component that the repository of the sources gives has its resources under their own
  -- paths, so has each component that the pipeline for the sources loads, and it is valid and in
  -- the fresh state.
  pub load-IsFreshlyLoaded :
      (mgr : ComponentReader) (i : SourceInputs)
      → ((name : String) → OnOk KeyedComponent (mgr.get_component name))
      → (c : Component) → OnOk IsFreshlyLoaded (load (source_component_pipeline mgr i) c)
  unfolding load
  load-IsFreshlyLoaded mgr i h c =
      OnOk-step (run_stages (source_component_pipeline mgr i) c) _ (stages-IsFresh mgr i h c)
        (λ c' (k, s).
          OnOk-bind (validate_component c') _
            (λ _ v. OnOk-ok (record { keyed = k; fresh_state = s; valid = v })))
