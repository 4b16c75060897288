-- ===== src/Loader/Pipeline.antt =====
-- main.go: the pipelines, which end with the validation of the component.
use materia.Base.{String, Option, List, [], ◌∷◌, ◌++◌}
use materia.Errors.{Result, ok, ◌>>=◌, ◌>>◌}
use materia.Deps.{Deps}
use materia.Manifests.{ComponentManifest}
use materia.Attributes.{AttributeMap, merge_attributes}
use materia.Components.Component.{Component, ComponentLifecycle, validate_component}
use materia.Loader.Stages.{
  ComponentReader, SecretsManager, Render, component_init, manifest_load, resource_discovery,
  template_processor, component_instance, secret_injector, quadlet_expander,
  quadlet_object_extractor, secret_discovery, state_injector,
}

module _ ⦃D : Deps⦄ where
  abbrev pub Stage : Type 0
  Stage = Component → Result Component

  unfoldable pub add_stage : List Stage → Stage → List Stage
  add_stage stages stage = stages ++ (stage ∷ [])

  unfoldable pub host_component_pipeline : ComponentReader → SecretsManager → List Stage
  host_component_pipeline mgr cont =
      component_init mgr
      ∷ manifest_load mgr [] []
      ∷ resource_discovery mgr
      ∷ component_instance
      ∷ quadlet_object_extractor
      ∷ secret_discovery cont
      ∷ state_injector ComponentLifecycle.stale
      ∷ []

  -- what a source pipeline is made with, besides the repository
  pub record SourceInputs : Type 0 where
    pub render : Render
    pub as_text : D.Value → Option String
    pub attrs : AttributeMap
    pub overrides : List ComponentManifest
    pub extensions : List ComponentManifest

  -- `MergeAttributes` puts the defaults of the component into the map of attributes itself, which
  -- the stage for the secrets shares
  unfoldable pub shared_secret_injector : SourceInputs → AttributeMap → Stage
  shared_secret_injector i defaults c =
      secret_injector i.as_text (merge_attributes i.attrs defaults) c

  unfoldable pub template_and_secrets : SourceInputs → Stage
  unfolding shared_secret_injector
  template_and_secrets i c = template_processor i.render i.attrs c >>= λ c'.
      component_instance c' >>= λ c''. shared_secret_injector i c.defaults c''

  -- the templates, the instance and the secrets are one stage here, as they share the attributes
  unfoldable pub source_component_pipeline : ComponentReader → SourceInputs → List Stage
  source_component_pipeline mgr i =
      component_init mgr
      ∷ manifest_load mgr i.overrides i.extensions
      ∷ resource_discovery mgr
      ∷ template_and_secrets i
      ∷ quadlet_expander
      ∷ quadlet_object_extractor
      ∷ state_injector ComponentLifecycle.fresh
      ∷ []

  unfoldable pub run_stages : List Stage → Stage
  run_stages [] c = ok c
  run_stages (stage ∷ stages) c = stage c >>= run_stages stages

  unfoldable pub load : List Stage → Stage
  unfolding run_stages
  load stages c = run_stages stages c >>= λ c'. validate_component c' >> ok c'
