-- ===== src/Engine/Planning.antt =====
-- materia.go: Plan, PlanComponent, and the loading of components for them.
use materia.Base.{String, Bool, true, false, ◌&&◌, List, [], ◌∷◌, ◌==◌, if◌then◌else◌, is_empty}
use materia.Errors.{
  Error, Result, ok, err, ◌>>=◌, ◌>>◌, component_not_assigned, lock_failed, nothing_to_plan,
}
use materia.Deps.{Deps}
use materia.Manifests.{ComponentManifest}
use materia.Manifests.Hosts.{get_component_override, get_component_extension}
use materia.Attributes.{AttributesFilter}
use materia.Components.Component.{Component, new_component}
use materia.Loader.Stages.{app_compatibility}
use materia.Loader.Pipeline.{
  Stage, add_stage, host_component_pipeline, source_component_pipeline, SourceInputs, load,
}
use materia.Plan.Build.{Plan}
use materia.Plan.Validator.{validate_plan}
use materia.Planner.Planning.{make_plan}
use materia.Engine.Backend.{Materia, with_lock}
use materia.Engine.Assigned.{get_assigned_components}

unfoldable pub is_not_assigned : Error → Bool
is_not_assigned component_not_assigned = true
is_not_assigned _ = false

module _ ⦃D : Deps⦄ where
  -- an override or an extension, if there is one: only `ErrComponentNotAssignedToHost` is none
  unfoldable pub one_or_none : Result ComponentManifest → Result (List ComponentManifest)
  unfolding is_not_assigned
  one_or_none (ok m) = ok (m ∷ [])
  one_or_none (err e) = if is_not_assigned e then ok [] else err e

  module _ {S : Type 0} (m : Materia S) (s : S) where
    unfoldable pub load_host_component : String → Result Component
    load_host_component name =
        new_component name >>= load (host_component_pipeline (m.host_reader s) (m.secrets s))

    unfoldable pub load_installed : List String → Result (List Component)
    unfolding load_host_component
    load_installed [] = ok []
    load_installed (n ∷ ns) = do c ← load_host_component n; cs ← load_installed ns; ok (c ∷ cs)

    -- the pipeline for a component of the sources, with what the manifest and the vault give
    unfoldable pub source_inputs : AttributesFilter → String → Result SourceInputs
    unfolding one_or_none
    source_inputs filter name = do
      attrs ← m.vault filter
      overrides ← one_or_none (get_component_override m.manifest m.hostname name)
      extensions ← one_or_none (get_component_extension m.manifest m.hostname name)
      ok (record {
        render = m.render;
        as_text = m.as_text;
        attrs = attrs;
        overrides = overrides;
        extensions = extensions;
      })

    unfoldable pub with_app_stage : List Stage → List Stage
    with_app_stage stages = if m.app_mode then add_stage stages app_compatibility else stages

    unfoldable pub load_assigned_component : String → Result Component
    unfolding source_inputs with_app_stage
    load_assigned_component name = do
      c ← new_component name
      i ←
          source_inputs
            (record {
              hostname = m.hostname;
              roles = m.roles;
              component = c.name;
              instance_of = c.instance_of;
            })
            name
      load (with_app_stage (source_component_pipeline (m.source_reader s) i)) c

    unfoldable pub load_assigned : List String → Result (List Component)
    unfolding load_assigned_component
    load_assigned [] = ok []
    load_assigned (n ∷ ns) = do c ← load_assigned_component n; cs ← load_assigned ns; ok (c ∷ cs)

    -- what `Plan` does under the lock
    unfoldable pub plan_body : Result Plan
    unfolding load_installed load_assigned
    plan_body = do
      installed_names ← m.list_installed_components s
      installed ← load_installed installed_names
      assigned ← load_assigned (get_assigned_components m.manifest m.hostname m.roles)
      p ← make_plan (m.host_state s) m.planner installed assigned
      validate_plan installed_names p
      ok p

    unfoldable pub plan_component : String → List String → Result Plan
    unfolding source_inputs
    plan_component name roles =
        if name == "" && is_empty roles
        then err nothing_to_plan
        else (source_inputs
              (record { hostname = m.hostname; roles = roles; component = name; instance_of = "" })
              name
            >>= λ i. new_component name >>= λ new.
                load (source_component_pipeline (m.source_reader s) i) new >>= λ c.
                make_plan (m.host_state s) m.planner [] (c ∷ []))

  unfoldable pub plan : {S : Type 0} → Materia S → S → S × Result Plan
  plan m s = with_lock m.locker (err lock_failed) (λ t. (t, plan_body m t)) s
