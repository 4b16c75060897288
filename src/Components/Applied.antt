-- ===== src/Components/Applied.antt =====
-- Putting a manifest on a component (`ApplyManifest`, component.go) keeps its resources under their own
-- paths.
use materia.Base.{String, ◌&&◌, not, List, [], ◌∷◌, contains, sort_texts}
use materia.Errors.{OnOk, OnOk-ok, OnOk-err, OnOk-if, OnOk-bind, OnOk-step, resource_in_set}
use materia.Deps.{Deps}
use materia.Manifests.{ServiceResourceConfig, ComponentManifest, validate_service_config}
use materia.Components.Kind.{kind_eq, script}
use materia.Components.Resource.{Resource}
use materia.Components.ResourceSet.{
  ResourceSet, add_resource, set_resource, contains_resource, list_resources,
}
use materia.Components.SetLaws.{IsKeyed}
use materia.Components.SetKeys.{set-IsKeyed}
use materia.Components.Component.{
  Component, add_service_configs, mark_scripts, add_secrets, secret_resource, apply_manifest,
}

module _ ⦃D : Deps⦄ where
  pub add_resource-IsKeyed :
      (r : ResourceSet) (x : Resource) → IsKeyed r → OnOk IsKeyed (add_resource r x)
  unfolding add_resource
  add_resource-IsKeyed r x k =
      OnOk-if (contains_resource r x.path) _ _ (λ _. OnOk-err resource_in_set)
        (λ _. OnOk-ok (unfold set_resource in set-IsKeyed r x k))

  mark_scripts-IsKeyed :
      (scripts : List String) (set : ResourceSet) (rs : List Resource)
      → IsKeyed set
      → OnOk IsKeyed (mark_scripts scripts set rs)
  unfolding mark_scripts
  mark_scripts-IsKeyed scripts set [] k = OnOk-ok k
  mark_scripts-IsKeyed scripts set (r ∷ rs) k =
      OnOk-if (not (kind_eq r.kind script) && contains scripts r.path) _ _
        (λ _.
          OnOk-step (add_resource set (record r { kind = script })) _
            (add_resource-IsKeyed set (record r { kind = script }) k)
            (λ set' k'. mark_scripts-IsKeyed scripts set' rs k'))
        (λ _. mark_scripts-IsKeyed scripts set rs k)

  add_secrets-IsKeyed :
      (c : Component) (set : ResourceSet) (ss : List String)
      → IsKeyed set
      → IsKeyed (add_secrets c set ss)
  unfolding add_secrets
  add_secrets-IsKeyed c set [] k = k
  add_secrets-IsKeyed c set (s ∷ ss) k =
      add_secrets-IsKeyed c (set_resource set (secret_resource c s)) ss
        (set-IsKeyed set (secret_resource c s) k)

  add_service_configs-IsKeyed :
      (ss : List ServiceResourceConfig) (c : Component)
      → IsKeyed c.resources
      → OnOk (λ c'. IsKeyed c'.resources) (add_service_configs c ss)
  unfolding add_service_configs
  add_service_configs-IsKeyed [] c k = OnOk-ok k
  add_service_configs-IsKeyed (s ∷ ss) c k =
      OnOk-bind (validate_service_config s) _ λ _ _. add_service_configs-IsKeyed ss _ k

  -- If the resources of a component stand under their own paths, they still do when applying a
  -- manifest to it succeeds.
  pub apply_manifest-IsKeyed :
      (c : Component) (man : ComponentManifest)
      → IsKeyed c.resources
      → OnOk (λ c'. IsKeyed c'.resources) (apply_manifest c man)
  unfolding apply_manifest
  apply_manifest-IsKeyed c man k =
      OnOk-step (add_service_configs _ man.services) _
        (add_service_configs-IsKeyed man.services _ k)
        λ served h.
          OnOk-step (mark_scripts man.scripts served.resources (list_resources served.resources)) _
            (mark_scripts-IsKeyed man.scripts served.resources (list_resources served.resources) h)
            λ marked q. OnOk-ok (add_secrets-IsKeyed _ marked (sort_texts man.secrets) q)
