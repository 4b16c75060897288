-- ===== src/Samples/Updates.antt =====
-- The theorems on sets of resources, on updates and on service states at the web component.
use materia.Base.{
  String, ◌≡◌, ◌≢◌, refl, List, [], ◌∷◌, true, false, none, some, Exists, ◌==◌, eq_iff, sym, ◌∙◌,
  contains,
}
use materia.Errors.{ok, OnOk}
use materia.Manifests.{no_settings, ComponentManifest}
use materia.Components.Applied.{apply_manifest-IsKeyed}
use materia.Planner.Lifecycle.{fresh_resources_complete, RemovesWhole, removed_resources-last}
use materia.Actions.{Action, make_action, install}
use materia.Deps.{assoc_get}
use materia.Deps.Model.{list_deps}
use materia.Components.Kind.{kind_eq, kind_code, script}
use materia.Components.Resource.{Resource}
use materia.Components.ResourceSet.{is_there, contains_resource}
use materia.Components.SetLaws.{find, IsKeyed}
use materia.Components.Component.{
  Component, apply_manifest, validate_component, is_unknown, is_fresh, to_resource,
}
use materia.Planner.Host.{default_planner_config}
use materia.Planner.Resources.{
  generate_removed_component_resources, generate_fresh_component_resources,
  generate_updated_component_resources, is_user_dropin,
}
use materia.Planner.Unchanged.{updated_resources-nothing}
use materia.Planner.Updates.{
  Installs, Removes, Updates, updated_resources-Installs, updated_resources-Removes,
  updated_resources-Updates,
}
use materia.Services.{Service}
use materia.Planner.ServiceActions.{is_absent, is_enabled, service_state_helper}
use materia.Planner.Convergence.{run, asked_state, service_state_helper-reaches}
use materia.Samples.Data.{
  host_web, source_web, quiet_host, old_web, new_web, data_volume, front_network, running_web,
  web_service,
}

host-IsKeyed : IsKeyed host_web.resources
host-IsKeyed = (refl, (refl, (refl, tt)))

source-IsKeyed : IsKeyed source_web.resources
source-IsKeyed = (refl, (refl, (refl, tt)))

host_old : find host_web.resources "web.container" ≡ some old_web
unfolding assoc_get
host_old = refl

source_new : find source_web.resources "web.container" ≡ some new_web
unfolding assoc_get
source_new = refl

texts_differ : (a b : String) → (a == b) ≡ false → a ≢ b
texts_differ a b h e = cc (sym h ∙ (eq_iff a b).1 e)

updated_resources-Updates_example :
    OnOk
      (Exists (Updates source_web new_web))
      (generate_updated_component_resources quiet_host default_planner_config host_web source_web)
updated_resources-Updates_example =
    updated_resources-Updates quiet_host default_planner_config host_web source_web host-IsKeyed
      source-IsKeyed "web.container" old_web new_web host_old source_new
      (texts_differ "web:1" "web:2" refl)

source_front : find source_web.resources "front.network" ≡ some front_network
unfolding assoc_get
source_front = refl

host_front : find host_web.resources "front.network" ≡ none
unfolding assoc_get
host_front = refl

updated_resources-Installs_example :
    OnOk
      (Exists (Installs source_web front_network))
      (generate_updated_component_resources quiet_host default_planner_config host_web source_web)
updated_resources-Installs_example =
    updated_resources-Installs quiet_host default_planner_config host_web source_web host-IsKeyed
      source-IsKeyed "front.network" front_network source_front host_front

host_data : find host_web.resources "data.volume" ≡ some data_volume
unfolding assoc_get
host_data = refl

source_data : find source_web.resources "data.volume" ≡ none
unfolding assoc_get
source_data = refl

data-kept : is_user_dropin data_volume ≡ false
unfolding is_user_dropin kind_eq kind_code
data-kept = refl

updated_resources-Removes_example :
    OnOk
      (Exists (Removes host_web data_volume))
      (generate_updated_component_resources quiet_host default_planner_config host_web source_web)
updated_resources-Removes_example =
    updated_resources-Removes quiet_host default_planner_config host_web source_web host-IsKeyed
      source-IsKeyed "data.volume" data_volume host_data source_data data-kept

host-valid : validate_component host_web ≡ ok tt
unfolding validate_component is_unknown
host-valid = refl

updated_resources-nothing_example :
    generate_updated_component_resources quiet_host default_planner_config host_web host_web ≡ ok []
updated_resources-nothing_example =
    updated_resources-nothing quiet_host default_planner_config host_web host_web host-IsKeyed
      host-IsKeyed host-valid host-valid (λ j. refl)

stopped_web : Service
stopped_web = record running_web { state = "inactive"; enabled = "enabled" }

stopped-there : is_absent stopped_web ≡ false
unfolding is_absent stopped_web
stopped-there = refl

running-there : is_absent running_web ≡ false
unfolding is_absent
running-there = refl

service_state_helper-reaches_example :
    ((run (service_state_helper running_web stopped_web) stopped_web).state
      ≡ asked_state running_web stopped_web)
    × (is_enabled (run (service_state_helper running_web stopped_web) stopped_web)
        ≡ is_enabled running_web)
service_state_helper-reaches_example =
    service_state_helper-reaches running_web stopped_web stopped-there running-there

source-valid : validate_component source_web ≡ ok tt
unfolding validate_component is_unknown
source-valid = refl

source-fresh : is_fresh source_web.state ≡ true
unfolding is_fresh
source-fresh = refl

fresh_resources_complete_example :
    (rest : List Action) × (generate_fresh_component_resources source_web
      ≡ ok (make_action install source_web (to_resource source_web) ∷ rest))
    × ((j : String) (s : Resource)
        → find source_web.resources j ≡ some s
        → Exists (Installs source_web s) rest)
fresh_resources_complete_example =
    fresh_resources_complete source_web source-IsKeyed source-valid source-fresh

removed_resources-last_example :
    OnOk
      (RemovesWhole host_web)
      (generate_removed_component_resources quiet_host default_planner_config host_web)
removed_resources-last_example = removed_resources-last quiet_host default_planner_config host_web

no_script : kind_eq old_web.kind script ≡ false
unfolding kind_eq kind_code
no_script = refl

listed_script : contains ("web.container" ∷ []) old_web.path ≡ true
listed_script = refl

present_script : contains_resource host_web.resources old_web.path ≡ true
unfolding contains_resource is_there assoc_get
present_script = refl

abbrev web_manifest : ComponentManifest
web_manifest = record {
  defaults = [];
  settings = no_settings;
  snippets = [];
  services = web_service ∷ [];
  scripts = "run.sh" ∷ [];
  secrets = [];
}

apply_manifest-IsKeyed_example :
    OnOk (λ (c : Component). IsKeyed c.resources) (apply_manifest host_web web_manifest)
apply_manifest-IsKeyed_example = apply_manifest-IsKeyed host_web web_manifest host-IsKeyed
