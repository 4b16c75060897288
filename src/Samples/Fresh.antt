-- ===== src/Samples/Fresh.antt =====
-- A fresh component with a page in a directory, installed on an empty host.
use materia.Repository.Changes.{install_component, install_resource}
use materia.Executor.Handlers.{
  install_component_step, with_parent, install_or_update_file, install_dir,
}
use materia.Executor.Table.{execute_action, dispatch, handler_for, handle}
use materia.Deps.{values_of, assoc_get, assoc_put}
use materia.Base.{
  clean_path, ◌≡◌, refl, none, List, All, [], ◌∷◌, true, false, join_path, has_prefix, join_texts,
  clean_parts, split_text, dir_name,
}
use materia.Errors.{ok}
use materia.Deps.Model.{list_deps}
use materia.Disk.{Node, dir, Disk, mkdir, stat, touch_file, write_file}
use materia.Components.Kind.{directory, kind_eq}
use materia.Components.Resource.{Resource, validate_resource, is_quadlet}
use materia.Components.ResourceSet.{list_resources}
use materia.Components.Component.{Component, fresh, to_resource, validate_component, instance_name}
use materia.Actions.{Action, make_action, install, get_content_as_diffs}
use materia.Planner.Resources.{
  generate_fresh_component_resources, install_action, install_all, shown_content,
}
use materia.Executor.Run.{run_steps, no_progress, carry, note_step}
use materia.Hostman.{host_of, perform_call}
use materia.Hostman.Fresh.{run_steps-fresh_read, is_plain, Apart}
use materia.Executor.Effects.{is_plain_file}
use materia.Repository.Written.{destination}
use materia.Repository.Host.{read_resource}
use materia.Samples.Data.{component_of, resource_of, manifest_file}
use materia.Samples.Executions.{sample_executor}
use materia.Samples.Repositories.{repository, bare_disk}
use materia.Samples.Hosts.{web_host, hello_page}

abbrev pages : Resource
pages = resource_of directory "pages" ""

abbrev fresh_web : Component
fresh_web =
    component_of fresh
      (("MANIFEST.toml", manifest_file) ∷ ("pages", pages) ∷ ("page.html", hello_page) ∷ [])

abbrev fresh_steps : List Action
fresh_steps =
    make_action install fresh_web (to_resource fresh_web)
    ∷ install_action fresh_web manifest_file
    ∷ install_action fresh_web pages
    ∷ install_action fresh_web hello_page
    ∷ []

abbrev fresh_disk : Disk
fresh_disk =
    ("/data", dir)
    ∷ ("/quadlets", dir)
    ∷ ("/data/web", dir)
    ∷ ("/quadlets/web", dir)
    ∷ ("/quadlets/web/.materia_managed", Node.file "")
    ∷ ("/data/web/.component_version", Node.file "Version = 1")
    ∷ ("/data/web/MANIFEST.toml", Node.file "web")
    ∷ ("/data/web/pages", dir)
    ∷ ("/data/web/page.html", Node.file "hello")
    ∷ []

fresh-made : generate_fresh_component_resources fresh_web ≡ ok fresh_steps
unfolding generate_fresh_component_resources validate_component install_all list_resources values_of
fresh-made = refl

fresh-run :
    run_steps (host_of web_host) sample_executor fresh_steps no_progress (bare_disk, tt)
    ≡ ((fresh_disk, tt), (record no_progress { done = 4 }, none))
unfolding run_steps carry execute_action dispatch handler_for to_resource handle
    install_component_step with_parent perform_call install_component validate_component mkdir
    assoc_get join_path instance_name clean_path has_prefix join_texts clean_parts split_text stat
    dir_name assoc_put touch_file write_file install_action install_or_update_file
    get_content_as_diffs install_resource validate_resource is_quadlet install_dir shown_content
    note_step
fresh-run = refl

fresh-plain : All (λ r. is_plain r.kind ≡ true) (list_resources fresh_web.resources)
unfolding list_resources values_of kind_eq
fresh-plain = (refl, (refl, (refl, tt)))

fresh-Apart : Apart (destination repository) (list_resources fresh_web.resources)
unfolding list_resources values_of is_quadlet join_path clean_path clean_parts split_text join_texts
    has_prefix
fresh-Apart = ((λ e. cc, (λ e. cc, tt)), ((λ e. cc, tt), (tt, tt)))

run_steps-fresh_read_example :
    All
      (λ r.
        is_plain_file r.kind ≡ true
        → r.template ≡ false
        → read_resource repository r fresh_disk ≡ (fresh_disk, ok r.content))
      (manifest_file ∷ pages ∷ hello_page ∷ [])
unfolding list_resources values_of
run_steps-fresh_read_example =
    run_steps-fresh_read web_host sample_executor fresh_web fresh_steps no_progress
      (record no_progress { done = 4 }) (bare_disk, tt) fresh_disk tt fresh-made fresh-plain
      fresh-Apart fresh-run
