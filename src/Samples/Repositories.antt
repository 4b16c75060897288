-- ===== src/Samples/Repositories.antt =====
-- A web component on small disks, in the host's and in the sources' repository.
use materia.Base.{
  ◌≡◌, refl, true, false, none, some, [], ◌∷◌, ◌==◌, join_path, clean_path, has_prefix, join_texts,
  clean_parts, split_text,
}
use materia.Errors.{ok}
use materia.Deps.{assoc_get, assoc_remove}
use materia.Deps.Model.{list_deps}
use materia.Components.Kind.{file}
use materia.Components.Resource.{Resource}
use materia.Components.Component.{instance_name}
use materia.Attributes.{AttributesFilter, AttributeVault, extract_vault_attributes}
use materia.Attributes.Precedence.{extract_vault_attributes-precedence}
use materia.Disk.{
  Node, dir, Disk, below, stat, remove_path, walk_dir, sort_entries, tree_of, any_below,
}
use materia.Repository.Host.{HostComponentRepository, get_resource, data_path, version_file}
use materia.Repository.Changes.{remove_component}
use materia.Repository.Lookup.{Fails, get_resource-Fails}
use materia.Repository.Removal.{remove_component_empty}
use materia.Samples.Data.{resource_of, host_web}

abbrev attribute_filter : AttributesFilter
attribute_filter = record {
  hostname = "box";
  roles = "front" ∷ "back" ∷ [];
  component = "web";
  instance_of = "";
}

abbrev attribute_vault : AttributeVault
attribute_vault = record {
  globals = ("port", "80") ∷ ("user", "root") ∷ [];
  components = ("web", ("port", "8080") ∷ []) ∷ [];
  hosts = ("box", ("port", "9090") ∷ []) ∷ [];
  roles = ("front", ("user", "www") ∷ []) ∷ ("back", ("user", "db") ∷ []) ∷ [];
}

extract_vault_attributes-precedence_example :
    assoc_get "user" (extract_vault_attributes [] attribute_vault attribute_filter) ≡ some "db"
unfolding assoc_get
extract_vault_attributes-precedence_example =
    extract_vault_attributes-precedence "user" [] attribute_vault attribute_filter

abbrev pub repository : HostComponentRepository
repository = record { data_prefix = "/data"; quadlet_prefix = "/quadlets" }

abbrev pub web_disk : Disk
web_disk =
    ("/data", dir)
    ∷ ("/data/web", dir)
    ∷ ("/data/web/.component_version", Node.file "Version = 1")
    ∷ ("/quadlets", dir)
    ∷ ("/quadlets/web", dir)
    ∷ ("/quadlets/web/.materia_managed", Node.file "")
    ∷ []

abbrev pub page : Resource
page = resource_of file "page.html" ""

abbrev pub page_disk : Disk
page_disk =
    ("/data", dir)
    ∷ ("/data/web", dir)
    ∷ ("/data/web/.component_version", Node.file "Version = 1")
    ∷ ("/quadlets", dir)
    ∷ ("/quadlets/web", dir)
    ∷ ("/quadlets/web/.materia_managed", Node.file "")
    ∷ ("/data/web/page.html", Node.file "hello")
    ∷ []

get_resource-Fails_example :
    Fails page_disk (get_resource repository (some host_web) "page.html" page_disk)
get_resource-Fails_example = get_resource-Fails repository (some host_web) "page.html" page_disk

abbrev pub bare_disk : Disk
bare_disk = ("/data", dir) ∷ ("/quadlets", dir) ∷ []

web-removed : remove_component repository (some host_web) web_disk ≡ (bare_disk, ok tt)
unfolding remove_component remove_path stat assoc_get join_path instance_name clean_path has_prefix
    join_texts clean_parts split_text walk_dir assoc_remove sort_entries tree_of any_below
web-removed = refl

nothing_left :
    (below (data_path repository host_web) "/data/web/cache" ≡ true)
    × ((join_path (data_path repository host_web) version_file == "/data/web/cache") ≡ false)
unfolding has_prefix data_path join_path instance_name clean_path join_texts clean_parts split_text
nothing_left = (refl, refl)

remove_component_empty_example : assoc_get "/data/web/cache" web_disk ≡ none
remove_component_empty_example =
    remove_component_empty repository host_web web_disk bare_disk "/data/web/cache" web-removed
      nothing_left.0 nothing_left.1
