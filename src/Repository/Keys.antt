-- ===== src/Repository/Keys.antt =====
-- The components that the repositories give (component.go, source.go) have their resources under
-- their own paths.
use materia.Base.{
  String, Bool, List, [], ◌∷◌, ◌==◌, if◌then◌else◌, contains_text, split_text, base_name, join_path,
  ◌||◌,
}
use materia.Errors.{panic, OnOk, OnOk-ok, OnOk-err, OnOk-if}
use materia.Deps.{Deps}
use materia.Manifests.{component_manifest_file}
use materia.Components.ResourceSet.{add_resource}
use materia.Components.SetLaws.{IsKeyed}
use materia.Components.SetKeys.{new-IsKeyed}
use materia.Components.Applied.{add_resource-IsKeyed}
use materia.Components.Component.{Component, new_component, from_split}
use materia.Disk.{Node, Disk, stat, walk_dir}
use materia.Disk.Steps.{OnOk-if_at, OnOk-next, OnOk-next_step}
use materia.Repository.Host
use materia.Repository.Host.{HostComponentRepository, there, require_manifest}
use materia.Repository.Source
use materia.Repository.Source.{SourceComponentRepository, first_part}

module _ ⦃D : Deps⦄ where
  abbrev pub HasKeys : Component → Type 0
  HasKeys c = IsKeyed c.resources

  from_split-HasKeys : (parts : List String) → OnOk HasKeys (from_split parts)
  unfolding from_split
  from_split-HasKeys [] = OnOk-err panic
  from_split-HasKeys (name ∷ []) = OnOk-err panic
  from_split-HasKeys (name ∷ instance_of ∷ more) = OnOk-ok new-IsKeyed

  pub new_component-HasKeys : (name : String) → OnOk HasKeys (new_component name)
  unfolding new_component
  new_component-HasKeys name =
      OnOk-if (contains_text name "@") _ _ (λ _. from_split-HasKeys (split_text name b'@'))
        (λ _. OnOk-ok new-IsKeyed)

  source_entries-HasKeys :
      (s : SourceComponentRepository) (es : List (String × Node)) (c : Component) (d : Disk)
      → HasKeys c
      → OnOk HasKeys (Source.load_entries s c es d).1
  unfolding Source.load_entries
  source_entries-HasKeys s [] c d k = OnOk-ok k
  source_entries-HasKeys s ((path, n) ∷ es) c d k =
      OnOk-if_at
        (base_name path == c.name
          || (base_name path == component_manifest_file || contains_text path ".git"))
        _ _ d (source_entries-HasKeys s es c d k)
        (OnOk-next (Source.new_resource s c path d) _ (λ res.
          OnOk-next_step _ _ (add_resource-IsKeyed c.resources res k)
            (λ set k'. source_entries-HasKeys s es (record c { resources = set }) _ k')))

  host_entries-HasKeys :
      (r : HostComponentRepository) (skipped : String → Bool) (es : List (String × Node))
      (c : Component) (d : Disk)
      → HasKeys c
      → OnOk HasKeys (Host.load_entries r c skipped es d).1
  unfolding Host.load_entries
  host_entries-HasKeys r skipped [] c d k = OnOk-ok k
  host_entries-HasKeys r skipped ((path, n) ∷ es) c d k =
      OnOk-if_at (skipped (base_name path)) _ _ d (host_entries-HasKeys r skipped es c d k) (
        OnOk-next (Host.new_resource r c path d) _ (λ res.
          OnOk-next_step _ _ (add_resource-IsKeyed c.resources res k)
            (λ set k'. host_entries-HasKeys r skipped es (record c { resources = set }) _ k')))

  load_from-HasKeys :
      (s : SourceComponentRepository) (path : String) (c : Component) (d : Disk)
      → HasKeys c
      → OnOk HasKeys (Source.load_from s path c d).1
  unfolding Source.load_from
  load_from-HasKeys s path c d k =
      OnOk-next (d, walk_dir path d) _
        (λ entries.
          OnOk-next_step (Source.load_entries s c entries d) _
            (source_entries-HasKeys s entries c d k)
            (λ loaded k'.
              OnOk-next
                (Source.new_resource s loaded (join_path path component_manifest_file)
                  (Source.load_entries s c entries d).0)
                _
                (λ manifest.
                  OnOk-next_step (_, add_resource loaded.resources manifest) _
                    (add_resource-IsKeyed loaded.resources manifest k') (λ set k''. OnOk-ok k''))))

  -- The components of the sources have their resources under their own paths.
  pub source_component-HasKeys :
      (s : SourceComponentRepository) (name : String) (d : Disk)
      → OnOk HasKeys (Source.get_component s name d).1
  unfolding Source.get_component
  source_component-HasKeys s name d =
      let plain = if contains_text name "@" then first_part (split_text name b'@') else name in
      let d₁ = (Source.get_prefix s plain d).0 in
      OnOk-next (Source.get_prefix s plain d) _ (λ path.
        OnOk-next_step (d₁, new_component plain) _ (new_component-HasKeys plain)
          (λ c k.
            OnOk-next (d₁, there (stat (join_path path component_manifest_file) d₁)) _
              (λ found.
                OnOk-next (require_manifest found d₁) _ (λ _. load_from-HasKeys s path _ _ k))))
