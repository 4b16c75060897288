-- ===== src/Planner/Resources.antt =====
-- planner.go: the actions on the resources of a fresh, an updated and a removed component.
use materia.Base.{
  String, Bool, false, ◌&&◌, ◌||◌, not, Option, none, some, List, [], ◌∷◌, ◌++◌, ◌==◌,
  if◌then◌else◌, reverse, is_empty,
}
use materia.Errors.{Result, ok, err, panic, ◌>>=◌, ◌>>◌, fail_if, not_fresh, not_to_be_removed}
use materia.Deps.{Deps}
use materia.Manifests.{component_manifest_file}
use materia.Components.Kind.{kind_eq, podman_secret, dropin, dropin_dir, volume}
use materia.Components.Resource.{Resource, is_file}
use materia.Components.ResourceSet.{
  list_resources, get_resource, difference_resources, intersection_resources,
}
use materia.Components.Component.{
  Component, validate_component, is_fresh, is_need_removal, to_resource,
}
use materia.Actions.{Action, make_action, install, remove, update}
use materia.Planner.Host.{HostState, PlannerConfig}
use materia.Planner.Cleanup.{generate_cleanup_resource_actions, generate_volume_migration_actions}

module _ ⦃D : Deps⦄ where
  -- a secret's content stays out of the plan
  unfoldable pub shown_content : Resource → String
  unfolding kind_eq
  shown_content r = if kind_eq r.kind podman_secret then "" else r.content

  unfoldable pub install_action : Component → Resource → Action
  install_action comp r = record (make_action install comp r) {
    diff_content = D.dmp.diff_main "" (shown_content r);
  }

  unfoldable pub install_all : Component → List Resource → List Action
  install_all comp [] = []
  install_all comp (r ∷ rs) = install_action comp r ∷ install_all comp rs

  unfoldable pub generate_fresh_component_resources : Component → Result (List Action)
  unfolding is_fresh
  generate_fresh_component_resources comp = do
    validate_component comp
    if is_fresh comp.state
        then ok (
            make_action install comp (to_resource comp)
            ∷ install_all comp (list_resources comp.resources))
        else err not_fresh

  -- an optional cleanup of a resource
  unfoldable pub cleanup_if :
      HostState → PlannerConfig → Component → Resource → Result (List Action)
  cleanup_if mgr opts comp r =
      if opts.cleanup_quadlets then generate_cleanup_resource_actions mgr opts comp r else ok []

  -- the user's drop-ins stay
  unfoldable pub is_user_dropin : Resource → Bool
  unfolding kind_eq
  is_user_dropin r = kind_eq r.kind dropin || kind_eq r.kind dropin_dir

  unfoldable pub remove_missing :
      HostState → PlannerConfig → Component → List Resource → Result (List Action)
  unfolding is_user_dropin
  remove_missing mgr opts host [] = ok []
  remove_missing mgr opts host (v ∷ vs) =
      if is_user_dropin v
      then remove_missing mgr opts host vs
      else (cleanup_if mgr opts host v >>= λ cleanups. remove_missing mgr opts host vs >>= λ rest.
          ok (record (make_action remove host v) { diff_content = some [] } ∷ (cleanups ++ rest)))

  -- `len(diffs) > 1 || diffs[0].Type != DiffEqual`; a nil slice is skipped before
  unfoldable pub has_changes : Option (List D.dmp.Diff) → Result Bool
  has_changes none = ok false
  has_changes (some []) = err panic
  has_changes (some (d ∷ ds)) = ok (not (is_empty ds) || not (D.dmp.is_equal d))

  unfoldable pub migrate_if :
      HostState → PlannerConfig → Component → Resource → Result (List Action)
  unfolding kind_eq
  migrate_if mgr opts source r =
      if kind_eq r.kind volume
      then (if opts.migrate_volumes then generate_volume_migration_actions mgr source r else ok [])
      else ok []

  -- one resource that both sides have; the target is the host's resource
  unfoldable pub update_one :
      HostState
      → PlannerConfig
      → Component
      → Resource
      → Option (List D.dmp.Diff)
      → Result (List Action)
  update_one mgr opts source r diffs = do
    changed ← has_changes diffs
    if changed
        then (migrate_if mgr opts source r >>= λ migration.
            ok (record (make_action update source r) { diff_content = diffs } ∷ migration))
        else ok []

  unfoldable pub update_common :
      HostState → PlannerConfig → Component → Component → List Resource → Result (List Action)
  update_common mgr opts host source [] = ok []
  update_common mgr opts host source (r ∷ rs) = do
    source_res ← get_resource source.resources r.path
    host_res ← get_resource host.resources r.path
    updates ← update_one mgr opts source r (D.dmp.diff_main host_res.content source_res.content)
    rest ← update_common mgr opts host source rs
    ok (updates ++ rest)

  unfoldable pub generate_updated_component_resources :
      HostState → PlannerConfig → Component → Component → Result (List Action)
  generate_updated_component_resources mgr opts host source = do
    validate_component host
    validate_component source
    removals ←
        remove_missing mgr opts host
          (list_resources (difference_resources host.resources source.resources))
    let installs =
        install_all source (list_resources (difference_resources source.resources host.resources))
    updates ←
        update_common mgr opts host source
          (list_resources (intersection_resources host.resources source.resources))
    ok (removals ++ (installs ++ updates))

  -- removing a file: its diff goes down to nothing
  unfoldable pub remove_file_action : Component → Resource → Action
  remove_file_action comp r = record (make_action remove comp r) {
    diff_content = D.dmp.diff_main r.content "";
  }

  unfoldable pub own_removal : Component → Resource → List Action
  unfolding is_file
  own_removal comp r =
      if r.path == component_manifest_file
      then []
      else if is_file r
      then remove_file_action comp r ∷ []
      else []

  -- the loop over the reversed resources: files with their cleanups; directories are kept for later
  unfoldable pub remove_files :
      HostState → PlannerConfig → Component → List Resource → Result (List Action)
  remove_files mgr opts comp [] = ok []
  remove_files mgr opts comp (r ∷ rs) = do
    cleanups ← cleanup_if mgr opts comp r
    rest ← remove_files mgr opts comp rs
    ok (own_removal comp r ++ (cleanups ++ rest))

  unfoldable pub remove_dirs : Component → List Resource → List Action
  unfolding is_file
  remove_dirs comp [] = []
  remove_dirs comp (r ∷ rs) =
      if not (r.path == component_manifest_file) && not (is_file r)
      then make_action remove comp r ∷ remove_dirs comp rs
      else remove_dirs comp rs

  unfoldable pub generate_removed_component_resources :
      HostState → PlannerConfig → Component → Result (List Action)
  unfolding is_need_removal
  generate_removed_component_resources mgr opts comp = do
    validate_component comp
    fail_if (not (is_need_removal comp.state)) not_to_be_removed
    manifest ← get_resource comp.resources component_manifest_file
    let resources = reverse (list_resources comp.resources)
    files ← remove_files mgr opts comp resources
    ok (
        files
        ++ (remove_dirs comp resources
            ++ remove_file_action comp manifest ∷ make_action remove comp (to_resource comp) ∷ []))
