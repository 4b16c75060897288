-- ===== src/Planner/Graph.antt =====
-- graph.go: a tree pairs what is installed with what is assigned under one name. A Go map is the
-- list of its entries, each name once; `List` sorts the names.
use materia.Base.{
  String, Bool, true, false, Option, none, some, List, [], ◌∷◌, ◌==◌, if◌then◌else◌, not,
  sort_texts,
}
use materia.Errors.{
  Result, ok, err, ◌>>=◌, two_components, empty_tree, unnamed_tree, tree_not_found,
}
use materia.Deps.{Deps, assoc_get, assoc_put, keys_of}
use materia.Components.Component.{
  Component, ComponentLifecycle, unknown, is_instanced, instance_name,
}

module _ ⦃D : Deps⦄ where
  pub record ComponentTree : Type 0 where
    pub host : Option Component
    pub source : Option Component
    pub name : String
    pub final_state : ComponentLifecycle

  abbrev pub ComponentGraph : Type 0
  ComponentGraph = List (String × ComponentTree)

  -- both sides are there and have different names
  unfoldable pub names_differ : Option Component → Option Component → Bool
  names_differ (some s) (some h) = not (s.name == h.name)
  names_differ _ _ = false

  unfoldable pub both_missing : Option Component → Option Component → Bool
  both_missing none none = true
  both_missing _ _ = false

  unfoldable pub add_tree : ComponentGraph → ComponentTree → Result ComponentGraph
  unfolding names_differ both_missing
  add_tree g tree =
      if names_differ tree.source tree.host
      then err two_components
      else if both_missing tree.source tree.host
      then err empty_tree
      else if tree.name == ""
      then err unnamed_tree
      else ok (assoc_put tree.name tree g)

  unfoldable pub found_tree : Option ComponentTree → Result ComponentTree
  found_tree none = err tree_not_found
  found_tree (some t) = ok t

  unfoldable pub get_tree : ComponentGraph → String → Result ComponentTree
  unfolding found_tree
  get_tree g name = found_tree (assoc_get name g)

  -- the loop of `List`; a sorted name is always a key
  unfoldable pub trees_at : List String → ComponentGraph → List ComponentTree
  trees_at [] g = []
  trees_at (k ∷ ks) g = elim (assoc_get k g) [ none ↦ trees_at ks g | some t ↦ t ∷ trees_at ks g ]

  unfoldable pub list_trees : ComponentGraph → List ComponentTree
  list_trees g = trees_at (sort_texts (keys_of g)) g

  unfoldable pub host_tree : Component → ComponentTree
  host_tree v = record {
    host = some v;
    source = none;
    name = if is_instanced v then instance_name v else v.name;
    final_state = unknown;
  }

  unfoldable pub add_installed : ComponentGraph → List Component → Result ComponentGraph
  add_installed g [] = ok g
  add_installed g (v ∷ vs) = do g' ← add_tree g (host_tree v); add_installed g' vs

  -- the tree of that name, or a new one, with its source set
  unfoldable pub source_tree : ComponentGraph → Component → ComponentTree
  source_tree g v = elim (assoc_get (instance_name v) g) [
    | none ↦ record { host = none; source = some v; name = instance_name v; final_state = unknown }
    | some t ↦ record t { source = some v }
  ]

  unfoldable pub add_assigned : ComponentGraph → List Component → Result ComponentGraph
  add_assigned g [] = ok g
  add_assigned g (v ∷ vs) = do g' ← add_tree g (source_tree g v); add_assigned g' vs

  unfoldable pub build_component_graph : List Component → List Component → Result ComponentGraph
  build_component_graph installed assigned = do
    g ← add_installed [] installed
    add_assigned g assigned
