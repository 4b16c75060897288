-- ===== src/Planner/Sides.antt =====
-- Which components the trees of the graph (graph.go) hold.
use materia.Base.{
  String, ◌≡◌, refl, Option, none, some, List, [], ◌∷◌, arith, ◌==◌, eq_iff, eq_refl, false,
  if◌then◌else◌, Bool-cases, inl, inr, sym, subst, ◌∙◌, ap,
}
use materia.Errors.{OnOk, OnOk-ok, OnOk-err, OnOk-if, OnOk-step}
use materia.Deps.{Deps, assoc_get, assoc_put, assoc_get-assoc_put}
use materia.Components.Component.{Component, unknown, is_instanced, instance_name}
use materia.Planner.Graph.{
  ComponentTree, ComponentGraph, names_differ, both_missing, add_tree, host_tree, add_installed,
  source_tree, add_assigned, build_component_graph,
}

module _ ⦃D : Deps⦄ where
  -- the tree of two sides under a name, if one of them is there
  abbrev pub tree_of : Option Component → Option Component → String → Option ComponentTree
  tree_of none none name = none
  tree_of (some h) source name =
      some (record { host = some h; source = source; name = name; final_state = unknown })
  tree_of none (some s) name =
      some (record { host = none; source = some s; name = name; final_state = unknown })

  abbrev if_named : String → Component → Option Component → Option Component
  if_named k v before = if instance_name v == k then some v else before

  -- the last component of that name
  abbrev pub last_from : String → Option Component → List Component → Option Component
  last_from k before [] = before
  last_from k before (v ∷ vs) = last_from k (if_named k v before) vs

  abbrev Holds : (String → Option Component) → (String → Option Component) → ComponentGraph → Type 0
  Holds hosts sources g = (k : String) → assoc_get k g ≡ tree_of (hosts k) (sources k) k

  add_tree-put :
      (g : ComponentGraph) (t : ComponentTree)
      → OnOk (λ g'. g' ≡ assoc_put t.name t g) (add_tree g t)
  unfolding add_tree
  add_tree-put g t =
      OnOk-if (names_differ t.source t.host) _ _ (λ _. OnOk-err _)
        λ a.
          OnOk-if (both_missing t.source t.host) _ _ (λ _. OnOk-err _)
            λ b. OnOk-if (t.name == "") _ _ (λ _. OnOk-err _) λ c. OnOk-ok refl

  host_tree_lem : (v : Component) → some (host_tree v) ≡ tree_of (some v) none (instance_name v)
  unfolding host_tree is_instanced instance_name
  host_tree_lem v = ground arith

  abbrev name_or : String → Option ComponentTree → String
  name_or n none = n
  name_or n (some t) = t.name

  tree_name :
      (t : ComponentTree) (h s : Option Component) (n : String)
      → some t ≡ tree_of h s n
      → t.name ≡ n
  tree_name t none none n e = ap (name_or n) e
  tree_name t none (some s) n e = ap (name_or n) e
  tree_name t (some h) s n e = ap (name_or n) e

  if_named-other :
      (k : String) (v : Component) (before : Option Component)
      → (instance_name v == k) ≡ false
      → if_named k v before ≡ before
  if_named-other k v before e = rw e refl

  if_named-same :
      (v : Component) (before : Option Component) → if_named (instance_name v) v before ≡ some v
  if_named-same v before = rw (eq_refl (instance_name v)) refl

  put-Holds :
      (g : ComponentGraph) (t : ComponentTree) (n : String)
      (hosts sources hosts' sources' : String → Option Component)
      → some t ≡ tree_of (hosts' n) (sources' n) n
      → ((k : String) → (n == k) ≡ false → (hosts' k ≡ hosts k) × (sources' k ≡ sources k))
      → Holds hosts sources g
      → Holds hosts' sources' (assoc_put t.name t g)
  put-Holds g t n hosts sources hosts' sources' e same h k =
      let q = tree_name t (hosts' n) (sources' n) n e in
      assoc_get-assoc_put k t.name t g ∙ elim (Bool-cases (t.name == k)) [
        | inl b ↦ rw b (
            subst (λ m. some t ≡ tree_of (hosts' m) (sources' m) m) (sym q ∙ (eq_iff t.name k).0 b)
              e)
        | inr b ↦
            let other = same k (subst (λ m. (m == k) ≡ false) q b) in
            rw b (rw (other.0, other.1) (h k))
      ]

  source_tree_lem :
      (g : ComponentGraph) (v : Component) (h s : Option Component)
      → assoc_get (instance_name v) g ≡ tree_of h s (instance_name v)
      → some (source_tree g v) ≡ tree_of h (some v) (instance_name v)
  unfolding source_tree
  source_tree_lem g v none none e = rw (source_tree, e) refl
  source_tree_lem g v none (some s) e = rw (source_tree, e) refl
  source_tree_lem g v (some h) s e = rw (source_tree, e) refl

  abbrev no_side : String → Option Component
  no_side k = none

  add_installed-Holds :
      (g : ComponentGraph) (hosts : String → Option Component) (vs : List Component)
      → Holds hosts no_side g
      → OnOk (Holds (λ k. last_from k (hosts k) vs) no_side) (add_installed g vs)
  unfolding add_installed
  add_installed-Holds g hosts [] h = OnOk-ok h
  add_installed-Holds g hosts (v ∷ vs) h =
      OnOk-step (add_tree g (host_tree v)) _ (add_tree-put g (host_tree v)) λ g' e.
        add_installed-Holds g' (λ k. if_named k v (hosts k)) vs
          (subst (Holds (λ k. if_named k v (hosts k)) no_side) (sym e) (
            put-Holds g (host_tree v) (instance_name v) hosts no_side (λ k. if_named k v (hosts k))
              no_side
              (host_tree_lem v
                ∙ ap (λ o. tree_of o none (instance_name v))
                    (sym (if_named-same v (hosts (instance_name v)))))
              (λ k b. (if_named-other k v (hosts k) b, refl)) h))

  add_assigned-Holds :
      (g : ComponentGraph) (hosts sources : String → Option Component) (vs : List Component)
      → Holds hosts sources g
      → OnOk (Holds hosts (λ k. last_from k (sources k) vs)) (add_assigned g vs)
  unfolding add_assigned
  add_assigned-Holds g hosts sources [] h = OnOk-ok h
  add_assigned-Holds g hosts sources (v ∷ vs) h =
      let n = instance_name v in
      OnOk-step (add_tree g (source_tree g v)) _ (add_tree-put g (source_tree g v)) λ g' e.
        add_assigned-Holds g' hosts (λ k. if_named k v (sources k)) vs
          (subst (Holds hosts (λ k. if_named k v (sources k))) (sym e) (
            put-Holds g (source_tree g v) n hosts sources hosts (λ k. if_named k v (sources k))
              (source_tree_lem g v (hosts n) (sources n) (h n)
                ∙ ap (λ o. tree_of (hosts n) o n) (sym (if_named-same v (sources n))))
              (λ k b. (refl, if_named-other k v (sources k) b)) h))

  -- under each name the graph has the last component of either list, if there is one
  pub build_component_graph-Holds :
      (installed assigned : List Component)
      → OnOk
          (λ g.
            (k : String)
            → assoc_get k g ≡ tree_of (last_from k none installed) (last_from k none assigned) k)
          (build_component_graph installed assigned)
  unfolding build_component_graph assoc_get
  build_component_graph-Holds installed assigned =
      OnOk-step (add_installed [] installed) _
        (add_installed-Holds [] no_side installed (λ k. refl))
        λ g h. add_assigned-Holds g (λ k. last_from k none installed) no_side assigned h
