-- ===== src/Planner/Pairing.antt =====
-- The graph of components (graph.go) pairs what is installed with what is assigned.
use materia.Base.{
  String, ◌≡◌, refl, false, Option, none, some, List, [], ◌∷◌, arith, ◌==◌, All, All-map,
  Bool-cases, inl, inr, sym, subst, ◌∙◌, eq_refl, eq_iff,
}
use materia.Errors.{OnOk, OnOk-ok, OnOk-err, OnOk-if, OnOk-step, OnOk-map}
use materia.Deps.{Deps, assoc_get, assoc_put, assoc_get-assoc_put}
use materia.Components.Component.{Component, is_instanced, instance_name}
use materia.Planner.Sides.{tree_of, last_from, build_component_graph-Holds}
use materia.Planner.Graph.{
  ComponentTree, ComponentGraph, names_differ, both_missing, add_tree, host_tree, add_installed,
  source_tree, add_assigned, build_component_graph,
}

some_injective : {A : Type 0} {x y : A} → some x ≡ some y → x ≡ y
some_injective h = cc

module _ ⦃D : Deps⦄ where
  -- a tree has a name and a side, and its sides agree on the component's name
  pub record IsTree (t : ComponentTree) : Type 0 where
    pub agrees : names_differ t.source t.host ≡ false
    pub has_side : both_missing t.source t.host ≡ false
    pub named : (t.name == "") ≡ false

  abbrev pub AllTrees : ComponentGraph → Type 0
  AllTrees g = All (λ (e : String × ComponentTree). (e.0 ≡ e.1.name) × IsTree e.1) g

  pub record HasTree (g : ComponentGraph) (name : String) : Type 0 where
    pub tree : ComponentTree
    pub found : assoc_get name g ≡ some tree

  record Added (g : ComponentGraph) (t : ComponentTree) (g' : ComponentGraph) : Type 0 where
    put : g' ≡ assoc_put t.name t g
    tree : IsTree t

  add_tree-Added : (g : ComponentGraph) (t : ComponentTree) → OnOk (Added g t) (add_tree g t)
  unfolding add_tree
  add_tree-Added g t =
      OnOk-if (names_differ t.source t.host) _ _ (λ _. OnOk-err _)
        λ a.
          OnOk-if (both_missing t.source t.host) _ _ (λ _. OnOk-err _)
            λ b.
              OnOk-if (t.name == "") _ _ (λ _. OnOk-err _)
                λ c.
                  OnOk-ok
                    (record { put = refl; tree = record { agrees = a; has_side = b; named = c } })

  AllTrees-assoc_put :
      (g : ComponentGraph) (t : ComponentTree)
      → IsTree t
      → AllTrees g
      → AllTrees (assoc_put t.name t g)
  unfolding assoc_put
  AllTrees-assoc_put [] t h a = ((refl, h), tt)
  AllTrees-assoc_put ((k, u) ∷ g) t h a = elim (Bool-cases (k == t.name)) [
    | inl e ↦ rw e (((eq_iff k t.name).0 e, h), a.1)
    | inr e ↦ rw e (a.0, AllTrees-assoc_put g t h a.1)
  ]

  HasTree-here : (g : ComponentGraph) (t : ComponentTree) → HasTree (assoc_put t.name t g) t.name
  HasTree-here g t = record { tree = t; found = rw (assoc_get-assoc_put, eq_refl t.name) refl }

  HasTree-kept :
      (g : ComponentGraph) (t : ComponentTree) (name : String)
      → HasTree g name
      → HasTree (assoc_put t.name t g) name
  HasTree-kept g t name h = elim (Bool-cases (t.name == name)) [
    | inl e ↦ record { tree = t; found = rw (assoc_get-assoc_put, e) refl }
    | inr e ↦ record { tree = h.tree; found = rw (assoc_get-assoc_put, e) h.found }
  ]

  -- what adding components to a graph keeps and brings
  pub record Grown (g : ComponentGraph) (names : Component → String) (vs : List Component)
      (g' : ComponentGraph) : Type 0 where
    pub trees : AllTrees g'
    pub kept : (name : String) → HasTree g name → HasTree g' name
    pub added : All (λ v. HasTree g' (names v)) vs

  Added-AllTrees :
      (g : ComponentGraph) (t : ComponentTree) (g' : ComponentGraph)
      → Added g t g'
      → AllTrees g
      → AllTrees g'
  Added-AllTrees g t g' d a = subst AllTrees (sym d.put) (AllTrees-assoc_put g t d.tree a)

  Grown-step :
      (g : ComponentGraph) (t : ComponentTree) (g' : ComponentGraph) (names : Component → String)
      (v : Component) (vs : List Component) (g'' : ComponentGraph)
      → Added g t g'
      → t.name ≡ names v
      → Grown g' names vs g''
      → Grown g names (v ∷ vs) g''
  Grown-step g t g' names v vs g'' d n r = record {
    trees = r.trees;
    kept =
        λ name h. r.kept name (subst (λ x. HasTree x name) (sym d.put) (HasTree-kept g t name h));
    added = (
      r.kept (names v) (
          subst (λ k. HasTree g' k) n
            (subst (λ x. HasTree x t.name) (sym d.put) (HasTree-here g t))),
      r.added,
    );
  }

  add_installed-Grown :
      (g : ComponentGraph) (vs : List Component)
      → AllTrees g
      → OnOk (Grown g (λ v. (host_tree v).name) vs) (add_installed g vs)
  unfolding add_installed
  add_installed-Grown g [] a = OnOk-ok (record { trees = a; kept = λ name h. h; added = tt })
  add_installed-Grown g (v ∷ vs) a =
      OnOk-step (add_tree g (host_tree v)) _ (add_tree-Added g (host_tree v)) λ g' d.
        OnOk-map (add_installed g' vs)
          (add_installed-Grown g' vs (Added-AllTrees g (host_tree v) g' d a))
          λ g'' r. Grown-step g (host_tree v) g' (λ x. (host_tree x).name) v vs g'' d refl r

  found_name :
      (g : ComponentGraph) (name : String) (t : ComponentTree)
      → AllTrees g
      → assoc_get name g ≡ some t
      → t.name ≡ name
  unfolding assoc_get
  found_name [] name t a h = absurd (ground arith)
  found_name ((k, u) ∷ g) name t a h = elim (Bool-cases (k == name)) [
    | inl e ↦
        subst (λ (x : ComponentTree). x.name ≡ name) (some_injective (rw e at h))
          (sym a.0.0 ∙ (eq_iff k name).0 e)
    | inr e ↦ found_name g name t a.1 (rw e at h)
  ]

  source_tree-name :
      (g : ComponentGraph) (v : Component) (o : Option ComponentTree)
      → AllTrees g
      → assoc_get (instance_name v) g ≡ o
      → (source_tree g v).name ≡ instance_name v
  unfolding source_tree
  source_tree-name g v none a e = rw (source_tree, e) refl
  source_tree-name g v (some t) a e = rw (source_tree, e) (found_name g (instance_name v) t a e)

  add_assigned-Grown :
      (g : ComponentGraph) (vs : List Component)
      → AllTrees g
      → OnOk (Grown g (λ v. instance_name v) vs) (add_assigned g vs)
  unfolding add_assigned
  add_assigned-Grown g [] a = OnOk-ok (record { trees = a; kept = λ name h. h; added = tt })
  add_assigned-Grown g (v ∷ vs) a =
      OnOk-step (add_tree g (source_tree g v)) _ (add_tree-Added g (source_tree g v)) λ g' d.
        OnOk-map (add_assigned g' vs)
          (add_assigned-Grown g' vs (Added-AllTrees g (source_tree g v) g' d a))
          λ g'' r.
            Grown-step g (source_tree g v) g' (λ x. instance_name x) v vs g'' d
              (source_tree-name g v (assoc_get (instance_name v) g) a refl) r

  host_tree-name : (v : Component) → (host_tree v).name ≡ instance_name v
  unfolding host_tree is_instanced instance_name
  host_tree-name v = ground arith

  -- a graph in which every installed and every assigned component has its tree
  record Named (installed assigned : List Component) (g : ComponentGraph) : Type 0 where
    trees : AllTrees g
    installed_there : All (λ v. HasTree g (instance_name v)) installed
    assigned_there : All (λ v. HasTree g (instance_name v)) assigned

  pub record Paired (installed assigned : List Component) (g : ComponentGraph) : Type 0 where
    pub trees : AllTrees g
    pub installed_there : All (λ v. HasTree g (instance_name v)) installed
    pub assigned_there : All (λ v. HasTree g (instance_name v)) assigned
    pub holds :
        (k : String)
        → assoc_get k g ≡ tree_of (last_from k none installed) (last_from k none assigned) k

  build_component_graph-Named :
      (installed assigned : List Component)
      → OnOk (Named installed assigned) (build_component_graph installed assigned)
  unfolding build_component_graph
  build_component_graph-Named installed assigned =
      OnOk-step (add_installed [] installed) _ (add_installed-Grown [] installed tt) λ g h.
        OnOk-map (add_assigned g assigned) (add_assigned-Grown g assigned h.trees) λ g' r. record {
          trees = r.trees;
          installed_there =
              All-map (λ v. HasTree g (host_tree v).name) (λ v. HasTree g' (instance_name v))
                (λ v k. r.kept (instance_name v) (subst (λ n. HasTree g n) (host_tree-name v) k))
                installed h.added;
          assigned_there = r.added;
        }

  -- A graph that is built without an error has under each name the tree whose host side is the
  -- last of the installed components and whose source side is the last of the assigned components
  -- of that name, and no tree if there is neither. Each installed and each assigned component has
  -- its tree, and each tree stands under its own name, which is not empty, and has one component
  -- name if it has both sides.
  pub build_component_graph-Paired :
      (installed assigned : List Component)
      → OnOk (Paired installed assigned) (build_component_graph installed assigned)
  build_component_graph-Paired installed assigned = record {
    at = λ g h.
        let named = (build_component_graph-Named installed assigned).at g h in
        record {
          trees = named.trees;
          installed_there = named.installed_there;
          assigned_there = named.assigned_there;
          holds = (build_component_graph-Holds installed assigned).at g h;
        };
  }
