-- ===== src/Repository/Removal.antt =====
-- When the host's repository (component.go) removes components.
use materia.Base.{
  String, ◌≡◌, refl, ◌∙◌, sym, subst, ap, Bool, true, false, ◌||◌, Option, none, some, List, [],
  ◌∷◌, arith, inl, inr, ◌==◌, eq_iff, if◌then◌else◌, Bool-cases, join_path,
}
use materia.Errors.{Result, ok, err, ◌>>=◌, >>=-eq-ok, ok_injective}
use materia.Deps.{Deps, assoc_get, assoc_remove}
use materia.Components.Component.{Component}
use materia.Disk.{
  Node, Disk, below, any_below, drop_tree, remove_all, dir, file, stat, remove_path, remove_node,
  walk_dir, stored,
}
use materia.Disk.Steps.{next-ok, next-first}
use materia.Repository.Host.{HostComponentRepository, version_file, data_path}
use materia.Repository.Changes.{
  purge_component_by_name, remove_component, leftover_dirs, remove_paths,
}

get-drop_tree :
    (path q : String) (d : Disk)
    → assoc_get q (drop_tree path d) ≡ (if q == path || below path q then none else assoc_get q d)
unfolding assoc_get drop_tree
get-drop_tree path q [] = ground arith
get-drop_tree path q ((p, n) ∷ d) =
    ground (arith, eq_iff p q, eq_iff p path, eq_iff q path, get-drop_tree path q d)

-- what is left of the disk without the trees at two paths
abbrev pub outside : String → String → String → Disk → Option Node
outside a b q d = if (q == a || below a q) || (q == b || below b q) then none else assoc_get q d

get-drop_two :
    (a b q : String) (d : Disk) → assoc_get q (drop_tree b (drop_tree a d)) ≡ outside a b q d
get-drop_two a b q d = ground (arith, get-drop_tree b q (drop_tree a d), get-drop_tree a q d)

module _ ⦃D : Deps⦄ (r : HostComponentRepository) where
  -- Purging a component by a name that is not empty succeeds, and takes its directories of data and
  -- of quadlets with all that they hold, and nothing else.
  pub purge_component_by_name_removes :
      (name q : String) (d : Disk)
      → (name == "") ≡ false
      → (d' : Disk) × (purge_component_by_name r name d ≡ (d', ok tt))
        × (assoc_get q d'
            ≡ outside (join_path r.data_prefix name) (join_path r.quadlet_prefix name) q d)
  unfolding purge_component_by_name remove_all
  purge_component_by_name_removes name q d h =
      let a = join_path r.data_prefix name in
      let b = join_path r.quadlet_prefix name in
      (drop_tree b (drop_tree a d), rw h refl, get-drop_two a b q d)

get-assoc_remove_other :
    (q v : String) (d : Disk) → (v == q) ≡ false → assoc_get q (assoc_remove v d) ≡ assoc_get q d
unfolding assoc_get assoc_remove
get-assoc_remove_other q v [] h = refl
get-assoc_remove_other q v ((p, n) ∷ d) h =
    ground (arith, eq_iff p v, eq_iff p q, eq_iff v q, get-assoc_remove_other q v d)

second_false : (a b : Bool) → (a || b) ≡ false → b ≡ false
second_false a b h = ground arith

get-any_below :
    (path q : String) (d : Disk)
    → any_below path d ≡ false
    → below path q ≡ true
    → assoc_get q d ≡ none
unfolding assoc_get any_below
get-any_below path q [] h b = refl
get-any_below path q ((p, n) ∷ d) h b = elim (Bool-cases (p == q)) [
  | inl e ↦
      let same : below path p ≡ true =
        subst (λ s. below path s ≡ true) (sym ((eq_iff p q).0 e)) b in
      cc (rw same at h)
  | inr e ↦ rw e (get-any_below path q d (second_false _ _ h) b)
]

removed_ok :
    (m : Result Node) (path : String) (d : Disk)
    → (stored d (m >>= λ n. remove_node n path d)).1 ≡ ok tt
    → (stored d (m >>= λ n. remove_node n path d)).0 ≡ assoc_remove path d
unfolding remove_node
removed_ok (err e) path d h = cc
removed_ok (ok (file text)) path d h = refl
removed_ok (ok dir) path d h = elim (Bool-cases (any_below path d)) [
  | inl e ↦ cc (rw e at h)
  | inr e ↦ rw e refl
]

remove_path-ok :
    (path : String) (d : Disk)
    → (remove_path path d).1 ≡ ok tt
    → (remove_path path d).0 ≡ assoc_remove path d
unfolding remove_path
remove_path-ok path d h = removed_ok (stat path d) path d h

removed_dir_empty :
    (m : Result Node) (path : String) (d : Disk)
    → m ≡ ok dir
    → (stored d (m >>= λ n. remove_node n path d)).1 ≡ ok tt
    → any_below path d ≡ false
unfolding remove_node
removed_dir_empty (err e) path d s h = cc
removed_dir_empty (ok (file text)) path d s h = cc
removed_dir_empty (ok dir) path d s h = elim (Bool-cases (any_below path d)) [
  | inl e ↦ cc (rw e at h)
  | inr e ↦ e
]

-- the paths of a walk without files: the root is a directory, and stands first
leftover_root :
    (path : String) (n : Node) (es : List (String × Node)) (m : Result (List String))
    (paths : List String)
    → leftover_dirs es ≡ m
    → leftover_dirs ((path, n) ∷ es) ≡ ok paths
    → (rest : List String) × (n ≡ dir) × (paths ≡ path ∷ rest)
unfolding leftover_dirs
leftover_root path (file text) es m paths e h = cc
leftover_root path dir es (ok rest) paths e h = (rest, refl, cc (rw e at h))
leftover_root path dir es (err why) paths e h = cc (rw e at h)

remove_first :
    (path : String) (rest : List String) (d : Disk)
    → (remove_paths (path ∷ rest) d).1 ≡ ok tt
    → (remove_path path d).1 ≡ ok tt
unfolding remove_paths
remove_first path rest d h = (next-first (remove_path path d) _ tt h).1

-- a walk whose entries are all directories starts at one, and its root is removed first
walked_empty :
    (path : String) (d : Disk) (entries : List (String × Node)) (paths : List String)
    → walk_dir path d ≡ ok entries
    → leftover_dirs entries ≡ ok paths
    → (remove_paths paths d).1 ≡ ok tt
    → any_below path d ≡ false
unfolding walk_dir remove_path
walked_empty path d entries paths w l h =
    let (n, s, e) = >>=-eq-ok (stat path d) _ w in
    let (rest, is_dir, first) =
      leftover_root path n _ _ paths refl
        (subst (λ es. leftover_dirs es ≡ ok paths) (sym (ok_injective e)) l) in
    removed_dir_empty (stat path d) path d (s ∙ ap ok is_dir)
      (remove_first path rest d (subst (λ ps. (remove_paths ps d).1 ≡ ok tt) first h))

module _ ⦃D : Deps⦄ (r : HostComponentRepository) where
  -- A component is only removed if its directory of data holds nothing but its version file: every
  -- other path in it, at any depth, has no entry.
  pub remove_component_empty :
      (c : Component) (d d' : Disk) (q : String)
      → remove_component r (some c) d ≡ (d', ok tt)
      → below (data_path r c) q ≡ true
      → (join_path (data_path r c) version_file == q) ≡ false
      → assoc_get q d ≡ none
  unfolding remove_component
  remove_component_empty c d d' q h b other =
      let v = join_path (data_path r c) version_file in
      let (_, removed, h₁) = next-ok (remove_path v d) _ d' tt h in
      let (entries, walked, h₂) =
        next-ok (_, walk_dir (data_path r c) (remove_path v d).0) _ d' tt h₁ in
      let (paths, left, h₃) = next-ok (_, leftover_dirs entries) _ d' tt h₂ in
      let (_, gone, _) = next-ok (remove_paths paths (remove_path v d).0) _ d' tt h₃ in
      let empty = walked_empty (data_path r c) (remove_path v d).0 entries paths walked left gone in
      sym (get-assoc_remove_other q v d other)
      ∙ get-any_below (data_path r c) q (assoc_remove v d)
          (subst (λ e. any_below (data_path r c) e ≡ false) (remove_path-ok v d removed) empty) b
