-- ===== src/Plan/Merge.antt =====
-- What `mergeStepsIntoPlan` (plan.go) guarantees.
use materia.Base.{ℕ, ◌≤◌, List, [], ◌∷◌, ◌++◌, arith, leb, Bool-cases, inl, inr, Sorted, AllLe}
use materia.Deps.{Deps}
use materia.Actions.{Action}
use materia.Plan.Steps.{merge_steps_into_plan, due, not_due}
use materia.Plan.Build.{priority_key}

-- `zs` holds the elements of `xs` and of `ys`, each list in its own order
pub data Interleave {A : Type 0} : List A → List A → List A → Type 0 where
  done : Interleave [] [] []
  left : {xs ys zs : List A} (x : A) → Interleave xs ys zs → Interleave (x ∷ xs) ys (x ∷ zs)
  right : {xs ys zs : List A} (y : A) → Interleave xs ys zs → Interleave xs (y ∷ ys) (y ∷ zs)

Interleave-nil : {A : Type 0} (ys : List A) → Interleave [] ys ys
Interleave-nil [] = done
Interleave-nil (y ∷ ys) = right y (Interleave-nil ys)

module _ ⦃D : Deps⦄ where
  Interleave-due :
      (p : ℕ) (xs ss zs : List Action)
      → Interleave xs (not_due p ss) zs
      → Interleave xs ss (due p ss ++ zs)
  unfolding due not_due
  Interleave-due p xs [] zs h = h
  Interleave-due p xs (s ∷ ss) zs h = elim (Bool-cases (leb s.priority p)) [
    | inl e ↦ rw e (right s (Interleave-due p xs ss zs (rw e at h)))
    | inr e ↦ rw e (rw e at h)
  ]

  -- The merged list of resource and service steps holds the steps of both lists, each list in its
  -- own order: no step is lost, added or moved against another of its list.
  pub merge-Interleave : (rs ss : List Action) → Interleave rs ss (merge_steps_into_plan rs ss)
  unfolding merge_steps_into_plan
  merge-Interleave [] ss = Interleave-nil ss
  merge-Interleave (r ∷ rs) ss =
      Interleave-due r.priority (r ∷ rs) ss _ (left r (merge-Interleave rs (not_due r.priority ss)))

  Sorted-not_due :
      (p : ℕ) (ss : List Action) → Sorted priority_key ss → Sorted priority_key (not_due p ss)
  unfolding not_due
  Sorted-not_due p [] h = h
  Sorted-not_due p (s ∷ ss) h = elim (Bool-cases (leb s.priority p)) [
    | inl e ↦ rw e (Sorted-not_due p ss h.1)
    | inr e ↦ rw e h
  ]

  AllLe-weaken :
      (m n : ℕ) (xs : List Action) → m ≤ n → AllLe priority_key n xs → AllLe priority_key m xs
  AllLe-weaken m n [] h a = tt
  AllLe-weaken m n (x ∷ xs) h a = (omega arith, AllLe-weaken m n xs h a.1)

  AllLe-not_due :
      (n p : ℕ) (ss : List Action) → AllLe priority_key n ss → AllLe priority_key n (not_due p ss)
  unfolding not_due
  AllLe-not_due n p [] a = a
  AllLe-not_due n p (s ∷ ss) a = elim (Bool-cases (leb s.priority p)) [
    | inl e ↦ rw e (AllLe-not_due n p ss a.1)
    | inr e ↦ rw e a
  ]

  AllLe-due :
      (n p : ℕ) (ts zs : List Action)
      → AllLe priority_key n ts
      → AllLe priority_key n zs
      → AllLe priority_key n (due p ts ++ zs)
  unfolding due
  AllLe-due n p [] zs a b = b
  AllLe-due n p (t ∷ ts) zs a b = elim (Bool-cases (leb t.priority p)) [
    | inl e ↦ rw e (a.0, AllLe-due n p ts zs a.1 b)
    | inr e ↦ rw e b
  ]

  AllLe-merge :
      (n : ℕ) (rs ss : List Action)
      → AllLe priority_key n rs
      → AllLe priority_key n ss
      → AllLe priority_key n (merge_steps_into_plan rs ss)
  unfolding merge_steps_into_plan
  AllLe-merge n [] ss a b = b
  AllLe-merge n (r ∷ rs) ss a b =
      AllLe-due n r.priority ss _ b
        (a.0, AllLe-merge n rs (not_due r.priority ss) a.1 (AllLe-not_due n r.priority ss b))

  -- what is not due comes later
  AllLe-not_due_self :
      (p : ℕ) (ss : List Action) → Sorted priority_key ss → AllLe priority_key p (not_due p ss)
  unfolding not_due
  AllLe-not_due_self p [] h = tt
  AllLe-not_due_self p (s ∷ ss) h = elim (Bool-cases (leb s.priority p)) [
    | inl e ↦ rw e (AllLe-not_due_self p ss h.1)
    | inr e ↦ rw e (ground arith, AllLe-weaken p s.priority ss (ground arith) h.0)
  ]

  Sorted-due :
      (p : ℕ) (ts zs : List Action)
      → Sorted priority_key ts
      → Sorted priority_key zs
      → AllLe priority_key p zs
      → Sorted priority_key (due p ts ++ zs)
  unfolding due
  Sorted-due p [] zs h k a = k
  Sorted-due p (t ∷ ts) zs h k a = elim (Bool-cases (leb t.priority p)) [
    | inl e ↦ rw e (
      AllLe-due t.priority p ts zs h.0 (AllLe-weaken t.priority p zs (ground arith) a),
      Sorted-due p ts zs h.1 k a,
    )
    | inr e ↦ rw e k
  ]

  -- If the resource steps and the service steps are ordered by priority, so is the merged list.
  pub merge-Sorted :
      (rs ss : List Action)
      → Sorted priority_key rs
      → Sorted priority_key ss
      → Sorted priority_key (merge_steps_into_plan rs ss)
  unfolding merge_steps_into_plan
  merge-Sorted [] ss h k = k
  merge-Sorted (r ∷ rs) ss h k =
      let later =
        AllLe-merge r.priority rs (not_due r.priority ss) h.0
          (AllLe-not_due_self r.priority ss k) in
      Sorted-due r.priority ss _ k
        (later, merge-Sorted rs (not_due r.priority ss) h.1 (Sorted-not_due r.priority ss k))
        (omega arith, later)
