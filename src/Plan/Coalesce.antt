-- ===== src/Plan/Coalesce.antt =====
-- What `coalesceServices` (plan.go) leaves of the service actions of a component: for each unit the
-- strongest action, where stopping is stronger than restarting, starting and reloading.
use materia.Base.{
  ℕ, ◌≤◌, String, ◌≡◌, refl, true, false, ◌&&◌, ◌||◌, Bool, contains, Option, none, some, List, [],
  ◌∷◌, ◌++◌, arith, ltb, ◌==◌, eq_iff, eq_refl, if◌then◌else◌, All, Bool-cases, inl, inr, ◌∙◌, ap,
  sym, subst, map, sort_texts, insert_text,
}
use native.Mathlib.Nat.{le_trans}
use materia.Errors.{err, unknown_action}
use materia.Deps.{Deps}
use materia.Actions.{
  validate_action, todo_code, Action, ActionType, todo_eq, start, stop, restart, reload, enable,
  disable, no_action,
}
use materia.Plan.Steps.{
  Slot, raise, raise_to, has_slot, open_slot, update_slot, is_switch, switches, slots_of, or_zero,
  action_at, actions_at, coalesce_services, paths_of,
}

-- how strong an action on a unit is
abbrev pub rank : ActionType → ℕ
rank stop = 4
rank restart = 3
rank start = 2
rank reload = 1
rank t = 0

-- the actions that enable and disable a unit
abbrev pub is_enabling : ActionType → Bool
is_enabling enable = true
is_enabling disable = true
is_enabling t = false

rank_lem :
    (t : ActionType)
    → rank t ≡ (
        if todo_eq t stop
        then 4
        else if todo_eq t restart
        then 3
        else if todo_eq t start
        then 2
        else if todo_eq t reload
        then 1
        else 0)
unfolding todo_eq todo_code
rank_lem t = ground arith

enabling_lem : (t : ActionType) → (todo_eq t enable || todo_eq t disable) ≡ is_enabling t
unfolding todo_eq todo_code
enabling_lem t = ground arith

enabling-rank : (t : ActionType) → is_enabling t ≡ true → rank t ≡ 0
enabling-rank t h = ground arith

module _ ⦃D : Deps⦄ where
  abbrev pub rank_of : Option Action → ℕ
  rank_of none = 0
  rank_of (some a) = rank a.todo

  -- keeps the first of the strongest actions on the unit `k`
  unfoldable pub stronger : String → Option Action → Action → Option Action
  stronger k best a =
      if a.target.path == k && ltb (rank_of best) (rank a.todo) then some a else best

  unfoldable pub strongest_from : String → Option Action → List Action → Option Action
  strongest_from k best [] = best
  strongest_from k best (a ∷ rest) = strongest_from k (stronger k best a) rest

  abbrev pub strongest : String → List Action → Option Action
  strongest k changes = strongest_from k none changes

  switch_lem : (a : Action) → is_switch a ≡ is_enabling a.todo
  unfolding is_switch
  switch_lem a = enabling_lem a.todo

  switch-rank : (a : Action) → is_switch a ≡ true → rank a.todo ≡ 0
  switch-rank a e = enabling-rank a.todo (sym (switch_lem a) ∙ e)

  raise_lem :
      (a : Action) (s : Slot)
      → raise a s ≡ (
          if ltb s.end_state (rank a.todo)
          then record s { end_state = rank a.todo; action = some a }
          else s)
  unfolding raise raise_to
  raise_lem a s = rw (rank_lem a.todo) (ground arith)

  best_at : String → List Slot → Option Action
  best_at k [] = none
  best_at k (s ∷ ss) = if s.path == k then s.action else best_at k ss

  abbrev Consistent : List Slot → Type 0
  Consistent ss = All (λ (s : Slot). s.end_state ≡ rank_of s.action) ss

  best_at-missing : (k : String) (ss : List Slot) → has_slot k ss ≡ false → best_at k ss ≡ none
  unfolding best_at has_slot
  best_at-missing k [] h = refl
  best_at-missing k (s ∷ ss) h = ground (arith, best_at-missing k ss)

  best_at-open_slot :
      (k path : String) (ss : List Slot) → best_at k (open_slot path ss) ≡ best_at k ss
  unfolding open_slot best_at
  best_at-open_slot k path ss = elim (Bool-cases (has_slot path ss)) [
    | inl e ↦ rw e
    | inr e ↦ rw e (elim (Bool-cases (path == k)) [
      | inl p ↦
          rw p (
            sym
              (subst (λ q. best_at q ss ≡ none) ((eq_iff path k).0 p) (best_at-missing path ss e)))
      | inr p ↦ rw p
    ])
  ]

  has_slot-open_slot : (path : String) (ss : List Slot) → has_slot path (open_slot path ss) ≡ true
  unfolding open_slot has_slot
  has_slot-open_slot path ss = elim (Bool-cases (has_slot path ss)) [
    | inl e ↦ rw e e
    | inr e ↦ rw (e, eq_refl path)
  ]

  Consistent-open_slot :
      (path : String) (ss : List Slot) → Consistent ss → Consistent (open_slot path ss)
  unfolding open_slot
  Consistent-open_slot path ss c = elim (Bool-cases (has_slot path ss)) [
    | inl e ↦ rw e c
    | inr e ↦ rw e (refl, c)
  ]

  Consistent-update_slot :
      (a : Action) (ss : List Slot) → Consistent ss → Consistent (update_slot a ss)
  unfolding update_slot
  Consistent-update_slot a [] c = tt
  Consistent-update_slot a (s ∷ ss) c = elim (Bool-cases (s.path == a.target.path)) [
    | inl e ↦ rw e (ground (arith, raise_lem a s), c.1)
    | inr e ↦ rw e (c.0, Consistent-update_slot a ss c.1)
  ]

  abbrev raised : Action → ℕ → Slot → Slot
  raised a r s = if ltb s.end_state r then record s { end_state = r; action = some a } else s

  best_at-raised :
      (k : String) (a : Action) (r : ℕ) (s : Slot) (ss : List Slot)
      → s.path ≡ a.target.path
      → s.end_state ≡ rank_of s.action
      → best_at k (raised a r s ∷ ss) ≡ (
          if a.target.path == k && ltb (rank_of (best_at k (s ∷ ss))) r
          then some a
          else best_at k (s ∷ ss))
  unfolding best_at
  best_at-raised k a r s ss same c = elim (Bool-cases (s.path == k)) [
    | inl p ↦ elim (Bool-cases (ltb s.end_state r)) [
      | inl l ↦ rw (l, p, subst (λ q. (q == k) ≡ true) same p, subst (λ n. ltb n r ≡ true) c l) refl
      | inr l ↦
          rw (l, p, subst (λ q. (q == k) ≡ true) same p, subst (λ n. ltb n r ≡ false) c l) refl
    ]
    | inr p ↦ elim (Bool-cases (ltb s.end_state r)) [
      | inl l ↦ rw (l, p, subst (λ q. (q == k) ≡ false) same p) refl
      | inr l ↦ rw (l, p, subst (λ q. (q == k) ≡ false) same p) refl
    ]
  ]

  best_at-update_slot :
      (k : String) (a : Action) (ss : List Slot)
      → has_slot a.target.path ss ≡ true
      → Consistent ss
      → best_at k (update_slot a ss) ≡ stronger k (best_at k ss) a
  unfolding update_slot has_slot stronger best_at
  best_at-update_slot k a [] h c = cc
  best_at-update_slot k a (s ∷ ss) h c = elim (Bool-cases (s.path == a.target.path)) [
    | inl e ↦
        rw (e, raise_lem a s)
          (best_at-raised k a (rank a.todo) s ss ((eq_iff s.path a.target.path).0 e) c.0)
    | inr e ↦ rw e (elim (Bool-cases (s.path == k)) [
      | inl p ↦ rw (p, apart e p) refl
      | inr p ↦ rw p (best_at-update_slot k a ss (rw e at h) c.1)
    ])
  ]
    where
      apart :
          (s.path == a.target.path) ≡ false → (s.path == k) ≡ true → (a.target.path == k) ≡ false
      apart e p =
          ground (arith, eq_iff s.path a.target.path, eq_iff s.path k, eq_iff a.target.path k)

  best_at-slots_of :
      (k : String) (ss : List Slot) (changes : List Action)
      → Consistent ss
      → best_at k (slots_of ss changes) ≡ strongest_from k (best_at k ss) changes
  unfolding slots_of strongest_from
  best_at-slots_of k ss [] c = refl
  best_at-slots_of k ss (a ∷ rest) c = elim (Bool-cases (is_switch a)) [
    | inl e ↦ rw e (
        best_at-slots_of k (open_slot a.target.path ss) rest
          (Consistent-open_slot a.target.path ss c)
        ∙ ap (λ (o : Option Action). strongest_from k o rest)
            (best_at-open_slot k a.target.path ss ∙ skipped e))
    | inr e ↦ rw e (
        best_at-slots_of k (update_slot a (open_slot a.target.path ss)) rest
          (Consistent-update_slot a _ (Consistent-open_slot a.target.path ss c))
        ∙ ap (λ (o : Option Action). strongest_from k o rest)
            (best_at-update_slot k a (open_slot a.target.path ss)
                (has_slot-open_slot a.target.path ss) (Consistent-open_slot a.target.path ss c)
              ∙ ap (λ (o : Option Action). stronger k o a) (best_at-open_slot k a.target.path ss)))
  ]
    where
      skipped : is_switch a ≡ true → best_at k ss ≡ stronger k (best_at k ss) a
      skipped e = unfold stronger in ground (arith, switch-rank a e)

  action_at-best_at : (k : String) (ss : List Slot) → action_at k ss ≡ or_zero (best_at k ss)
  unfolding action_at best_at or_zero
  action_at-best_at k [] = refl
  action_at-best_at k (s ∷ ss) = ground (arith, action_at-best_at k ss)

  pub action_at-strongest :
      (k : String) (changes : List Action)
      → action_at k (slots_of [] changes) ≡ or_zero (strongest k changes)
  unfolding best_at
  action_at-strongest k changes =
      action_at-best_at k (slots_of [] changes) ∙ ap or_zero (best_at-slots_of k [] changes tt)

  -- the actions that enable and disable a unit, in their order
  abbrev pub enabling : List Action → List Action
  enabling [] = []
  enabling (a ∷ rest) = if is_enabling a.todo then a ∷ enabling rest else enabling rest

  switches_lem : (changes : List Action) → switches changes ≡ enabling changes
  unfolding switches
  switches_lem [] = refl
  switches_lem (a ∷ rest) = rw (switch_lem a, switches_lem rest) refl

  -- the paths of the units that any action is on, each once
  abbrev pub units_from : List String → List Action → List String
  units_from known [] = known
  units_from known (a ∷ rest) =
      units_from (if contains known a.target.path then known else a.target.path ∷ known) rest

  has_slot_lem : (path : String) (ss : List Slot) → has_slot path ss ≡ contains (paths_of ss) path
  unfolding has_slot paths_of
  has_slot_lem path [] = refl
  has_slot_lem path (s ∷ ss) = rw (has_slot_lem path ss) refl

  open_slot-paths :
      (path : String) (ss : List Slot)
      → paths_of (open_slot path ss)
        ≡ (if contains (paths_of ss) path then paths_of ss else path ∷ paths_of ss)
  unfolding open_slot paths_of
  open_slot-paths path ss = elim (Bool-cases (has_slot path ss)) [
    | inl e ↦ rw (e, sym (has_slot_lem path ss) ∙ e) refl
    | inr e ↦ rw (e, sym (has_slot_lem path ss) ∙ e) refl
  ]

  update_slot-paths : (a : Action) (ss : List Slot) → paths_of (update_slot a ss) ≡ paths_of ss
  unfolding update_slot paths_of
  update_slot-paths a [] = refl
  update_slot-paths a (s ∷ ss) = ground (arith, raise_lem a s, update_slot-paths a ss)

  slots_of-paths :
      (ss : List Slot) (changes : List Action)
      → paths_of (slots_of ss changes) ≡ units_from (paths_of ss) changes
  unfolding slots_of
  slots_of-paths ss [] = refl
  slots_of-paths ss (a ∷ rest) = elim (Bool-cases (is_switch a)) [
    | inl e ↦ rw e (
        slots_of-paths (open_slot a.target.path ss) rest
        ∙ ap (λ ks. units_from ks rest) (open_slot-paths a.target.path ss))
    | inr e ↦ rw e (
        slots_of-paths (update_slot a (open_slot a.target.path ss)) rest
        ∙ ap (λ ks. units_from ks rest)
            (update_slot-paths a (open_slot a.target.path ss) ∙ open_slot-paths a.target.path ss))
  ]

  abbrev pub or_no_action : Option Action → Action
  or_no_action none = no_action
  or_no_action (some a) = a

  or_zero_lem : (o : Option Action) → or_zero o ≡ or_no_action o
  unfolding or_zero
  or_zero_lem none = refl
  or_zero_lem (some a) = refl

  kept_lem :
      (ks : List String) (changes : List Action)
      → actions_at ks (slots_of [] changes) ≡ map (λ k. or_no_action (strongest k changes)) ks
  unfolding actions_at
  kept_lem [] changes = refl
  kept_lem (k ∷ ks) changes =
      rw (action_at-strongest, or_zero_lem (strongest k changes), kept_lem ks changes) refl

  -- The service steps that are kept for a component are the enabling and disabling ones in their
  -- order, and then, for each unit that any of its service steps is on, once and by the sorted
  -- paths, the first of the strongest other actions on it, where stopping is stronger than
  -- restarting, restarting than starting, and starting than reloading, or the zero action if there
  -- is none.
  pub coalesce_services_lem :
      (changes : List Action)
      → coalesce_services changes
        ≡ enabling changes
          ++ map (λ k. or_no_action (strongest k changes)) (sort_texts (units_from [] changes))
  unfolding coalesce_services paths_of
  coalesce_services_lem changes =
      rw (switches_lem changes, slots_of-paths [] changes)
        (ap (λ l. enabling changes ++ l) (kept_lem (sort_texts (units_from [] changes)) changes))

  abbrev pub AtMost : String → ℕ → Action → Type 0
  AtMost k n a = a.target.path ≡ k → rank a.todo ≤ n

  best-le-strongest :
      (k : String) (best : Option Action) (changes : List Action)
      → rank_of best ≤ rank_of (strongest_from k best changes)
  unfolding strongest_from stronger
  best-le-strongest k best [] = omega arith
  best-le-strongest k best (a ∷ rest) =
      ground (arith, best-le-strongest k best rest, best-le-strongest k (some a) rest)

  strongest_from_bound :
      (k : String) (best : Option Action) (changes : List Action)
      → All (AtMost k (rank_of (strongest_from k best changes))) changes
  unfolding strongest_from
  strongest_from_bound k best [] = tt
  strongest_from_bound k best (a ∷ rest) = (
    λ e. le_trans (above e) (best-le-strongest k (stronger k best a) rest),
    strongest_from_bound k (stronger k best a) rest,
  )
    where
      above : a.target.path ≡ k → rank a.todo ≤ rank_of (stronger k best a)
      above e = unfold stronger in ground (arith, eq_iff a.target.path k)

  -- No action on a unit is stronger than the one that is kept for
  -- it, where stopping is stronger than restarting, restarting than starting, and starting than
  -- reloading.
  pub strongest_bound :
      (k : String) (changes : List Action) → All (AtMost k (rank_of (strongest k changes))) changes
  strongest_bound k changes = strongest_from_bound k none changes

  -- A single action that enables or disables a unit is kept together with Go's zero action, and
  -- the zero action is no valid action.
  pub coalesce_services-switch :
      (a : Action)
      → is_switch a ≡ true
      → (coalesce_services (a ∷ []) ≡ a ∷ no_action ∷ [])
        × (validate_action no_action ≡ err unknown_action)
  unfolding coalesce_services switches slots_of open_slot has_slot actions_at action_at paths_of
      or_zero sort_texts insert_text validate_action todo_eq todo_code
  coalesce_services-switch a h = (rw (h, eq_refl a.target.path) refl, refl)
