-- ===== src/Executor/Noted.antt =====
-- What `Execute` (execute.go) notes of the service steps that it has run.
use materia.Base.{
  String, ◌≡◌, refl, Bool, true, false, not, ◌&&◌, ◌∙◌, ap, Option, none, some, List, [], ◌∷◌, ◌==◌,
  Bool-cases, inl, inr, ℕ, ◌+◌, arith,
}
use materia.Deps.{Deps, assoc_get, assoc_get-assoc_put}
use materia.Services.{ServiceState, new_service_state}
use materia.Components.Kind.{kind_eq, host}
use materia.Components.Resource.{service_of}
use materia.Actions.{Action, ActionType, is_service_action}
use materia.Executor.Services.{until_state}
use materia.Executor.Run.{Progress, note_step, note_service}

module _ ⦃D : Deps⦄ where
  -- a step on a unit of systemd
  abbrev on_unit : Action → Bool
  on_unit v = is_service_action v.todo && not (kind_eq v.target.kind host)

  abbrev last_if : Bool → ActionType → Option String → Option ActionType → Option ActionType
  last_if true todo none old = some todo
  last_if true todo (some state) old = old
  last_if false todo o old = old

  abbrev state_if : Bool → Option String → Option ServiceState → Option ServiceState
  state_if true (some state) old = some (new_service_state state)
  state_if true none old = old
  state_if false o old = old

  -- the last of the steps on the unit `k` that have no state to wait for
  abbrev pub last_on : String → Option ActionType → List Action → Option ActionType
  last_on k old [] = old
  last_on k old (v ∷ rest) =
      last_on k
        (last_if (on_unit v && service_of v.target == k) v.todo (until_state v.metadata) old) rest

  -- the state to wait for of the last of the steps on the unit `k` that have one
  abbrev pub state_on : String → Option ServiceState → List Action → Option ServiceState
  state_on k old [] = old
  state_on k old (v ∷ rest) =
      state_on k (state_if (on_unit v && service_of v.target == k) (until_state v.metadata) old)
        rest

  abbrev pub note_all : Progress → List Action → Progress
  note_all p [] = p
  note_all p (v ∷ rest) = note_all (note_step v p) rest

  last-service :
      (k : String) (v : Action) (o : Option String) (p : Progress)
      → assoc_get k (note_service v o p).last_action
        ≡ last_if (service_of v.target == k) v.todo o (assoc_get k p.last_action)
  unfolding note_service
  last-service k v none p =
      assoc_get-assoc_put k (service_of v.target) v.todo p.last_action
      ∙ elim (Bool-cases (service_of v.target == k)) [ inl e ↦ rw e refl | inr e ↦ rw e refl ]
  last-service k v (some state) p = elim (Bool-cases (service_of v.target == k)) [
    | inl e ↦ rw e refl
    | inr e ↦ rw e refl
  ]

  state-service :
      (k : String) (v : Action) (o : Option String) (p : Progress)
      → assoc_get k (note_service v o p).expected
        ≡ state_if (service_of v.target == k) o (assoc_get k p.expected)
  unfolding note_service
  state-service k v (some state) p =
      assoc_get-assoc_put k (service_of v.target) (new_service_state state) p.expected
      ∙ elim (Bool-cases (service_of v.target == k)) [ inl e ↦ rw e refl | inr e ↦ rw e refl ]
  state-service k v none p = elim (Bool-cases (service_of v.target == k)) [
    | inl e ↦ rw e refl
    | inr e ↦ rw e refl
  ]

  last-step :
      (k : String) (v : Action) (p : Progress)
      → assoc_get k (note_step v p).last_action
        ≡ last_if
            (on_unit v && service_of v.target == k)
            v.todo
            (until_state v.metadata)
            (assoc_get k p.last_action)
  unfolding note_step
  last-step k v p = elim (Bool-cases (on_unit v)) [
    | inl e ↦ rw e (last-service k v (until_state v.metadata) p)
    | inr e ↦ rw e refl
  ]

  state-step :
      (k : String) (v : Action) (p : Progress)
      → assoc_get k (note_step v p).expected
        ≡ state_if
            (on_unit v && service_of v.target == k)
            (until_state v.metadata)
            (assoc_get k p.expected)
  unfolding note_step
  state-step k v p = elim (Bool-cases (on_unit v)) [
    | inl e ↦ rw e (state-service k v (until_state v.metadata) p)
    | inr e ↦ rw e refl
  ]

  pub note_all-last :
      (k : String) (xs : List Action) (p : Progress)
      → assoc_get k (note_all p xs).last_action ≡ last_on k (assoc_get k p.last_action) xs
  note_all-last k [] p = refl
  note_all-last k (v ∷ rest) p =
      note_all-last k rest (note_step v p) ∙ ap (λ o. last_on k o rest) (last-step k v p)

  pub note_all-state :
      (k : String) (xs : List Action) (p : Progress)
      → assoc_get k (note_all p xs).expected ≡ state_on k (assoc_get k p.expected) xs
  note_all-state k [] p = refl
  note_all-state k (v ∷ rest) p =
      note_all-state k rest (note_step v p) ∙ ap (λ o. state_on k o rest) (state-step k v p)

  abbrev count_of : Bool → Option String → ℕ
  count_of true (some state) = 0
  count_of true none = 1
  count_of false o = 1

  -- the steps that are counted: all but those on units that have a state to wait for
  abbrev pub counted_of : List Action → ℕ
  counted_of [] = 0
  counted_of (v ∷ rest) = count_of (on_unit v) (until_state v.metadata) + counted_of rest

  done-service :
      (v : Action) (o : Option String) (p : Progress)
      → (note_service v o p).done ≡ p.done + count_of true o
  unfolding note_service
  done-service v none p = refl
  done-service v (some state) p = omega arith

  done-step :
      (v : Action) (p : Progress)
      → (note_step v p).done ≡ p.done + count_of (on_unit v) (until_state v.metadata)
  unfolding note_step
  done-step v p = elim (Bool-cases (on_unit v)) [
    | inl e ↦ rw e (done-service v (until_state v.metadata) p)
    | inr e ↦ rw e refl
  ]

  pub note_all-done :
      (xs : List Action) (p : Progress) → (note_all p xs).done ≡ p.done + counted_of xs
  note_all-done [] p = omega arith
  note_all-done (v ∷ rest) p =
      let a = note_all-done rest (note_step v p) in let b = done-step v p in omega arith
