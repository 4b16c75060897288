-- ===== src/Plan/Dumps.antt =====
-- What the volume check (`VolumeDumpValidator`, validator.go) gives.
use materia.Base.{
  String, ◌≡◌, ◌≢◌, ◌↔◌, refl, ◌∙◌, true, false, ◌&&◌, ◌||◌, List, [], ◌∷◌, ◌++◌, arith, ◌==◌,
  Bool-cases, inl, inr, contains, Pairwise, All, eq_iff, All-map,
}
use materia.Errors.{ok}
use materia.Deps.{Deps}
use materia.Actions.{Action, todo_eq, todo_code}
use materia.Plan.Validator.{removes_volume, dumps_volume, note_removal, dump_loop, validate_dumps}

module _ ⦃D : Deps⦄ where
  abbrev pub NotDumpedAfter : Action → Action → Type 0
  NotDumpedAfter b a =
      removes_volume b ≡ true → dumps_volume a ≡ true → b.target.path ≢ a.target.path

  abbrev pub NotIn : List String → Action → Type 0
  NotIn deleted a = dumps_volume a ≡ true → contains deleted a.target.path ≡ false

  pub contains-append_one :
      (xs : List String) (p q : String) → contains (xs ++ p ∷ []) q ≡ (contains xs q || p == q)
  contains-append_one [] p q = ground arith
  contains-append_one (x ∷ xs) p q = ground (arith, contains-append_one xs p q)

  -- what holds of the steps behind `a` gives what is to show of `a` against them
  after_removal :
      (deleted : List String) (a x : Action)
      → NotIn (note_removal deleted a) x
      → NotIn deleted x × NotDumpedAfter a x
  unfolding note_removal
  after_removal deleted a x h = (
    λ d. ground (arith, h d, contains-append_one deleted a.target.path x.target.path),
    λ r d. ground (
      arith,
      h d,
      contains-append_one deleted a.target.path x.target.path,
      eq_iff a.target.path x.target.path,
    ),
  )

  NotIn-before :
      (deleted : List String) (a : Action)
      → (dumps_volume a && contains (note_removal deleted a) a.target.path) ≡ false
      → NotIn deleted a
  unfolding note_removal
  NotIn-before deleted a h d =
      ground (arith, contains-append_one deleted a.target.path a.target.path)

  dump_loop_sound :
      (deleted : List String) (rest : List Action)
      → dump_loop deleted rest ≡ ok tt
      → All (NotIn deleted) rest × Pairwise NotDumpedAfter rest
  unfolding dump_loop
  dump_loop_sound deleted [] h = (tt, tt)
  dump_loop_sound deleted (a ∷ rest) h =
      elim (Bool-cases (dumps_volume a && contains (note_removal deleted a) a.target.path)) [
        | inl e ↦ cc (rw e at h)
        | inr e ↦
            let (here, later) = dump_loop_sound (note_removal deleted a) rest (rw e at h) in
            (
              (
                NotIn-before deleted a e,
                All-map (λ x. NotIn (note_removal deleted a) x) (λ x. NotIn deleted x)
                    (λ x k. (after_removal deleted a x k).0) rest here,
              ),
              (
                All-map (λ x. NotIn (note_removal deleted a) x) (λ x. NotDumpedAfter a x)
                    (λ x k. (after_removal deleted a x k).1) rest here,
                later,
              ),
            )
      ]

  NotIn-note_removal :
      (deleted : List String) (a : Action) (rest : List Action)
      → All (NotIn deleted) rest
      → All (NotDumpedAfter a) rest
      → All (NotIn (note_removal deleted a)) rest
  unfolding note_removal
  NotIn-note_removal deleted a [] h k = tt
  NotIn-note_removal deleted a (x ∷ rest) h k = (
    λ d. elim (Bool-cases (removes_volume a)) [
      | inl r ↦ rw r (
          contains-append_one deleted a.target.path x.target.path
          ∙ ground (arith, h.0 d, k.0 r d, eq_iff a.target.path x.target.path))
      | inr r ↦ rw r (h.0 d)
    ],
    NotIn-note_removal deleted a rest h.1 k.1,
  )

  dumps_volume-removes_volume : (a : Action) → dumps_volume a ≡ true → removes_volume a ≡ false
  unfolding dumps_volume removes_volume todo_eq todo_code
  dumps_volume-removes_volume a d = ground arith

  dump_loop-head :
      (deleted : List String) (a : Action)
      → NotIn deleted a
      → (dumps_volume a && contains (note_removal deleted a) a.target.path) ≡ false
  unfolding note_removal
  dump_loop-head deleted a h = elim (Bool-cases (dumps_volume a)) [
    | inl d ↦ rw (d, dumps_volume-removes_volume a d) (h d)
    | inr d ↦ rw d
  ]

  dump_loop_complete :
      (deleted : List String) (rest : List Action)
      → All (NotIn deleted) rest
      → Pairwise NotDumpedAfter rest
      → dump_loop deleted rest ≡ ok tt
  unfolding dump_loop
  dump_loop_complete deleted [] h k = refl
  dump_loop_complete deleted (a ∷ rest) h k = rw (dump_loop-head deleted a h.0) (
      dump_loop_complete (note_removal deleted a) rest (NotIn-note_removal deleted a rest h.1 k.0)
        k.1)

  All-NotIn : (rest : List Action) → All (NotIn []) rest
  All-NotIn [] = tt
  All-NotIn (a ∷ rest) = (λ d. refl, All-NotIn rest)

  -- The volume check passes on a list of steps exactly when no step that dumps a volume stands
  -- behind a step that removes the volume of the same path.
  pub validate_dumps_iff :
      (rest : List Action) → (validate_dumps rest ≡ ok tt) ↔ Pairwise NotDumpedAfter rest
  unfolding validate_dumps
  validate_dumps_iff rest =
      (λ h. (dump_loop_sound [] rest h).1, λ k. dump_loop_complete [] rest (All-NotIn rest) k)
