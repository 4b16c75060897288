-- ===== src/Sources/Rollback.antt =====
-- What `SourceManager.Rollback` (sourceman.go) has done when it returns no error.
use materia.Base.{
  true, false, ◌≡◌, refl, ap, subst, eq_iff, Option, none, some, List, [], ◌∷◌, arith, ◌==◌,
  if◌then◌else◌, Bool-cases, inl, inr,
}
use materia.Errors.{Result, ok, err, rollback_to_nothing}
use materia.Sources.{
  SyncOpts, SyncReport, SourcePlan, Synced, and_then, and_cleaned, roll_back_one, roll_back_all,
  roll_back, all_support,
}

module _ {S : Type 0} where
  -- one source behind its rollback: synced to its old revision, or cleaned where there was none
  pub data Back (src : SourcePlan S) (s s' : S) : Type 0 where
    synced :
        (r r' : SyncReport)
        → src.report ≡ some r
        → (o : SyncOpts) → o.revision ≡ r.old_revision
        → src.source.sync o s ≡ (s', ok r')
        → Back src s s'
    cleaned :
        (r : SyncReport)
        → src.report ≡ some r
        → r.old_revision ≡ ""
        → src.primary ≡ false
        → src.source.clean s ≡ (s', ok tt)
        → Back src s s'

  -- all sources, one after the other
  pub data AllBack : List (SourcePlan S) → S → S → Type 0 where
    none_left : (s : S) → AllBack [] s s
    back :
        {src : SourcePlan S} {rest : List (SourcePlan S)} {s t u : S}
        → Back src s t
        → AllBack rest t u
        → AllBack (src ∷ rest) s u

  after_sync :
      (src : SourcePlan S) (rest : List (SourcePlan S)) (m : S × Result SyncReport)
      (next : S → Synced S) (s' : S) (srcs : List (SourcePlan S))
      → and_then src rest m next ≡ (s', (srcs, none))
      → (r' : SyncReport) × (m.1 ≡ ok r')
        × (srcs' : List (SourcePlan S)) × (next m.0 ≡ (s', (srcs', none)))
  unfolding and_then
  after_sync src rest (s, err e) next s' srcs h = absurd (ground arith)
  after_sync src rest (s, ok r') next s' srcs h =
      (r', refl, (next s).1.0, ap (λ q. (q.0, ((next s).1.0, q.1.1))) h)

  after_clean :
      (src : SourcePlan S) (rest : List (SourcePlan S)) (m : S × Result (Unit {0}))
      (next : S → Synced S) (s' : S) (srcs : List (SourcePlan S))
      → and_cleaned src rest m next ≡ (s', (srcs, none))
      → (m.1 ≡ ok tt) × (srcs' : List (SourcePlan S)) × (next m.0 ≡ (s', (srcs', none)))
  unfolding and_cleaned
  after_clean src rest (s, err e) next s' srcs h = absurd (ground arith)
  after_clean src rest (s, ok u) next s' srcs h =
      (refl, (next s).1.0, ap (λ q. (q.0, ((next s).1.0, q.1.1))) h)

  -- a source that is rolled back, and the rest of the loop
  Continued : SourcePlan S → S → (S → Synced S) → S → Type 0
  Continued src s next s' =
      (t : S) × Back src s t × (srcs : List (SourcePlan S)) × (next t ≡ (s', (srcs, none)))

  old_synced :
      (src : SourcePlan S) (rest : List (SourcePlan S)) (r : SyncReport) (s s' : S)
      (next : S → Synced S) (srcs : List (SourcePlan S)) (o : SyncOpts)
      → src.report ≡ some r
      → o.revision ≡ r.old_revision
      → and_then src rest (src.source.sync o s) next ≡ (s', (srcs, none))
      → Continued src s next s'
  unfolding Continued
  old_synced src rest r s s' next srcs o e q h =
      let (r', got, srcs', more) = after_sync src rest (src.source.sync o s) next s' srcs h in
      let t = (src.source.sync o s).0 in (t, synced r r' e o q (ap (λ x. (t, x)) got), srcs', more)

  old_cleaned :
      (src : SourcePlan S) (rest : List (SourcePlan S)) (r : SyncReport) (s s' : S)
      (next : S → Synced S) (srcs : List (SourcePlan S))
      → src.report ≡ some r
      → r.old_revision ≡ ""
      → src.primary ≡ false
      → and_cleaned src rest (src.source.clean s) next ≡ (s', (srcs, none))
      → Continued src s next s'
  unfolding Continued
  old_cleaned src rest r s s' next srcs e q p h =
      let (got, srcs', more) = after_clean src rest (src.source.clean s) next s' srcs h in
      let t = (src.source.clean s).0 in (t, cleaned r e q p (ap (λ x. (t, x)) got), srcs', more)

  roll_back_one-Continued :
      (src : SourcePlan S) (rest : List (SourcePlan S)) (o : Option SyncReport) (s s' : S)
      (next : S → Synced S) (srcs : List (SourcePlan S))
      → src.report ≡ o
      → roll_back_one src rest o s next ≡ (s', (srcs, none))
      → Continued src s next s'
  unfolding roll_back_one
  roll_back_one-Continued src rest none s s' next srcs e h = absurd (ground arith)
  roll_back_one-Continued src rest (some r) s s' next srcs e h =
      elim (Bool-cases (r.old_revision == "")) [
        | inr new ↦ old_synced src rest r s s' next srcs _ e refl (rw new at h)
        | inl old ↦ elim (Bool-cases src.primary) [
          | inl p ↦ absurd (ground arith)
          | inr p ↦ old_cleaned src rest r s s' next srcs e ((eq_iff r.old_revision "").0 old) p (
              subst
                (λ b.
                  (if b
                    then (s, (src ∷ rest, some rollback_to_nothing))
                    else and_cleaned src rest (src.source.clean s) next)
                  ≡ (s', (srcs, none)))
                p (rw old at h))
        ]
      ]

  roll_back_all-AllBack :
      (before : List (SourcePlan S)) (s s' : S) (srcs : List (SourcePlan S))
      → roll_back_all before s ≡ (s', (srcs, none))
      → AllBack before s s'
  unfolding roll_back_all Continued
  roll_back_all-AllBack [] s s' srcs h = subst (AllBack [] s) (ap (λ q. q.0) h) (none_left s)
  roll_back_all-AllBack (src ∷ rest) s s' srcs h =
      let (t, b, srcs', more) =
        roll_back_one-Continued src rest src.report s s' (roll_back_all rest) srcs refl h in
      back b (roll_back_all-AllBack rest t s' srcs' more)

  -- If rolling back the sources returns no error, then each of them supports it, and one after the
  -- other each was synced to the old revision of its report or, where the report has none and the
  -- source is not the primary one, cleaned.
  pub roll_back-AllBack :
      (before : List (SourcePlan S)) (s s' : S) (srcs : List (SourcePlan S))
      → roll_back before s ≡ (s', (srcs, none))
      → (all_support before ≡ true) × AllBack before s s'
  unfolding roll_back
  roll_back-AllBack before s s' srcs h = elim (Bool-cases (all_support before)) [
    | inl a ↦ (a, roll_back_all-AllBack before s s' srcs (rw a at h))
    | inr a ↦ absurd (ground arith)
  ]
