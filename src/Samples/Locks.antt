-- ===== src/Samples/Locks.antt =====
-- Two processes and the file lock, and a source that is rolled back.
use materia.Base.{ℕ, ◌+◌, ◌≡◌, refl, true, false, none, some, [], ◌∷◌}
use materia.Errors.{ok}
use materia.Lock.{
  Locks, new_locks, lock, lock_or_wait, unlock, Reach, here, next, locking, starting,
}
use materia.Lock.Exclusion.{exclusion}
use materia.Sources.{
  roll_back_all, roll_back_one, and_then, and_cleaned, Source, SourcePlan, roll_back, all_support,
}
use materia.Sources.Rollback.{AllBack, roll_back-AllBack}

-- the first process has the lock, and the second waits
abbrev first_inside : Locks
first_inside = (lock_or_wait 2 (lock 1 new_locks).0).0

first_inside-Reach : Reach first_inside
first_inside-Reach = next (next here (locking 1 new_locks)) (starting 2 (lock 1 new_locks).0)

first_enters : (first_inside.clients 1).inside ≡ true
unfolding lock_or_wait lock
first_enters = refl

exclusion_example : (◌≡◌ {A = ℕ} 1 1) × (first_inside.holder ≡ some 1)
exclusion_example = exclusion first_inside-Reach 1 1 first_enters first_enters

-- the first process gives the lock back, and the second gets it
abbrev first_left : Locks
first_left = unlock 1 first_inside

none_noted : ((first_left.clients 2).locked ≡ false) × ((first_left.clients 1).locked ≡ false)
unfolding unlock lock_or_wait lock
none_noted = (refl, refl)

-- each sync is counted, and reports the same revisions
abbrev counted_source : Source ℕ
counted_source = record {
  sync = λ o s. (s + 1, ok (record { old_revision = "a"; new_revision = o.revision }));
  supports_rollback = true;
  clean = λ s. (s + 1, ok tt);
}

abbrev synced_source : SourcePlan ℕ
synced_source = record {
  source = counted_source;
  primary = true;
  opts = none;
  report = some (record { old_revision = "a"; new_revision = "b" });
}

abbrev new_source : SourcePlan ℕ
new_source = record {
  source = counted_source;
  primary = false;
  opts = none;
  report = some (record { old_revision = ""; new_revision = "b" });
}

rolled_back : roll_back (synced_source ∷ new_source ∷ []) 0 ≡ (
  2,
  (
    record synced_source { report = some (record { old_revision = "a"; new_revision = "a" }) }
        ∷ new_source
        ∷ [],
    none,
  ),
)
unfolding roll_back roll_back_all roll_back_one and_then and_cleaned all_support
rolled_back = refl

roll_back-AllBack_example :
    (all_support (synced_source ∷ new_source ∷ []) ≡ true)
    × AllBack (synced_source ∷ new_source ∷ []) 0 2
roll_back-AllBack_example = roll_back-AllBack (synced_source ∷ new_source ∷ []) 0 2 _ rolled_back
