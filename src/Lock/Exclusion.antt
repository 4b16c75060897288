-- ===== src/Lock/Exclusion.antt =====
-- Two processes are never inside at once, as long as no wait is cancelled.
use materia.Base.{ℕ, ◌≡◌, true, none, some, arith}
use materia.Lock.{
  Locks, lock, lock_or_wait, granted, unlock, Step, locking, starting, granting, unlocking, Reach,
  here, next,
}

-- who is inside, or has noted that it holds the lock, holds it
pub record Inv (s : Locks) : Type 0 where
  pub inside_holds : (i : ℕ) → (s.clients i).inside ≡ true → s.holder ≡ some i
  pub locked_holds : (i : ℕ) → (s.clients i).locked ≡ true → s.holder ≡ some i

lock-Inv : (i : ℕ) (s : Locks) → Inv s → Inv (lock i s).0
unfolding lock
lock-Inv i s v = record {
  inside_holds =
      λ j h. ground (arith, v.inside_holds j, v.locked_holds j, v.inside_holds i, v.locked_holds i);
  locked_holds =
      λ j h. ground (arith, v.inside_holds j, v.locked_holds j, v.inside_holds i, v.locked_holds i);
}

lock_or_wait-Inv : (i : ℕ) (s : Locks) → Inv s → Inv (lock_or_wait i s).0
unfolding lock_or_wait
lock_or_wait-Inv i s v = record {
  inside_holds =
      λ j h. ground (arith, v.inside_holds j, v.locked_holds j, v.inside_holds i, v.locked_holds i);
  locked_holds =
      λ j h. ground (arith, v.inside_holds j, v.locked_holds j, v.inside_holds i, v.locked_holds i);
}

granted-Inv : (i : ℕ) (s : Locks) → s.holder ≡ none → Inv s → Inv (granted i s)
unfolding granted
granted-Inv i s free v = record {
  inside_holds = λ j h. ground (arith, v.inside_holds j, v.locked_holds j);
  locked_holds = λ j h. ground (arith, v.inside_holds j, v.locked_holds j, v.locked_holds i);
}

unlock-Inv : (i : ℕ) (s : Locks) → Inv s → Inv (unlock i s)
unfolding unlock
unlock-Inv i s v = record {
  inside_holds =
      λ j h. ground (arith, v.inside_holds j, v.locked_holds j, v.inside_holds i, v.locked_holds i);
  locked_holds =
      λ j h. ground (arith, v.inside_holds j, v.locked_holds j, v.inside_holds i, v.locked_holds i);
}

Step-Inv : {s t : Locks} → Step s t → Inv s → Inv t
Step-Inv (locking i s) v = lock-Inv i s v
Step-Inv (starting i s) v = lock_or_wait-Inv i s v
Step-Inv (granting i s w free) v = granted-Inv i s free v
Step-Inv (unlocking i s) v = unlock-Inv i s v

Reach-Inv : {s : Locks} → Reach s → Inv s
Reach-Inv here = record { inside_holds = λ i h. cc; locked_holds = λ i h. cc }
Reach-Inv (next r st) = Step-Inv st (Reach-Inv r)

-- In each state that processes reach by locking, waiting, getting the lock and unlocking, where no
-- wait is cancelled, two processes that are inside are the same one, and it holds the lock.
pub exclusion :
    {s : Locks}
    → Reach s
    → (i j : ℕ) → (s.clients i).inside ≡ true
    → (s.clients j).inside ≡ true
    → (i ≡ j) × (s.holder ≡ some i)
exclusion r i j hi hj =
    let v = Reach-Inv r in (cc (v.inside_holds i hi, v.inside_holds j hj), v.inside_holds i hi)
