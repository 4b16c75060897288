-- ===== src/Lock/Leak.antt =====
-- What waiting for the file lock leaves behind.
use materia.Base.{ℕ, ◌≡◌, ◌≢◌, true, false, arith}
use materia.Errors.{err, lock_in_use}
use materia.Lock.{Locks, lock, granted, cancelled, unlock}

-- A process that got the lock by waiting, and has not noted it before, still holds it behind its
-- `Unlock`: the attempt of another process that has not noted it either is refused.
pub unlock_after_wait :
    (s : Locks) (i j : ℕ)
    → i ≢ j
    → (s.clients i).locked ≡ false
    → (s.clients j).locked ≡ false
    → (lock j (unlock i (granted i s))).1 ≡ err lock_in_use
unfolding lock unlock granted
unlock_after_wait s i j d hi hj = ground arith

-- A wait that is cancelled returns as if the lock was got, while another process holds it.
pub cancelled_inside :
    (s : Locks) (i j : ℕ)
    → i ≢ j
    → (s.clients j).inside ≡ true
    → (((cancelled i s).clients i).inside ≡ true) × (((cancelled i s).clients j).inside ≡ true)
unfolding cancelled
cancelled_inside s i j d h = (ground arith, ground arith)
