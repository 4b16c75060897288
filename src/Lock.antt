-- ===== src/Lock.antt =====
-- pkg/lock/file.go: the file lock, as several processes use it. `flock` belongs to an open file, and
-- each process opens the lock file once; what the kernel knows is which process holds the lock. A
-- wait of `LockOrWait` is two steps, between which the others go on.
pub mod Exclusion
pub mod Leak
use materia.Base.{
  ℕ, Bool, true, false, not, ◌&&◌, ◌||◌, Option, none, some, nat_eq, if◌then◌else◌, ◌≡◌,
}
use materia.Errors.{Result, ok, err, lock_in_use}

-- `FileLock` without its file: `waits` is the state between the two steps of `LockOrWait`, and
-- `inside` is that a call has returned nil and `Unlock` was not called since
pub record FileLock : Type 0 where
  pub locked : Bool
  pub waits : Bool
  pub inside : Bool

pub record Locks : Type 0 where
  pub holder : Option ℕ
  pub clients : ℕ → FileLock

abbrev pub new_file_lock : FileLock
new_file_lock = record { locked = false; waits = false; inside = false }

abbrev pub new_locks : Locks
new_locks = record { holder = none; clients = λ i. new_file_lock }

abbrev pub set_client : Locks → ℕ → FileLock → ℕ → FileLock
set_client s i f j = if nat_eq j i then f else s.clients j

-- `Flock(fd, LOCK_EX|LOCK_NB)` would not block
abbrev pub may_take : Option ℕ → ℕ → Bool
may_take none i = true
may_take (some j) i = nat_eq j i

abbrev taken : Locks → ℕ → Locks
taken s i = record {
  holder = some i;
  clients = set_client s i (record { locked = true; waits = false; inside = true });
}

abbrev entered : Locks → ℕ → Locks
entered s i = record s { clients = set_client s i (record (s.clients i) { inside = true }) }

unfoldable pub lock : ℕ → Locks → Locks × Result (Unit {0})
lock i s =
    if (s.clients i).locked
    then (entered s i, ok tt)
    else if may_take s.holder i
    then (taken s i, ok tt)
    else (s, err lock_in_use)

-- the first step of `LockOrWait`: true if it has returned, false if it waits
unfoldable pub lock_or_wait : ℕ → Locks → Locks × Bool
lock_or_wait i s =
    if (s.clients i).locked
    then (entered s i, true)
    else if may_take s.holder i
    then (taken s i, true)
    else (record s { clients = set_client s i (record (s.clients i) { waits = true }) }, false)

-- the kernel gives the lock to a process that waits: `locked` is not set
unfoldable pub granted : ℕ → Locks → Locks
granted i s = record {
  holder = some i;
  clients = set_client s i (record (s.clients i) { waits = false; inside = true });
}

-- the context is done first: `LockOrWait` returns what `Close` returns, which is nil
unfoldable pub cancelled : ℕ → Locks → Locks
cancelled i s = record s {
  clients = set_client s i (record (s.clients i) { waits = false; inside = true });
}

unfoldable pub unlock : ℕ → Locks → Locks
unlock i s =
    if (s.clients i).locked
    then record {
      holder = none;
      clients = set_client s i (record (s.clients i) { locked = false; inside = false });
    }
    else record s { clients = set_client s i (record (s.clients i) { inside = false }) }

-- what can happen if no wait is cancelled
pub data Step : Locks → Locks → Type 0 where
  locking : (i : ℕ) (s : Locks) → Step s (lock i s).0
  starting : (i : ℕ) (s : Locks) → Step s (lock_or_wait i s).0
  granting :
      (i : ℕ) (s : Locks) → (s.clients i).waits ≡ true → s.holder ≡ none → Step s (granted i s)
  unlocking : (i : ℕ) (s : Locks) → Step s (unlock i s)

pub data Reach : Locks → Type 0 where
  here : Reach new_locks
  next : {s t : Locks} → Reach s → Step s t → Reach t
