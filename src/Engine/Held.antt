-- ===== src/Engine/Held.antt =====
-- What a body under the lock of `Materia` (materia.go) has done when it returns.
use materia.Base.{◌≡◌, refl, sym, ap, ◌⊎◌, inl, inr, Option, none, some}
use materia.Errors.{Result, ok, err}
use materia.Engine.Backend.{Locker, with_lock, locked_body, unlocked}

module _ {S : Type 0} where
  abbrev pub enter : Option (Locker S) → S → S × Result (Unit {0})
  enter none s = (s, ok tt)
  enter (some l) s = l.lock_or_wait s

  abbrev pub leave : Option (Locker S) → S → S
  leave none s = s
  leave (some l) s = (l.unlock s).0

module _ {S A : Type 0} where
  -- the body has run with the lock, and the lock was given back
  pub record Held (o : Option (Locker S)) (body : S → S × A) (s s' : S) (a : A) : Type 0 where
    pub inside : S
    pub entered : enter o s ≡ (inside, ok tt)
    pub answered : a ≡ (body inside).1
    pub left : s' ≡ leave o (body inside).0

  locked_body-Held :
      (l : Locker S) (failed : A) (body : S → S × A) (s s' : S) (a : A) (r : S × Result (Unit {0}))
      → l.lock_or_wait s ≡ r
      → locked_body l failed body r ≡ (s', a)
      → (a ≡ failed) ⊎ Held (some l) body s s' a
  unfolding locked_body unlocked
  locked_body-Held l failed body s s' a (t, err e) q h = inl (sym (ap (λ x. x.1) h))
  locked_body-Held l failed body s s' a (t, ok u) q h = inr (record {
    inside = t;
    entered = q;
    answered = sym (ap (λ x. x.1) h);
    left = sym (ap (λ x. x.0) h);
  })

  -- A body under the lock either was not run, and the given failure is returned, or it has run
  -- with the lock, which was then given back.
  pub with_lock-Held :
      (o : Option (Locker S)) (failed : A) (body : S → S × A) (s s' : S) (a : A)
      → with_lock o failed body s ≡ (s', a)
      → (a ≡ failed) ⊎ Held o body s s' a
  unfolding with_lock
  with_lock-Held none failed body s s' a h = inr (record {
    inside = s;
    entered = refl;
    answered = sym (ap (λ x. x.1) h);
    left = sym (ap (λ x. x.0) h);
  })
  with_lock-Held (some l) failed body s s' a h =
      locked_body-Held l failed body s s' a (l.lock_or_wait s) refl h
