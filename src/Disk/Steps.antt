-- ===== src/Disk/Steps.antt =====
-- Steps that change the disk, one after the other: the first error ends them.
use materia.Errors.{Result, ok, err, OnOk, OnOk-err}
use materia.Base.{◌≡◌, refl, Bool, true, false, if◌then◌else◌}
use materia.Disk.{Disk, DiskM}

abbrev pub next : {A B : Type 0} → Disk × Result A → (A → DiskM B) → Disk × Result B
next (d, ok a) k = k a d
next (d, err e) k = (d, err e)

infixl 5 ◌>>=◌ ◌>>◌
abbrev pub ◌>>=◌ : {A B : Type 0} → DiskM A → (A → DiskM B) → DiskM B
(m >>= k) d = next (m d) k

abbrev pub ◌>>◌ : {A B : Type 0} → DiskM A → DiskM B → DiskM B
m >> k = m >>= λ _. k

abbrev pub done : {A : Type 0} → A → DiskM A
done a d = (d, ok a)

pub next-ok :
    {A B : Type 0} (m : Disk × Result A) (k : A → DiskM B) (d' : Disk) (b : B)
    → next m k ≡ (d', ok b)
    → (a : A) × (m.1 ≡ ok a) × (k a m.0 ≡ (d', ok b))
next-ok (d, ok a) k d' b h = (a, refl, h)
next-ok (d, err e) k d' b h = cc

pub next-first :
    {A B : Type 0} (m : Disk × Result A) (k : A → DiskM B) (b : B)
    → (next m k).1 ≡ ok b
    → (a : A) × (m.1 ≡ ok a)
next-first (d, ok a) k b h = (a, refl)
next-first (d, err e) k b h = cc

pub OnOk-next {ν} :
    {A B : Type 0} {Q : B → Type ν} (m : Disk × Result A) (k : A → DiskM B)
    → ((a : A) → OnOk Q (k a m.0).1)
    → OnOk Q (next m k).1
OnOk-next (d, ok a) k h = h a
OnOk-next (d, err e) k h = OnOk-err e

-- a step whose result is known to satisfy `P`
pub OnOk-next_step {μ ν} :
    {A B : Type 0} {P : A → Type μ} {Q : B → Type ν} (m : Disk × Result A) (k : A → DiskM B)
    → OnOk P m.1
    → ((a : A) → P a → OnOk Q (k a m.0).1)
    → OnOk Q (next m k).1
OnOk-next_step (d, ok a) k p h = h a (p.at a refl)
OnOk-next_step (d, err e) k p h = OnOk-err e

pub OnOk-if_at {ν} :
    {B : Type 0} {Q : B → Type ν} (b : Bool) (m n : DiskM B) (d : Disk)
    → OnOk Q (m d).1
    → OnOk Q (n d).1
    → OnOk Q ((if b then m else n) d).1
OnOk-if_at true m n d hm hn = hm
OnOk-if_at false m n d hm hn = hn
