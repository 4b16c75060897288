-- ===== src/Base/Sort.antt =====
-- `slices.SortStableFunc` by a numeric key and `slices.Sort` on texts.
use Prim.Native.Nat.{ℕ, ◌≤◌}
use Prim.Native.String.{String, compare}
use mathlib.Core.List.{List, [], ◌∷◌, Perm}
use mathlib.Core.List.Perm
use native.Mathlib.Omega.{arith}
use text.Mathlib.Text.{is_le}
use materia.Base.Tests.{leb, if◌then◌else◌, Bool-cases}
use mathlib.Core.Logic.{inl, inr}

module _ {ℓ} {A : Type ℓ} (key : A → ℕ) where
  -- before the first element whose key is not smaller, so equal elements keep their order
  unfoldable pub insert_stable : A → List A → List A
  insert_stable x [] = x ∷ []
  insert_stable x (y ∷ ys) = if leb (key x) (key y) then x ∷ y ∷ ys else y ∷ insert_stable x ys

  unfoldable pub sort_stable : List A → List A
  unfolding insert_stable
  sort_stable [] = []
  sort_stable (x ∷ xs) = insert_stable x (sort_stable xs)

  abbrev pub AllLe : ℕ → List A → Type 0
  AllLe n [] = Unit
  AllLe n (x ∷ xs) = (n ≤ key x) × AllLe n xs

  abbrev pub Sorted : List A → Type 0
  Sorted [] = Unit
  Sorted (x ∷ xs) = AllLe (key x) xs × Sorted xs

  AllLe-weaken : (m n : ℕ) (xs : List A) → m ≤ n → AllLe n xs → AllLe m xs
  AllLe-weaken m n [] h a = tt
  AllLe-weaken m n (x ∷ xs) h a = (omega arith, AllLe-weaken m n xs h a.1)

  AllLe-insert :
      (n : ℕ) (x : A) (xs : List A) → n ≤ key x → AllLe n xs → AllLe n (insert_stable x xs)
  unfolding insert_stable
  AllLe-insert n x [] h a = (h, tt)
  AllLe-insert n x (y ∷ ys) h a = elim (Bool-cases (leb (key x) (key y))) [
    | inl e ↦ rw e (h, a)
    | inr e ↦ rw e (a.0, AllLe-insert n x ys h a.1)
  ]

  Sorted-insert : (x : A) (xs : List A) → Sorted xs → Sorted (insert_stable x xs)
  unfolding insert_stable
  Sorted-insert x [] s = (tt, tt)
  Sorted-insert x (y ∷ ys) s = elim (Bool-cases (leb (key x) (key y))) [
    | inl e ↦ rw e ((ground arith, AllLe-weaken (key x) (key y) ys (ground arith) s.0), s)
    | inr e ↦ rw e (AllLe-insert (key y) x ys (ground arith) s.0, Sorted-insert x ys s.1)
  ]

  pub Sorted-sort_stable : (xs : List A) → Sorted (sort_stable xs)
  unfolding sort_stable
  Sorted-sort_stable [] = tt
  Sorted-sort_stable (x ∷ xs) = Sorted-insert x (sort_stable xs) (Sorted-sort_stable xs)

  insert_stable-perm : (x : A) (xs : List A) → Perm (insert_stable x xs) (x ∷ xs)
  unfolding insert_stable
  insert_stable-perm x [] = Perm.refl _
  insert_stable-perm x (y ∷ ys) = elim (Bool-cases (leb (key x) (key y))) [
    | inl e ↦ rw e (Perm.refl _)
    | inr e ↦ rw e (Perm.trans (Perm.cons y (insert_stable-perm x ys)) (Perm.swap x y ys))
  ]

  pub sort_stable-perm : (xs : List A) → Perm (sort_stable xs) xs
  unfolding sort_stable
  sort_stable-perm [] = Perm.refl _
  sort_stable-perm (x ∷ xs) =
      Perm.trans (insert_stable-perm x (sort_stable xs)) (Perm.cons x (sort_stable-perm xs))

-- texts in the order of their bytes; equal texts cannot be told apart, so stability is no matter
unfoldable pub insert_text : String → List String → List String
insert_text x [] = x ∷ []
insert_text x (y ∷ ys) = if is_le (compare x y) then x ∷ y ∷ ys else y ∷ insert_text x ys

unfoldable pub sort_texts : List String → List String
unfolding insert_text
sort_texts [] = []
sort_texts (x ∷ xs) = insert_text x (sort_texts xs)
