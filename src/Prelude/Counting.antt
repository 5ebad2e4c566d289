-- ===== src/Prelude/Counting.antt =====
-- Sets of numbers as lists without repetition, and the pigeonhole principle.
use Prim.Native.Nat.{ℕ, zero, suc, ◌+◌, ◌≤◌, ◌<◌}
use mathlib.Core.Path.{◌≡◌, refl}
use mathlib.Core.Logic.{inl, inr}
use mathlib.Core.Bool.{Bool, false, ◌||◌}
use mathlib.Core.List.{List, [], ◌∷◌}
use native.Mathlib.Omega.{arith}
use xfr.Prelude.Tests.{◌==◌, if◌then◌else◌, Bool-cases}
use xfr.Prelude.Lists.{length}

abbrev pub contains : List ℕ → ℕ → Bool
contains [] a = false
contains (x ∷ xs) a = x == a || contains xs a

abbrev pub IsDistinct : List ℕ → Type 0
IsDistinct [] = Unit
IsDistinct (x ∷ xs) = (contains xs x ≡ false) × IsDistinct xs

abbrev pub AllBelow : ℕ → List ℕ → Type 0
AllBelow n [] = Unit
AllBelow n (x ∷ xs) = (x < n) × AllBelow n xs

pub AllBelow-mono : (m n : ℕ) (xs : List ℕ) → m ≤ n → AllBelow m xs → AllBelow n xs
AllBelow-mono m n [] le h = h
AllBelow-mono m n (x ∷ xs) le h = (omega arith, AllBelow-mono m n xs le h.1)

pub contains-AllBelow : (n a : ℕ) (xs : List ℕ) → AllBelow n xs → n ≤ a → contains xs a ≡ false
contains-AllBelow n a [] h le = refl
contains-AllBelow n a (x ∷ xs) h le = ground (arith, contains-AllBelow n a xs h.1 le)

without : ℕ → List ℕ → List ℕ
without k [] = []
without k (x ∷ xs) = let rest = without k xs in if x == k then rest else x ∷ rest

contains-without :
    (k a : ℕ) (xs : List ℕ) → contains xs a ≡ false → contains (without k xs) a ≡ false
unfolding without
contains-without k a [] h = refl
contains-without k a (x ∷ xs) h = ground (arith, contains-without k a xs)

IsDistinct-without : (k : ℕ) (xs : List ℕ) → IsDistinct xs → IsDistinct (without k xs)
unfolding without
IsDistinct-without k [] h = h
IsDistinct-without k (x ∷ xs) h = elim (Bool-cases (x == k)) [
  | inl e ↦ rw e (IsDistinct-without k xs h.1)
  | inr e ↦ rw e (contains-without k x xs h.0, IsDistinct-without k xs h.1)
]

AllBelow-without : (n : ℕ) (xs : List ℕ) → AllBelow (suc n) xs → AllBelow n (without n xs)
unfolding without
AllBelow-without n [] h = h
AllBelow-without n (x ∷ xs) h = elim (Bool-cases (x == n)) [
  | inl e ↦ rw e (AllBelow-without n xs h.1)
  | inr e ↦ rw e (ground arith, AllBelow-without n xs h.1)
]

length-without_absent :
    (k : ℕ) (xs : List ℕ) → contains xs k ≡ false → length (without k xs) ≡ length xs
unfolding without
length-without_absent k [] h = refl
length-without_absent k (x ∷ xs) h = ground (arith, length-without_absent k xs)

length-without : (k : ℕ) (xs : List ℕ) → IsDistinct xs → length xs ≤ length (without k xs) + 1
unfolding without
length-without k [] h = omega arith
length-without k (x ∷ xs) h = elim (Bool-cases (x == k)) [
  | inl e ↦
      let same : x ≡ k = ground arith in
      rw e (omega (arith, length-without_absent k xs (rw same at h.0)))
  | inr e ↦ rw e (omega (arith, length-without k xs h.1))
]

-- Distinct numbers below `n` are at most `n`.
pub pigeonhole : (n : ℕ) (xs : List ℕ) → IsDistinct xs → AllBelow n xs → length xs ≤ n
pigeonhole zero [] d b = omega arith
pigeonhole zero (x ∷ xs) d b = absurd (omega arith)
pigeonhole (suc n) xs d b = omega (
  arith,
  length-without n xs d,
  pigeonhole n (without n xs) (IsDistinct-without n xs d) (AllBelow-without n xs b),
)
