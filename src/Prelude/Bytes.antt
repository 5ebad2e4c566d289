-- ===== src/Prelude/Bytes.antt =====
-- Byte buffers as lists of numbers below 256: slices, writes into a buffer, and the big-endian and
-- little-endian encodings of unsigned integers.
use Prim.Native.Nat.{ℕ, zero, suc, ◌+◌, ◌-◌, ◌*◌, ◌/◌, ◌%◌, ◌^◌, ◌≤◌, ◌<◌}
use mathlib.Core.Path.{◌≡◌, refl}
use mathlib.Core.Bool.{Bool, true, false, ◌&&◌}
use mathlib.Core.List.{List, [], ◌∷◌, ◌++◌}
use native.Mathlib.Omega.{arith}
use native.Mathlib.Nat.{pow-suc}
use xfr.Prelude.Tests.{◌==◌}
use xfr.Prelude.Lists.{length, take, drop, length-append, length-take, length-drop}

-- buf[lo..hi]
abbrev pub slice : ℕ → ℕ → List ℕ → List ℕ
slice lo hi buf = take (hi - lo) (drop lo buf)

-- buf[at..at + src.len()].copy_from_slice(src)
abbrev pub copy_at : ℕ → List ℕ → List ℕ → List ℕ
copy_at at src buf = take at buf ++ (src ++ drop (at + length src) buf)

pub length-copy_at :
    (at : ℕ) (src buf : List ℕ)
    → at + length src ≤ length buf
    → length (copy_at at src buf) ≡ length buf
length-copy_at at src buf fits = omega (
  arith,
  length-append (take at buf) (src ++ drop (at + length src) buf),
  length-append src (drop (at + length src) buf),
  length-take at buf,
  length-drop (at + length src) buf,
)

-- Two byte strings are the same.
abbrev pub same_bytes : List ℕ → List ℕ → Bool
same_bytes [] [] = true
same_bytes [] (y ∷ ys) = false
same_bytes (x ∷ xs) [] = false
same_bytes (x ∷ xs) (y ∷ ys) = x == y && same_bytes xs ys

pub same_bytes_refl : (xs : List ℕ) → same_bytes xs xs ≡ true
same_bytes_refl [] = refl
same_bytes_refl (x ∷ xs) = ground (arith, same_bytes_refl xs)

pub same_bytes-eq : (xs ys : List ℕ) → same_bytes xs ys ≡ true → xs ≡ ys
same_bytes-eq [] [] h = refl
same_bytes-eq [] (y ∷ ys) h = cc
same_bytes-eq (x ∷ xs) [] h = cc
same_bytes-eq (x ∷ xs) (y ∷ ys) h = ground (arith, same_bytes-eq xs ys)

abbrev pub AllBytes : List ℕ → Type 0
AllBytes [] = Unit
AllBytes (b ∷ bytes) = (b < 256) × AllBytes bytes

-- uN::to_be_bytes, for an integer of k bytes
abbrev pub to_be_bytes : ℕ → ℕ → List ℕ
to_be_bytes zero n = []
to_be_bytes (suc k) n = to_be_bytes k (n / 256) ++ n % 256 ∷ []

from_be : ℕ → List ℕ → ℕ
from_be acc [] = acc
from_be acc (b ∷ bytes) = from_be (acc * 256 + b) bytes

-- uN::from_be_bytes
unfoldable pub from_be_bytes : List ℕ → ℕ
unfolding from_be
from_be_bytes = from_be 0

from_be-snoc :
    (acc : ℕ) (bytes : List ℕ) (b : ℕ) → from_be acc (bytes ++ b ∷ []) ≡ from_be acc bytes * 256 + b
unfolding from_be
from_be-snoc acc [] b = refl
from_be-snoc acc (c ∷ bytes) b = from_be-snoc (acc * 256 + c) bytes b

pub from_be_bytes-to_be_bytes : (k n : ℕ) → n < 256 ^ k → from_be_bytes (to_be_bytes k n) ≡ n
unfolding from_be_bytes
from_be_bytes-to_be_bytes zero n h = omega arith
from_be_bytes-to_be_bytes (suc k) n h = omega (
  arith,
  from_be-snoc 0 (to_be_bytes k (n / 256)) (n % 256),
  from_be_bytes-to_be_bytes k (n / 256) (omega (arith, pow-suc 256 k)),
)

-- uN::to_le_bytes
abbrev pub to_le_bytes : ℕ → ℕ → List ℕ
to_le_bytes zero n = []
to_le_bytes (suc k) n = (n % 256) ∷ to_le_bytes k (n / 256)

-- uN::from_le_bytes
unfoldable pub from_le_bytes : List ℕ → ℕ
from_le_bytes [] = 0
from_le_bytes (b ∷ bytes) = b + 256 * from_le_bytes bytes

pub from_le_bytes-to_le_bytes : (k n : ℕ) → n < 256 ^ k → from_le_bytes (to_le_bytes k n) ≡ n
unfolding from_le_bytes
from_le_bytes-to_le_bytes zero n h = omega arith
from_le_bytes-to_le_bytes (suc k) n h =
    omega (arith, from_le_bytes-to_le_bytes k (n / 256) (omega (arith, pow-suc 256 k)))
