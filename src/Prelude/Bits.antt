-- ===== src/Prelude/Bits.antt =====
-- The bits of a machine word held as a number: `bit_at` reads one, and the word operations
-- `|`, `&`, `!`, `1 << k`, `MAX << k` and `(1 << k) - 1` are known by their bits.
use Prim.Native.Nat.{
  ℕ, zero, suc, ◌+◌, ◌-◌, ◌*◌, ◌/◌, ◌%◌, ◌^◌, ◌≤◌, ◌<◌, min, max, bit_and, bit_or, digits,
  bit_and-bitwise, bit_or-bitwise,
}
use mathlib.Core.Path.{◌≡◌, refl, sym, ap, subst, ◌∙◌}
use mathlib.Core.Bool.{Bool, false, not, ◌&&◌, ◌||◌}
use native.Mathlib.Omega.{arith}
use native.Mathlib.Nat.{
  pow-suc, one-le-pow, mod-lt, mod-eq_of_lt, div-add-mod, add-mul-mod_self_left,
}
use xfr.Prelude.Tests.{◌==◌, ltb, leb}

-- One digit of the two native operations, from the digit recursion that they stand for.
abbrev or_run : ℕ → ℕ → ℕ → ℕ
or_run fuel a b = digits (λ b. b) max fuel a b

or_run_enough : (f g a b : ℕ) → a ≤ f → a ≤ g → or_run f a b ≡ or_run g a b
or_run_enough zero zero a b p q = refl
or_run_enough zero (suc g) zero b p q = refl
or_run_enough zero (suc g) (suc a) b p q = absurd (omega arith)
or_run_enough (suc f) zero zero b p q = refl
or_run_enough (suc f) zero (suc a) b p q = absurd (omega arith)
or_run_enough (suc f) (suc g) zero b p q = refl
or_run_enough (suc f) (suc g) (suc a) b p q =
    omega (arith, or_run_enough f g (suc a / 2) (b / 2) (omega arith) (omega arith))

bit_or_step : (a b : ℕ) → bit_or a b ≡ bit_or (a / 2) (b / 2) * 2 + max (a % 2) (b % 2)
bit_or_step zero b = omega (arith, bit_or-bitwise 0 b, bit_or-bitwise 0 (b / 2))
bit_or_step (suc a) b = omega (
  arith,
  bit_or-bitwise (suc a) b,
  bit_or-bitwise (suc a / 2) (b / 2),
  or_run_enough a (suc a / 2) (suc a / 2) (b / 2) (omega arith) (omega arith),
)

abbrev and_run : ℕ → ℕ → ℕ → ℕ
and_run fuel a b = digits (λ b. zero) min fuel a b

and_run_enough : (f g a b : ℕ) → a ≤ f → a ≤ g → and_run f a b ≡ and_run g a b
and_run_enough zero zero a b p q = refl
and_run_enough zero (suc g) zero b p q = refl
and_run_enough zero (suc g) (suc a) b p q = absurd (omega arith)
and_run_enough (suc f) zero zero b p q = refl
and_run_enough (suc f) zero (suc a) b p q = absurd (omega arith)
and_run_enough (suc f) (suc g) zero b p q = refl
and_run_enough (suc f) (suc g) (suc a) b p q =
    omega (arith, and_run_enough f g (suc a / 2) (b / 2) (omega arith) (omega arith))

bit_and_step : (a b : ℕ) → bit_and a b ≡ bit_and (a / 2) (b / 2) * 2 + min (a % 2) (b % 2)
bit_and_step zero b = omega (arith, bit_and-bitwise 0 b, bit_and-bitwise 0 (b / 2))
bit_and_step (suc a) b = omega (
  arith,
  bit_and-bitwise (suc a) b,
  bit_and-bitwise (suc a / 2) (b / 2),
  and_run_enough a (suc a / 2) (suc a / 2) (b / 2) (omega arith) (omega arith),
)

bit_and_halves : (a m : ℕ) → 0 < m → bit_and a (m * 2 - 1) ≡ bit_and (a / 2) (m - 1) * 2 + a % 2
bit_and_halves a m h =
    let half : (m * 2 - 1) / 2 ≡ m - 1 = omega arith in
    let odd : (m * 2 - 1) % 2 ≡ 1 = omega arith in
    let bit : min (a % 2) ((m * 2 - 1) % 2) ≡ a % 2 = omega arith in
    bit_and_step a (m * 2 - 1) ∙ rw (half, bit) refl

-- Bit `k` of `w`.
unfoldable pub bit_at : ℕ → ℕ → Bool
bit_at w zero = w % 2 == 1
bit_at w (suc k) = bit_at (w / 2) k

pub bit_at-bit_or : (k a b : ℕ) → bit_at (bit_or a b) k ≡ (bit_at a k || bit_at b k)
unfolding bit_at
bit_at-bit_or zero a b = ground (arith, bit_or_step a b)
bit_at-bit_or (suc k) a b =
    let halved : bit_or a b / 2 ≡ bit_or (a / 2) (b / 2) = omega (arith, bit_or_step a b) in
    rw halved (bit_at-bit_or k (a / 2) (b / 2))

pub bit_at-bit_and : (k a b : ℕ) → bit_at (bit_and a b) k ≡ (bit_at a k && bit_at b k)
unfolding bit_at
bit_at-bit_and zero a b = ground (arith, bit_and_step a b)
bit_at-bit_and (suc k) a b =
    let halved : bit_and a b / 2 ≡ bit_and (a / 2) (b / 2) = omega (arith, bit_and_step a b) in
    rw halved (bit_at-bit_and k (a / 2) (b / 2))

pub bit_at-zero : (k : ℕ) → bit_at 0 k ≡ false
unfolding bit_at
bit_at-zero zero = refl
bit_at-zero (suc k) = bit_at-zero k

-- `!w` at width `n`.
pub bit_at-complement :
    (n k w : ℕ) → k < n → w < 2 ^ n → bit_at (2 ^ n - 1 - w) k ≡ not (bit_at w k)
unfolding bit_at
bit_at-complement zero k w h fits = absurd (omega arith)
bit_at-complement (suc n) zero w h fits = ground (arith, pow-suc 2 n, one-le-pow n 2)
bit_at-complement (suc n) (suc k) w h fits =
    let e : (2 ^ suc n - 1 - w) / 2 ≡ 2 ^ n - 1 - w / 2 =
      omega (arith, pow-suc 2 n, one-le-pow n 2) in
    rw e (bit_at-complement n k (w / 2) (omega arith) (omega (arith, pow-suc 2 n)))

-- `(1 << n) - 1`.
pub bit_at-ones : (n k : ℕ) → bit_at (2 ^ n - 1) k ≡ ltb k n
unfolding bit_at
bit_at-ones zero k = ground (arith, bit_at-zero k)
bit_at-ones (suc n) zero = ground (arith, pow-suc 2 n, one-le-pow n 2)
bit_at-ones (suc n) (suc k) =
    let e : (2 ^ suc n - 1) / 2 ≡ 2 ^ n - 1 = omega (arith, pow-suc 2 n, one-le-pow n 2) in
    rw e (ground (arith, bit_at-ones n k))

-- `1 << n`.
pub bit_at-single : (n k : ℕ) → bit_at (2 ^ n) k ≡ (k == n)
unfolding bit_at
bit_at-single zero zero = refl
bit_at-single zero (suc k) = ground (arith, bit_at-zero k)
bit_at-single (suc n) zero = ground (arith, pow-suc 2 n)
bit_at-single (suc n) (suc k) =
    let e : 2 ^ suc n / 2 ≡ 2 ^ n = omega (arith, pow-suc 2 n) in
    rw e (ground (arith, bit_at-single n k))

pub bit_or-lt : (n a b : ℕ) → a < 2 ^ n → b < 2 ^ n → bit_or a b < 2 ^ n
bit_or-lt zero a b p q =
    let a0 : a ≡ 0 = omega arith in
    let b0 : b ≡ 0 = omega arith in rw (a0, b0) (omega (arith, bit_or-bitwise 0 0))
bit_or-lt (suc n) a b p q = omega (
  arith,
  pow-suc 2 n,
  bit_or_step a b,
  bit_or-lt n (a / 2) (b / 2) (omega (arith, pow-suc 2 n)) (omega (arith, pow-suc 2 n)),
)

pub bit_and-lt : (n a b : ℕ) → a < 2 ^ n → bit_and a b < 2 ^ n
bit_and-lt zero a b p =
    let none : a ≡ 0 = omega arith in rw none (omega (arith, bit_and-bitwise 0 b))
bit_and-lt (suc n) a b p = omega (
  arith,
  pow-suc 2 n,
  bit_and_step a b,
  bit_and-lt n (a / 2) (b / 2) (omega (arith, pow-suc 2 n)),
)

mod-pow-suc : (x n : ℕ) → x % 2 ^ suc n ≡ x % 2 + 2 * (x / 2 % 2 ^ n)
mod-pow-suc x n =
    let m = 2 ^ n in
    let low = x % 2 + 2 * (x / 2 % m) in
    let split : x ≡ low + 2 * m * (x / 2 / m) = omega (arith, div-add-mod (x / 2) m) in
    let pos : 0 < m = one-le-pow n 2 (omega arith) in
    let small : low < 2 * m = omega (arith, mod-lt (x / 2) pos) in
    let e : x % (2 * m) ≡ low =
      subst (λ (t : ℕ). t % (2 * m) ≡ low) (sym split)
        (add-mul-mod_self_left low (2 * m) (x / 2 / m) ∙ mod-eq_of_lt small) in
    let f : 2 ^ suc n ≡ 2 * m = omega (arith, pow-suc 2 n) in rw (f, e)

bit_at-mod : (n x k : ℕ) → bit_at (x % 2 ^ n) k ≡ (ltb k n && bit_at x k)
unfolding bit_at
bit_at-mod zero x k = let e : x % 1 ≡ 0 = omega arith in rw e (ground (arith, bit_at-zero k))
bit_at-mod (suc n) x zero =
    let e : x % 2 ^ suc n % 2 ≡ x % 2 = omega (arith, mod-pow-suc x n) in rw e (ground arith)
bit_at-mod (suc n) x (suc k) =
    let e : x % 2 ^ suc n / 2 ≡ x / 2 % 2 ^ n = omega (arith, mod-pow-suc x n) in
    rw e (ground (arith, bit_at-mod n (x / 2) k))

bit_at-shifted : (s w k : ℕ) → bit_at (w * 2 ^ s) k ≡ (leb s k && bit_at w (k - s))
unfolding bit_at
bit_at-shifted zero w k =
    let e : w * 1 ≡ w = omega arith in let d : k - 0 ≡ k = omega arith in rw (e, d) (ground arith)
bit_at-shifted (suc s) w zero = ground (arith, pow-suc 2 s, ap (λ (t : ℕ). w * t) (pow-suc 2 s))
bit_at-shifted (suc s) w (suc k) =
    let e : w * 2 ^ suc s / 2 ≡ w * 2 ^ s = omega (arith, ap (λ (t : ℕ). w * t) (pow-suc 2 s)) in
    let d : suc k - suc s ≡ k - s = omega arith in rw (e, d) (ground (arith, bit_at-shifted s w k))

-- `w << s` at width `n`.
pub bit_at-shl :
    (n s w k : ℕ) → bit_at (w * 2 ^ s % 2 ^ n) k ≡ (ltb k n && (leb s k && bit_at w (k - s)))
bit_at-shl n s w k = rw (bit_at-mod, bit_at-shifted)

bit_and-zero : (fuel a : ℕ) → a ≤ fuel → bit_and a 0 ≡ 0
bit_and-zero zero a h = let e : a ≡ 0 = omega arith in rw e refl
bit_and-zero (suc fuel) zero h = refl
bit_and-zero (suc fuel) (suc a) h =
    omega (arith, bit_and_step (suc a) 0, bit_and-zero fuel (suc a / 2) (omega arith))

-- `w & (1 << k) != 0` reads bit `k`.
pub bit_and-single : (k w : ℕ) → (bit_and w (2 ^ k) == 0) ≡ not (bit_at w k)
unfolding bit_at
bit_and-single zero w =
    let e : bit_and w 1 ≡ w % 2 =
      omega (arith, bit_and_step w 1, bit_and-zero (w / 2) (w / 2) (omega arith)) in
    rw e (ground arith)
bit_and-single (suc k) w =
    let e : bit_and w (2 ^ suc k) ≡ bit_and (w / 2) (2 ^ k) * 2 =
      let half : 2 ^ suc k / 2 ≡ 2 ^ k = omega (arith, pow-suc 2 k) in
      let even : 2 ^ suc k % 2 ≡ 0 = omega (arith, pow-suc 2 k) in
      rw half at (rw even at (bit_and_step w (2 ^ suc k))) ∙ omega arith in
    rw e (ground (arith, bit_and-single k (w / 2)))

mod-double : (a m : ℕ) → 0 < m → a % (m * 2) ≡ a / 2 % m * 2 + a % 2
mod-double a m h =
    let q = a / 2 / m in
    let r = a / 2 % m in
    let whole : a / 2 ≡ m * q + r = sym (div-add-mod (a / 2) m) in
    let small : r < m = mod-lt (a / 2) h in
    let e : a ≡ r * 2 + a % 2 + m * 2 * q = omega (arith, whole) in
    ap (λ x. x % (m * 2)) e
    ∙ add-mul-mod_self_left (r * 2 + a % 2) (m * 2) q
    ∙ mod-eq_of_lt (omega (arith, small))

-- A mask of the lower `k` bits takes the remainder.
pub bit_and-ones : (k a : ℕ) → bit_and a (2 ^ k - 1) ≡ a % 2 ^ k
bit_and-ones zero a = bit_and-zero a a (omega arith) ∙ omega arith
bit_and-ones (suc k) a =
    let power : 2 ^ suc k ≡ 2 ^ k * 2 = pow-suc 2 k in
    let some_bit : 0 < 2 ^ k = omega (arith, one-le-pow k 2 (omega arith)) in
    rw power (
      bit_and_halves a (2 ^ k) some_bit
      ∙ ap (λ b. b * 2 + a % 2) (bit_and-ones k (a / 2))
      ∙ sym (mod-double a (2 ^ k) some_bit))

-- The lower nine, six and twelve bits.
pub bit_and-lower9 : (a : ℕ) → bit_and a 511 ≡ a % 512
bit_and-lower9 a = bit_and-ones 9 a

pub bit_and-lower6 : (a : ℕ) → bit_and a 63 ≡ a % 64
bit_and-lower6 a = bit_and-ones 6 a

pub bit_and-lower12 : (a : ℕ) → bit_and a 4095 ≡ a % 4096
bit_and-lower12 a = bit_and-ones 12 a
