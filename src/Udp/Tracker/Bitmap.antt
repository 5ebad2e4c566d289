-- ===== src/Udp/Tracker/Bitmap.antt =====
-- The bitmap of the packet tracker, position by position: every operation on its words, given by
-- what it does to the bit of each index below the window.
use Prim.Native.Nat.{bit_and, bit_or}
use native.Mathlib.Nat.{pow-le-pow_right}
use xfr.Prelude.{
  Bool-cases, ◌≢◌, inl, inr, ℕ, zero, suc, ◌+◌, ◌-◌, ◌/◌, ◌%◌, ◌^◌, ◌≤◌, ◌<◌, min, ◌≡◌, refl, Bool,
  false, not, ◌&&◌, ◌||◌, List, [], ◌∷◌, map, length, get_or, fill_range, length-set,
  length-fill_range, length-map, get_or-set, get_or-fill_range, arith, ltb, leb, ◌==◌,
  if◌then◌else◌,
}
use xfr.Prelude.Bits.{
  bit_at, bit_at-bit_or, bit_at-bit_and, bit_at-zero, bit_at-ones, bit_at-single, bit_and-single,
  bit_and-lt,
}
use xfr.Prelude.Words.{u64_mod, complement, shl, bit_at-shl_max, bit_at-complement64}
use xfr.Udp.Tracker.{
  packet_tracker_window, word_count, first_mask, last_mask, clear_mask, clear_range, advance_window,
  bit_mask, is_set, set_bit,
}

-- The bit of one index.
unfoldable pub bit_of : List ℕ → ℕ → Bool
bit_of seen p = bit_at (get_or seen (p / 64) 0) (p % 64)

pub is_set-bit_of : (seen : List ℕ) (p : ℕ) → is_set seen p ≡ bit_of seen p
unfolding is_set bit_of
is_set-bit_of seen p = ground (arith, bit_and-single (p % 64) (get_or seen (p / 64) 0))

-- All the words are there.
abbrev pub IsBitmap : List ℕ → Type 0
IsBitmap seen = length seen ≡ word_count

pub set_bit-IsBitmap : (seen : List ℕ) (p : ℕ) → IsBitmap seen → IsBitmap (set_bit seen p)
unfolding set_bit
set_bit-IsBitmap seen p h = rw length-set h

pub bit_of-set_bit :
    (seen : List ℕ) (p q : ℕ)
    → IsBitmap seen
    → p < packet_tracker_window
    → q < packet_tracker_window
    → bit_of (set_bit seen p) q ≡ (p == q || bit_of seen q)
unfolding bit_of set_bit
bit_of-set_bit seen p q h hp hq = ground (
  arith,
  get_or-set seen (p / 64) (bit_or (get_or seen (p / 64) 0) (bit_mask p)) (q / 64) 0,
  bit_at-bit_or (q % 64) (get_or seen (p / 64) 0) (bit_mask p),
  bit_at-single (p % 64) (q % 64),
)

bit_at-first_mask : (start k : ℕ) → k < 64 → bit_at (first_mask start) k ≡ leb (start % 64) k
unfolding first_mask
bit_at-first_mask start k h = bit_at-shl_max (start % 64) k h

bit_at-last_mask : (e k : ℕ) → k < 64 → bit_at (last_mask e) k ≡ (e == 0 || ltb k e)
unfolding last_mask
bit_at-last_mask e k h = ground (arith, bit_at-ones e k, bit_at-ones 64 k)

bit_of-clear_mask :
    (seen : List ℕ) (i mask q : ℕ)
    → IsBitmap seen
    → mask < u64_mod
    → q < packet_tracker_window
    → bit_of (clear_mask seen i mask) q
      ≡ (if i == q / 64 then bit_of seen q && not (bit_at mask (q % 64)) else bit_of seen q)
unfolding bit_of clear_mask
bit_of-clear_mask seen i mask q h hm hq = ground (
  arith,
  get_or-set seen i (bit_and (get_or seen i 0) (complement mask)) (q / 64) 0,
  bit_at-bit_and (q % 64) (get_or seen i 0) (complement mask),
  bit_at-complement64 (q % 64) mask,
)

first_mask-lt : (start : ℕ) → first_mask start < u64_mod
unfolding first_mask shl
first_mask-lt start = omega arith

last_mask-lt : (e : ℕ) → e < 64 → last_mask e < u64_mod
unfolding last_mask
last_mask-lt e h =
    let le : 2 ^ e ≤ 2 ^ 64 = pow-le-pow_right (omega arith) {i = e} {j = 64} (omega arith) in
    let room : 2 ^ 64 ≡ u64_mod = refl in ground arith

clear_mask-IsBitmap :
    (seen : List ℕ) (i mask : ℕ) → IsBitmap seen → IsBitmap (clear_mask seen i mask)
unfolding clear_mask
clear_mask-IsBitmap seen i mask h = rw length-set h

fill_range-IsBitmap :
    (seen : List ℕ) (lo hi : ℕ) → IsBitmap seen → IsBitmap (fill_range seen lo hi 0)
fill_range-IsBitmap seen lo hi h = rw length-fill_range h

pub clear_range-IsBitmap :
    (seen : List ℕ) (start end : ℕ) → IsBitmap seen → IsBitmap (clear_range seen start end)
unfolding clear_range
clear_range-IsBitmap seen start end h = elim (Bool-cases (start == end)) [
  | inl empty ↦ rw empty h
  | inr some ↦ rw some (elim (Bool-cases (start / 64 == (end - 1) / 64)) [
    | inl one ↦ rw one (clear_mask-IsBitmap seen _ _ h)
    | inr many ↦
        rw many
          (clear_mask-IsBitmap _ _ _ (fill_range-IsBitmap _ _ _ (clear_mask-IsBitmap seen _ _ h)))
  ])
]

bit_of-fill_range :
    (seen : List ℕ) (lo hi q : ℕ)
    → IsBitmap seen
    → q < packet_tracker_window
    → bit_of (fill_range seen lo hi 0) q
      ≡ (if leb lo (q / 64) && ltb (q / 64) hi then false else bit_of seen q)
unfolding bit_of
bit_of-fill_range seen lo hi q h hq =
    ground (arith, get_or-fill_range seen lo hi 0 (q / 64) 0, bit_at-zero (q % 64))

get_or-zeros : (seen : List ℕ) (i : ℕ) → get_or (map {B = ℕ} (λ _. 0) seen) i 0 ≡ 0
get_or-zeros [] i = refl
get_or-zeros (x ∷ seen) zero = refl
get_or-zeros (x ∷ seen) (suc i) = get_or-zeros seen i

-- Both masks fall in one word.
clear_one_word :
    (seen : List ℕ) (start end q : ℕ)
    → IsBitmap seen
    → start < end
    → q < packet_tracker_window
    → start / 64 ≡ (end - 1) / 64
    → bit_of (clear_mask seen (start / 64) (bit_and (first_mask start) (last_mask (end % 64)))) q
      ≡ (bit_of seen q && not (leb start q && ltb q end))
clear_one_word seen start end q h lt hq same = ground (
  arith,
  bit_of-clear_mask seen (start / 64) (bit_and (first_mask start) (last_mask (end % 64))) q h
      (bit_and-lt 64 (first_mask start) (last_mask (end % 64)) (first_mask-lt start)),
  bit_at-bit_and (q % 64) (first_mask start) (last_mask (end % 64)),
  bit_at-first_mask start (q % 64),
  bit_at-last_mask (end % 64) (q % 64),
)

-- The masks fall in two words, with whole words between them.
clear_many_words :
    (seen : List ℕ) (start end q : ℕ)
    → IsBitmap seen
    → start < end
    → q < packet_tracker_window
    → start / 64 ≢ (end - 1) / 64
    → let head = clear_mask seen (start / 64) (first_mask start) in
      let middle = fill_range head (start / 64 + 1) ((end - 1) / 64) 0 in
      bit_of (clear_mask middle ((end - 1) / 64) (last_mask (end % 64))) q
      ≡ (bit_of seen q && not (leb start q && ltb q end))
clear_many_words seen start end q h lt hq differ =
    let head = clear_mask seen (start / 64) (first_mask start) in
    let middle = fill_range head (start / 64 + 1) ((end - 1) / 64) 0 in
    let head_ok = clear_mask-IsBitmap seen (start / 64) (first_mask start) h in
    let middle_ok = fill_range-IsBitmap head (start / 64 + 1) ((end - 1) / 64) head_ok in
    ground (
      arith,
      bit_of-clear_mask seen (start / 64) (first_mask start) q h (first_mask-lt start),
      bit_of-fill_range head (start / 64 + 1) ((end - 1) / 64) q head_ok,
      bit_of-clear_mask middle ((end - 1) / 64) (last_mask (end % 64)) q middle_ok
          (last_mask-lt (end % 64) (omega arith)),
      bit_at-first_mask start (q % 64),
      bit_at-last_mask (end % 64) (q % 64),
    )

pub bit_of-clear_range :
    (seen : List ℕ) (start end q : ℕ)
    → IsBitmap seen
    → start ≤ end
    → q < packet_tracker_window
    → bit_of (clear_range seen start end) q ≡ (bit_of seen q && not (leb start q && ltb q end))
unfolding clear_range
bit_of-clear_range seen start end q h le hq = elim (Bool-cases (start == end)) [
  | inl empty ↦ rw empty (ground arith)
  | inr some ↦ rw some (elim (Bool-cases (start / 64 == (end - 1) / 64)) [
    | inl one ↦ rw one (clear_one_word seen start end q h (ground arith) hq (ground arith))
    | inr many ↦ rw many (clear_many_words seen start end q h (ground arith) hq (ground arith))
  ])
]

pub advance_window-IsBitmap :
    (seen : List ℕ) (previous next : ℕ)
    → IsBitmap seen
    → IsBitmap (advance_window seen previous next)
unfolding advance_window
advance_window-IsBitmap seen previous next h =
    let start = (previous + 1) % 65_536 in
    let end = start + (next - previous) in
    let first = clear_range-IsBitmap seen start (min end 65_536) h in
    elim (Bool-cases (leb 65_536 (next - previous))) [
      | inl whole ↦ rw whole (rw length-map h)
      | inr part ↦ rw part (elim (Bool-cases (ltb 65_536 end)) [
        | inl wraps ↦ rw wraps (clear_range-IsBitmap _ 0 (end - 65_536) first)
        | inr fits ↦ rw fits first
      ])
    ]

bit_of-cleared : (seen : List ℕ) (q : ℕ) → bit_of (map (λ _. 0) seen) q ≡ false
unfolding bit_of
bit_of-cleared seen q = rw (get_or-zeros seen (q / 64)) (bit_at-zero (q % 64))

-- After the window moves from `previous` to `next`, a sequence of the new window has its old bit
-- if it lay at or below `previous`, and none if it entered.
pub bit_of-advance_window :
    (seen : List ℕ) (previous next s : ℕ)
    → IsBitmap seen
    → previous < next
    → s ≤ next
    → next < s + packet_tracker_window
    → bit_of (advance_window seen previous next) (s % packet_tracker_window)
      ≡ (leb s previous && bit_of seen (s % packet_tracker_window))
unfolding advance_window
bit_of-advance_window seen previous next s h lt le near =
    let start = (previous + 1) % 65_536 in
    let end = start + (next - previous) in
    let first = clear_range seen start (min end 65_536) in
    let first_ok = clear_range-IsBitmap seen start (min end 65_536) h in
    ground (
      arith,
      bit_of-cleared seen (s % 65_536),
      bit_of-clear_range seen start (min end 65_536) (s % 65_536) h,
      bit_of-clear_range first 0 (end - 65_536) (s % 65_536) first_ok,
    )
