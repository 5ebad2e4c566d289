-- ===== src/Udp/Tracker.antt =====
-- src/udp.rs, `PacketTracker`: the receiver's loss, reordering and duplicate accounting over a
-- sliding bitmap of 65,536 sequence positions. Sequences are `u64`; the bitmap is 1,024 words.
-- A read past the end of the words gives 0 here and a write changes nothing, where the source's
-- boxed slice would panic.
pub mod Bitmap
pub mod Spec
pub mod Refinement
pub mod Accounting
pub mod Strays
pub mod Reordering
mod Examples
use Prim.Native.Nat.{bit_and, bit_or}
use xfr.Prelude.{
  ℕ, ◌+◌, ◌-◌, ◌*◌, ◌/◌, ◌%◌, ◌^◌, min, Bool, true, false, not, ◌&&◌, ◌||◌, Option, none, some,
  List, map, replicate, get_or, set, fill_range, ltb, leb, ◌==◌, if◌then◌else◌,
}
use xfr.Prelude.Words.{u64_max, saturating_add, complement, shl}

abbrev pub packet_tracker_window : ℕ
packet_tracker_window = 65_536

abbrev pub packet_tracker_word_bits : ℕ
packet_tracker_word_bits = 64

pub record PacketTracker : Type 0 where
  pub received : ℕ
  pub lost : ℕ
  pub out_of_order : ℕ
  pub highest_seen : Option ℕ
  pub unconfirmed_jump : Option ℕ
  pub seen : List ℕ

-- `window / word_bits` words
abbrev pub word_count : ℕ
word_count = 1024

unfoldable pub new : PacketTracker
new = record {
  received = 0;
  lost = 0;
  out_of_order = 0;
  highest_seen = none;
  unconfirmed_jump = none;
  seen = replicate word_count 0;
}

unfoldable pub first_mask : ℕ → ℕ
first_mask start = shl u64_max (start % packet_tracker_word_bits)

unfoldable pub last_mask : ℕ → ℕ
last_mask end_bit = if end_bit == 0 then u64_max else 2 ^ end_bit - 1

-- seen[i] &= !mask
unfoldable pub clear_mask : List ℕ → ℕ → ℕ → List ℕ
clear_mask seen i mask = set seen i (bit_and (get_or seen i 0) (complement mask))

unfoldable pub clear_range : List ℕ → ℕ → ℕ → List ℕ
clear_range seen start end =
    let first = start / packet_tracker_word_bits in
    let last = (end - 1) / packet_tracker_word_bits in
    let head_mask = first_mask start in
    let tail_mask = last_mask (end % packet_tracker_word_bits) in
    if start == end
    then seen
    else if first == last
    then clear_mask seen first (bit_and head_mask tail_mask)
    else clear_mask (fill_range (clear_mask seen first head_mask) (first + 1) last 0) last tail_mask

unfoldable pub advance_window : List ℕ → ℕ → ℕ → List ℕ
advance_window seen previous next =
    let distance = next - previous in
    let start = (previous + 1) % packet_tracker_window in
    let end = start + distance in
    let cleared = clear_range seen start (min end packet_tracker_window) in
    if leb packet_tracker_window distance
    then map (λ _. 0) seen
    else if ltb packet_tracker_window end
    then clear_range cleared 0 (end - packet_tracker_window)
    else cleared

-- the single-bit mask of a bitmap index, and `seen[word] & bit != 0`
abbrev pub bit_mask : ℕ → ℕ
bit_mask index = 2 ^ (index % packet_tracker_word_bits)

unfoldable pub is_set : List ℕ → ℕ → Bool
is_set seen index =
    not (bit_and (get_or seen (index / packet_tracker_word_bits) 0) (bit_mask index) == 0)

-- seen[word] |= bit
unfoldable pub set_bit : List ℕ → ℕ → List ℕ
set_bit seen index =
    let word = index / packet_tracker_word_bits in
    set seen word (bit_or (get_or seen word 0) (bit_mask index))

-- `self.seen[word] |= bit; self.received += 1; true`, after the match
unfoldable pub accept : PacketTracker → ℕ → PacketTracker × Bool
accept t index =
    (record t { seen = set_bit t.seen index; received = saturating_add t.received 1 }, true)

-- the match on `highest_seen`
unfoldable pub record_at : Option ℕ → PacketTracker → ℕ → PacketTracker × Bool
unfolding accept
record_at none t sequence =
    accept (record t { lost = sequence; highest_seen = some sequence })
      (sequence % packet_tracker_window)
record_at (some highest) t sequence =
    let index = sequence % packet_tracker_window in
    if ltb highest sequence
    then accept
        (record t {
          seen = advance_window t.seen highest sequence;
          lost = saturating_add t.lost (sequence - highest - 1);
          highest_seen = some sequence;
        })
        index
    else if leb packet_tracker_window (highest - sequence) || is_set t.seen index
    then (t, false)
    else accept (record t { lost = t.lost - 1; out_of_order = saturating_add t.out_of_order 1 })
        index

unfoldable pub record_tracked : PacketTracker → ℕ → PacketTracker × Bool
record_tracked t sequence = record_at t.highest_seen t sequence

-- `u64::abs_diff`
abbrev pub abs_diff : ℕ → ℕ → ℕ
abs_diff a b = (a - b) + (b - a)

-- the match on `unconfirmed_jump.take()`
unfoldable pub confirm_held : Option ℕ → PacketTracker → ℕ → PacketTracker × Bool
confirm_held none t sequence = (record t { unconfirmed_jump = some sequence }, false)
confirm_held (some held) t sequence =
    if ltb (abs_diff held sequence) packet_tracker_window
    then ((record_tracked (record t { unconfirmed_jump = none }) held).0, true)
    else (record t { unconfirmed_jump = some sequence }, false)

unfoldable pub confirm_jump : PacketTracker → ℕ → PacketTracker × Bool
unfolding confirm_held
confirm_jump t sequence = confirm_held t.unconfirmed_jump t sequence

-- how far past the high-water mark a sequence lies
unfoldable pub jump : Option ℕ → ℕ → ℕ
jump none sequence = saturating_add sequence 1
jump (some highest) sequence = sequence - highest

unfoldable pub record_unique : PacketTracker → ℕ → PacketTracker × Bool
unfolding jump
record_unique t sequence =
    let (confirmed, agrees) = confirm_jump t sequence in
    if ltb packet_tracker_window (jump t.highest_seen sequence)
    then (if agrees then record_tracked confirmed sequence else (confirmed, false))
    else record_tracked t sequence

-- `PacketTracker::record`
unfoldable pub record_packet : PacketTracker → ℕ → PacketTracker
record_packet t sequence = (record_unique t sequence).0

-- `is_some_and(|highest| sequence < highest)`
unfoldable pub below_highest : Option ℕ → ℕ → Bool
below_highest none sequence = false
below_highest (some highest) sequence = ltb sequence highest

unfoldable pub record_straggler : PacketTracker → ℕ → PacketTracker × Bool
unfolding below_highest
record_straggler t sequence =
    if below_highest t.highest_seen sequence then record_tracked t sequence else (t, false)

-- `PacketTracker::stats`, without the floating-point percentage
unfoldable pub stats : PacketTracker → ℕ × ℕ
stats t = (t.lost, t.out_of_order)
