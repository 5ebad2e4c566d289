-- ===== src/Udp/Tracker/Accounting.antt =====
-- The packet tracker's counts over whole runs of packets.
use xfr.Prelude.{
  ℕ, zero, suc, ◌+◌, ◌%◌, ◌≤◌, ◌<◌, ◌≡◌, ◌∙◌, refl, sym, ap, inl, inr, true, false, Option, none,
  some, List, [], ◌∷◌, length, replicate, length-replicate, get_or, arith, ltb, Bool-cases,
}
use xfr.Prelude.Words.{u64_max}
use xfr.Prelude.Bits.{bit_at-zero}
use xfr.Prelude.Counting.{contains, AllBelow}
use xfr.Udp.Tracker
use xfr.Udp.Tracker.{
  PacketTracker, packet_tracker_window, jump, abs_diff, record_unique, record_tracked,
  record_packet, record_straggler, is_set, record_at, below_highest,
}
use xfr.Udp.Tracker.Bitmap.{bit_of, is_set-bit_of}
use xfr.Udp.Tracker.Spec.{Ledger, empty, span, admit, admit_at, corroborate, observe, Refines}
use xfr.Udp.Tracker.Refinement.{record_tracked-Agree, record_unique-Agree}

get_or-replicate : (n i : ℕ) → get_or (replicate {A = ℕ} n 0) i 0 ≡ 0
get_or-replicate zero i = refl
get_or-replicate (suc n) zero = refl
get_or-replicate (suc n) (suc i) = get_or-replicate n i

new-Refines : Refines Tracker.new empty
unfolding Tracker.new bit_of
new-Refines = record {
  same_highest = refl;
  same_held = refl;
  received_counts = refl;
  lost_counts = omega arith;
  late_counts = refl;
  late_accepted = omega arith;
  distinct = tt;
  below = tt;
  fits = omega arith;
  held_fits = tt;
  sized = length-replicate {A = ℕ} 1024 0;
  window = λ s _. rw (get_or-replicate 1024) (bit_at-zero _);
}

-- The receive loop's calls, packet by packet.
unfoldable pub record_all : PacketTracker → List ℕ → PacketTracker
record_all t [] = t
record_all t (s ∷ rest) = record_all (record_packet t s) rest

unfoldable pub observe_all : Ledger → List ℕ → Ledger
observe_all l [] = l
observe_all l (s ∷ rest) = observe_all (observe l s).0 rest

record_all-Refines :
    (t : PacketTracker) (l : Ledger) (packets : List ℕ)
    → Refines t l
    → AllBelow u64_max packets
    → Refines (record_all t packets) (observe_all l packets)
unfolding record_all observe_all record_packet
record_all-Refines t l [] r fits = r
record_all-Refines t l (s ∷ rest) r fits =
    record_all-Refines (record_unique t s).0 (observe l s).0 rest
      (record_unique-Agree t l s r fits.0).0 fits.1

-- The bitmap tracker implements the ledger of accepted sequences: after any packets with sequences
-- below 2^64 - 1, in any order and with any repetition, its counters and its bitmap are those of
-- the ledger that observed the same packets.
pub record_all-Refines-new :
    (packets : List ℕ)
    → AllBelow u64_max packets
    → Refines (record_all Tracker.new packets) (observe_all empty packets)
record_all-Refines-new packets fits = record_all-Refines Tracker.new empty packets new-Refines fits

-- After any such packets every sequence up to the highest one is counted exactly once, as received
-- or as lost.
pub received-lost :
    (packets : List ℕ)
    → AllBelow u64_max packets
    → let t = record_all Tracker.new packets in t.received + t.lost ≡ span t.highest_seen
received-lost packets fits =
    let r = record_all-Refines-new packets fits in
    rw r.same_highest (omega (arith, r.received_counts, r.lost_counts))

contains-lt : (n a : ℕ) (xs : List ℕ) → AllBelow n xs → contains xs a ≡ true → a < n
contains-lt n a [] h c = cc
contains-lt n a (x ∷ xs) h c = ground (arith, contains-lt n a xs h.1)

record_at-contained :
    (o : Option ℕ) (t : PacketTracker) (l : Ledger) (s : ℕ)
    → Refines t l
    → l.highest ≡ o
    → contains l.accepted s ≡ true
    → (jump o s ≡ 0) × (record_at o t s ≡ (t, false))
unfolding record_at jump
record_at-contained none t l s r top known =
    let below : AllBelow 0 l.accepted = rw top at r.below in
    absurd (omega (arith, contains-lt 0 s l.accepted below known))
record_at-contained (some h) t l s r top known =
    let below : AllBelow (suc h) l.accepted = rw top at r.below in
    let under : s ≤ h = omega (arith, contains-lt (suc h) s l.accepted below known) in
    (
      omega arith,
      ground (
        arith,
        is_set-bit_of t.seen (s % packet_tracker_window),
        λ (near : h < s + packet_tracker_window). r.window s (rw top (under, near)),
      ),
    )

-- A sequence of the ledger is rejected, and nothing changes.
record_unique-contained :
    (t : PacketTracker) (l : Ledger) (s : ℕ)
    → Refines t l
    → contains l.accepted s ≡ true
    → record_unique t s ≡ (t, false)
unfolding record_unique record_tracked
record_unique-contained t l s r known =
    let (no_jump, rejected) =
      record_at-contained t.highest_seen t l s r (sym r.same_highest) known in
    rw (no_jump, rejected) refl

admit-contains :
    (o : Option ℕ) (l : Ledger) (s : ℕ)
    → (admit_at o l s).1 ≡ true
    → contains (admit_at o l s).0.accepted s ≡ true
unfolding admit_at
admit-contains none l s h = ground arith
admit-contains (some k) l s h = ground arith

corroborate-contains :
    (o : Option ℕ) (l : Ledger) (s : ℕ)
    → (corroborate o l s).1 ≡ true
    → contains (corroborate o l s).0.accepted s ≡ true
unfolding corroborate admit
corroborate-contains none l s h = cc
corroborate-contains (some k) l s h = elim (Bool-cases (ltb (abs_diff k s) packet_tracker_window)) [
  | inl near ↦ rw near (admit-contains _ _ s (rw near at h))
  | inr far ↦ cc (rw far at h)
]

observe-contains :
    (l : Ledger) (s : ℕ) → (observe l s).1 ≡ true → contains (observe l s).0.accepted s ≡ true
unfolding observe admit
observe-contains l s h = elim (Bool-cases (ltb packet_tracker_window (jump l.highest s))) [
  | inl far ↦ rw far (corroborate-contains l.held l s (rw far at h))
  | inr near ↦ rw near (admit-contains l.highest l s (rw near at h))
]

-- A repeat changes nothing: once a sequence has been accepted, in any run, the same sequence right
-- after it is rejected and leaves the whole state as it was.
pub record_unique-duplicate :
    (packets : List ℕ) (s : ℕ)
    → AllBelow u64_max packets
    → s < u64_max
    → (record_unique (record_all Tracker.new packets) s).1 ≡ true
    → record_unique (record_unique (record_all Tracker.new packets) s).0 s
      ≡ ((record_unique (record_all Tracker.new packets) s).0, false)
record_unique-duplicate packets s fits small accepted =
    let t = record_all Tracker.new packets in
    let l = observe_all empty packets in
    let (r, same) = record_unique-Agree t l s (record_all-Refines-new packets fits) small in
    record_unique-contained (record_unique t s).0 (observe l s).0 s r
      (observe-contains l s (sym same ∙ accepted))

admit-below :
    (l : Ledger) (h s : ℕ)
    → l.highest ≡ some h
    → s < h
    → ((admit l s).0.highest ≡ l.highest) × (length l.accepted ≤ length (admit l s).0.accepted)
unfolding admit admit_at
admit-below l h s top lt = rw top (ground arith, ground arith)

straggler_at :
    (o : Option ℕ) (t : PacketTracker) (l : Ledger) (s : ℕ)
    → Refines t l
    → s < u64_max
    → l.highest ≡ o
    → below_highest o s ≡ true
    → let t' = (record_tracked t s).0 in
      (t'.highest_seen ≡ t.highest_seen)
      × (t'.received + t'.lost ≡ t.received + t.lost)
      × (t'.lost ≤ t.lost)
unfolding below_highest
straggler_at none t l s r small top h = cc
straggler_at (some k) t l s r small top h =
    let r' = (record_tracked-Agree t l s r small).0 in
    let (same, more) = admit-below l k s top (ground arith) in
    let total : span (admit l s).0.highest ≡ span l.highest = ap span same in
    (
      r'.same_highest ∙ same ∙ sym r.same_highest,
      omega (arith, r.received_counts, r.lost_counts, r'.received_counts, r'.lost_counts, total),
      omega (arith, r.lost_counts, r'.lost_counts, total, more),
    )

-- A datagram that arrives after the test ended can only fill a gap: in any run, it leaves the
-- highest sequence and the total of received and lost as they were, and never adds to the lost.
pub record_straggler_repairs :
    (packets : List ℕ) (s : ℕ)
    → AllBelow u64_max packets
    → s < u64_max
    → let t = record_all Tracker.new packets in
      let t' = (record_straggler t s).0 in
      (t'.highest_seen ≡ t.highest_seen)
      × (t'.received + t'.lost ≡ t.received + t.lost)
      × (t'.lost ≤ t.lost)
unfolding record_straggler
record_straggler_repairs packets s fits small =
    let t = record_all Tracker.new packets in
    let l = observe_all empty packets in
    let r = record_all-Refines-new packets fits in
    elim (Bool-cases (below_highest t.highest_seen s)) [
      | inl under ↦ rw under (straggler_at t.highest_seen t l s r small (sym r.same_highest) under)
      | inr above ↦ rw above (refl, refl, omega arith)
    ]
