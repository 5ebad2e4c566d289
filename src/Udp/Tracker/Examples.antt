-- ===== src/Udp/Tracker/Examples.antt =====
-- Runs of the packet tracker, and its theorems at concrete packets.
use xfr.Prelude.{ℕ, ◌+◌, ◌-◌, ◌≡◌, refl, true, false, some, List, [], ◌∷◌, arith}
use xfr.Prelude.Words.{complement, shl}
use xfr.Udp.Tracker
use xfr.Udp.Tracker.{
  PacketTracker, advance_window, clear_range, first_mask, last_mask, clear_mask, is_set, set_bit,
  record_tracked, confirm_jump, record_unique, record_packet, record_straggler, record_at,
}
use xfr.Udp.Tracker.Spec.{empty, span, Refines}
use xfr.Udp.Tracker.Accounting.{record_all, observe_all, record_all-Refines-new, received-lost}
use xfr.Udp.Tracker.Strays.{stray_harmless, outage_confirmed}
use xfr.Udp.Tracker.Reordering.{reordering_lossless}

-- All that a run computes with, to be unfolded together.
tracker_code : Unit {0}
unfolding record_all record_packet record_unique record_tracked record_at confirm_jump Tracker.new
    advance_window clear_range clear_mask first_mask last_mask is_set set_bit complement shl
tracker_code = tt

-- A gap at 1 and 3, with 2 late.
abbrev gappy : List ℕ
gappy = 0 ∷ 4 ∷ 2 ∷ []

gappy_counts :
    ((record_all Tracker.new gappy).received ≡ 3) × ((record_all Tracker.new gappy).lost ≡ 2)
unfolding tracker_code
gappy_counts = (refl, refl)

record_all-Refines-new_example : Refines (record_all Tracker.new gappy) (observe_all empty gappy)
record_all-Refines-new_example = record_all-Refines-new gappy (omega arith)

received-lost_example :
    let t = record_all Tracker.new gappy in t.received + t.lost ≡ span t.highest_seen
received-lost_example = received-lost gappy (omega arith)

-- A spoofed packet far ahead of packet 5.
stray_harmless_example :
    record_unique (record_unique (record_all Tracker.new gappy) 9_000_000).0 5 ≡ (
      record (record_unique (record_all Tracker.new gappy) 5).0 {
        unconfirmed_jump = some 9_000_000;
      },
      (record_unique (record_all Tracker.new gappy) 5).1,
    )
unfolding tracker_code
stray_harmless_example =
    stray_harmless (record_all Tracker.new gappy) 9_000_000 5 (omega arith) tt (omega arith)

outage_confirmed_example :
    let t = record_all Tracker.new gappy in
    let (held, first) = record_unique t 100_000 in
    let (t', accepted) = record_unique held 100_002 in
    (held ≡ record t { unconfirmed_jump = some 100_000 })
    × (first ≡ false)
    × (accepted ≡ true)
    × (t'.highest_seen ≡ some 100_002)
    × (t'.received ≡ t.received + 2)
    × (t'.lost ≡ t.lost + (100_000 - 4 - 1) + (100_002 - 100_000 - 1))
unfolding tracker_code
outage_confirmed_example =
    outage_confirmed gappy 4 100_000 100_002 (omega arith) refl (omega arith) (omega arith)
      (omega arith) (omega arith) tt

abbrev shuffled : List ℕ
shuffled = 2 ∷ 0 ∷ 3 ∷ 1 ∷ []

reordering_lossless_example :
    let t = record_all Tracker.new shuffled in (t.received ≡ 4) × (t.lost ≡ 0)
reordering_lossless_example =
    reordering_lossless 4 shuffled (omega arith) (omega arith) (refl, (refl, (refl, (refl, tt))))
      refl
