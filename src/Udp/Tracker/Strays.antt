-- ===== src/Udp/Tracker/Strays.antt =====
-- The packet tracker and jumps past its window: stray packets and outages.
use xfr.Prelude.{
  ℕ, suc, ◌+◌, ◌-◌, ◌≤◌, ◌<◌, ◌≡◌, ◌∙◌, refl, ap, true, false, Option, none, some, List, arith, ltb,
  lt→ltb, min,
}
use xfr.Prelude.Words.{u64_max}
use xfr.Udp.Tracker
use xfr.Udp.Tracker.{
  PacketTracker, packet_tracker_window, jump, abs_diff, record_at, record_tracked, confirm_held,
  confirm_jump, record_unique,
}
use xfr.Prelude.Counting.{AllBelow}
use xfr.Udp.Tracker.Spec.{span}
use xfr.Udp.Tracker.Accounting.{record_all, received-lost}

-- The held packet does not speak for `s`.
abbrev pub Uncorroborated : Option ℕ → ℕ → Type 0
Uncorroborated none s = Unit
Uncorroborated (some held) s = packet_tracker_window ≤ abs_diff held s

confirm_held-fresh :
    (o : Option ℕ) (t : PacketTracker) (s : ℕ)
    → Uncorroborated o s
    → confirm_held o t s ≡ (record t { unconfirmed_jump = some s }, false)
unfolding confirm_held
confirm_held-fresh none t s h = refl
confirm_held-fresh (some held) t s h = ground arith

-- A far packet that the held one does not corroborate is held in its place and rejected.
record_unique-far :
    (t : PacketTracker) (s : ℕ)
    → packet_tracker_window < jump t.highest_seen s
    → Uncorroborated t.unconfirmed_jump s
    → record_unique t s ≡ (record t { unconfirmed_jump = some s }, false)
unfolding record_unique confirm_jump
record_unique-far t s far alone =
    rw (lt→ltb _ _ far, confirm_held-fresh t.unconfirmed_jump t s alone) refl

record_at-held :
    (o : Option ℕ) (t : PacketTracker) (x : Option ℕ) (q : ℕ)
    → record_at o (record t { unconfirmed_jump = x }) q
      ≡ (record (record_at o t q).0 { unconfirmed_jump = x }, (record_at o t q).1)
unfolding record_at
record_at-held none t x q = refl
record_at-held (some h) t x q = ground arith

record_unique-near :
    (t : PacketTracker) (q : ℕ)
    → jump t.highest_seen q ≤ packet_tracker_window
    → record_unique t q ≡ record_at t.highest_seen t q
unfolding record_unique record_tracked
record_unique-near t q near =
    let e : ltb packet_tracker_window (jump t.highest_seen q) ≡ false = ground arith in rw e refl

-- One stray packet is harmless: after a far packet that nothing corroborates, a packet within
-- reach of the window gets the verdict and the effect that it would have had without the stray,
-- and only the held sequence differs.
pub stray_harmless :
    (t : PacketTracker) (s q : ℕ)
    → packet_tracker_window < jump t.highest_seen s
    → Uncorroborated t.unconfirmed_jump s
    → jump t.highest_seen q ≤ packet_tracker_window
    → record_unique (record_unique t s).0 q
      ≡ (record (record_unique t q).0 { unconfirmed_jump = some s }, (record_unique t q).1)
stray_harmless t s q far alone near =
    let held : PacketTracker = record t { unconfirmed_jump = some s } in
    let step : record_unique held q ≡ record_at t.highest_seen held q =
      record_unique-near held q near in
    rw (record_unique-far t s far alone, step, record_at-held, record_unique-near t q near) refl

accepts_ahead :
    (t : PacketTracker) (h s : ℕ)
    → t.highest_seen ≡ some h
    → h < s
    → let t' = (record_tracked t s).0 in
      ((record_tracked t s).1 ≡ true)
      × (t'.highest_seen ≡ some s)
      × (t'.received ≡ min (t.received + 1) u64_max)
      × (t'.lost ≡ min (t.lost + (s - h - 1)) u64_max)
unfolding record_tracked record_at
accepts_ahead t h s top lt = simp (top, lt→ltb h s lt) (refl, refl, refl, refl)

-- A far packet near the held one: the held packet is replayed, then the new one is recorded.
record_unique-corroborated :
    (t : PacketTracker) (s s' : ℕ)
    → packet_tracker_window < jump t.highest_seen s'
    → abs_diff s s' < packet_tracker_window
    → record_unique (record t { unconfirmed_jump = some s }) s'
      ≡ record_tracked (record_tracked (record t { unconfirmed_jump = none }) s).0 s'
unfolding record_unique confirm_jump confirm_held
record_unique-corroborated t s s' far near = rw (lt→ltb _ _ far, lt→ltb _ _ near) refl

-- An outage is confirmed by the second packet after it. In any run of sequences below the last
-- `u64`, with highest sequence h, when the next packets are s, more than a window past h and with
-- nothing held near it, and s', ahead of s by less than a window and below the last `u64`, the first
-- is rejected and only held, with nothing counted, and with the second both are received and both
-- gaps are lost in full.
pub outage_confirmed :
    (packets : List ℕ) (h s s' : ℕ)
    → AllBelow u64_max packets
    → (record_all Tracker.new packets).highest_seen ≡ some h
    → h + packet_tracker_window < s
    → s < s'
    → s' < s + packet_tracker_window
    → s' < u64_max
    → Uncorroborated (record_all Tracker.new packets).unconfirmed_jump s
    → let t = record_all Tracker.new packets in
      let (held, first) = record_unique t s in
      let (t', accepted) = record_unique held s' in
      (held ≡ record t { unconfirmed_jump = some s })
      × (first ≡ false)
      × (accepted ≡ true)
      × (t'.highest_seen ≡ some s')
      × (t'.received ≡ t.received + 2)
      × (t'.lost ≡ t.lost + (s - h - 1) + (s' - s - 1))
unfolding jump
outage_confirmed packets h s s' fits top far lt near small alone =
    let t = record_all Tracker.new packets in
    let fresh : PacketTracker = record t { unconfirmed_jump = none } in
    let (_, top1, received1, lost1) = accepts_ahead fresh h s top (omega arith) in
    let (yes2, top2, received2, lost2) = accepts_ahead (record_tracked fresh s).0 s s' top1 lt in
    let room : t.received + t.lost ≡ suc h = received-lost packets fits ∙ ap span top in
    let far1 : packet_tracker_window < jump t.highest_seen s = simp top (omega arith) in
    let far2 : packet_tracker_window < jump t.highest_seen s' = simp top (omega arith) in
    rw (record_unique-far t s far1 alone, record_unique-corroborated t s s' far2 (omega arith))
      (refl, refl, yes2, top2, omega (arith, received1, received2), omega (arith, lost1, lost2))
