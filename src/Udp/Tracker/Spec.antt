-- ===== src/Udp/Tracker/Spec.antt =====
-- The abstract view of the packet tracker, with no bitmap and no counters: a ledger of the sequences
-- accepted so far. The counts are read off the ledger.
use xfr.Prelude.{
  ℕ, suc, ◌+◌, ◌-◌, ◌%◌, ◌≤◌, ◌<◌, ◌≡◌, Bool, true, false, ◌||◌, Option, none, some, List, [], ◌∷◌,
  length, ltb, leb, if◌then◌else◌,
}
use xfr.Prelude.Words.{u64_max}
use xfr.Prelude.Counting.{contains, IsDistinct, AllBelow}
use xfr.Udp.Tracker.{PacketTracker, packet_tracker_window, jump, abs_diff}
use xfr.Udp.Tracker.Bitmap.{bit_of, IsBitmap}

pub record Ledger : Type 0 where
  pub accepted : List ℕ
  pub highest : Option ℕ
  pub held : Option ℕ
  pub late : ℕ

abbrev pub empty : Ledger
empty = record { accepted = []; highest = none; held = none; late = 0 }

-- Sequence positions opened so far: 0 to the highest one.
abbrev pub span : Option ℕ → ℕ
span none = 0
span (some h) = suc h

-- A new sequence extends the span; a late one is accepted while it is in the window and missing.
unfoldable pub admit_at : Option ℕ → Ledger → ℕ → Ledger × Bool
admit_at none l s = (record l { accepted = s ∷ l.accepted; highest = some s }, true)
admit_at (some h) l s =
    if ltb h s
    then (record l { accepted = s ∷ l.accepted; highest = some s }, true)
    else if leb packet_tracker_window (h - s) || contains l.accepted s
    then (l, false)
    else (record l { accepted = s ∷ l.accepted; late = l.late + 1 }, true)

unfoldable pub admit : Ledger → ℕ → Ledger × Bool
admit l s = admit_at l.highest l s

-- A jump past the window is held until a second one lands near it.
unfoldable pub corroborate : Option ℕ → Ledger → ℕ → Ledger × Bool
corroborate none l s = (record l { held = some s }, false)
corroborate (some k) l s =
    if ltb (abs_diff k s) packet_tracker_window
    then admit (admit (record l { held = none }) k).0 s
    else (record l { held = some s }, false)

unfoldable pub observe : Ledger → ℕ → Ledger × Bool
observe l s =
    if ltb packet_tracker_window (jump l.highest s) then corroborate l.held l s else admit l s

-- The sequences whose bits the bitmap holds.
abbrev pub InWindow : Option ℕ → ℕ → Type 0
InWindow none s = Unit
InWindow (some h) s = (s ≤ h) × (h < s + packet_tracker_window)

abbrev pub HeldFits : Option ℕ → Type 0
HeldFits none = Unit
HeldFits (some k) = k < u64_max

-- The tracker `t` stands for the ledger `l`.
pub record Refines (t : PacketTracker) (l : Ledger) : Type 0 where
  pub same_highest : t.highest_seen ≡ l.highest
  pub same_held : t.unconfirmed_jump ≡ l.held
  pub received_counts : t.received ≡ length l.accepted
  pub lost_counts : t.lost + length l.accepted ≡ span l.highest
  pub late_counts : t.out_of_order ≡ l.late
  pub late_accepted : l.late ≤ length l.accepted
  pub distinct : IsDistinct l.accepted
  pub below : AllBelow (span l.highest) l.accepted
  pub fits : span l.highest ≤ u64_max
  pub held_fits : HeldFits l.held
  pub sized : IsBitmap t.seen
  pub window :
      (s : ℕ)
      → InWindow l.highest s
      → bit_of t.seen (s % packet_tracker_window) ≡ contains l.accepted s
