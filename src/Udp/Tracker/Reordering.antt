-- ===== src/Udp/Tracker/Reordering.antt =====
-- The packet tracker under reordering inside one window.
use xfr.Prelude.{
  ℕ, ◌+◌, ◌≤◌, ◌<◌, ◌≡◌, refl, ap, false, Option, none, some, List, [], ◌∷◌, length, arith, ltb,
}
use xfr.Prelude.Words.{u64_max}
use xfr.Prelude.Counting.{contains, IsDistinct, AllBelow, AllBelow-mono}
use xfr.Udp.Tracker
use xfr.Udp.Tracker.{packet_tracker_window, jump}
use xfr.Udp.Tracker.Spec.{Ledger, empty, span, admit, admit_at, observe}
use xfr.Udp.Tracker.Accounting.{record_all, observe_all, record_all-Refines-new}

-- None of `xs` is in the ledger yet.
abbrev Fresh : List ℕ → List ℕ → Type 0
Fresh accepted [] = Unit
Fresh accepted (x ∷ xs) = (contains accepted x ≡ false) × Fresh accepted xs

Fresh-cons :
    (s : ℕ) (accepted xs : List ℕ)
    → contains xs s ≡ false
    → Fresh accepted xs
    → Fresh (s ∷ accepted) xs
Fresh-cons s accepted [] absent f = tt
Fresh-cons s accepted (x ∷ xs) absent f =
    (ground (arith, f.0), Fresh-cons s accepted xs (ground arith) f.1)

Fresh-empty : (xs : List ℕ) → Fresh [] xs
Fresh-empty [] = tt
Fresh-empty (x ∷ xs) = (refl, Fresh-empty xs)

observe_at-fresh :
    (o : Option ℕ) (l : Ledger) (n s : ℕ)
    → n ≤ packet_tracker_window
    → s < n
    → span o ≤ n
    → contains l.accepted s ≡ false
    → l.highest ≡ o
    → (jump o s ≤ packet_tracker_window)
      × ((admit_at o l s).0.accepted ≡ s ∷ l.accepted)
      × (span (admit_at o l s).0.highest ≤ n)
unfolding admit_at jump
observe_at-fresh none l n s w lt top absent same = (omega arith, refl, lt)
observe_at-fresh (some h) l n s w lt top absent same =
    (omega arith, ground arith, ground (arith, ap span same))

observe-fresh :
    (l : Ledger) (n s : ℕ)
    → n ≤ packet_tracker_window
    → s < n
    → span l.highest ≤ n
    → contains l.accepted s ≡ false
    → ((observe l s).0.accepted ≡ s ∷ l.accepted) × (span (observe l s).0.highest ≤ n)
unfolding observe admit
observe-fresh l n s w lt top absent =
    let (near, taken, below) = observe_at-fresh l.highest l n s w lt top absent refl in
    let e : ltb packet_tracker_window (jump l.highest s) ≡ false = ground arith in
    rw e (taken, below)

observe_all-Fresh :
    (l : Ledger) (n : ℕ) (xs : List ℕ)
    → n ≤ packet_tracker_window
    → AllBelow n xs
    → IsDistinct xs
    → span l.highest ≤ n
    → Fresh l.accepted xs
    → (length (observe_all l xs).accepted ≡ length l.accepted + length xs)
      × (span (observe_all l xs).highest ≤ n)
unfolding observe_all
observe_all-Fresh l n [] w b d top f = (omega arith, top)
observe_all-Fresh l n (s ∷ xs) w b d top f =
    let (taken, below) = observe-fresh l n s w b.0 top f.0 in
    let fresh : Fresh (observe l s).0.accepted xs = rw taken (Fresh-cons s l.accepted xs d.0 f.1) in
    let (counted, top') = observe_all-Fresh (observe l s).0 n xs w b.1 d.1 below fresh in
    (omega (arith, counted, ap length taken), top')

-- Reordering alone is never reported as loss: if the packets 0 to n - 1 of a run of at most one
-- window all arrive once, in any order, then n are received and none is lost.
pub reordering_lossless :
    (n : ℕ) (packets : List ℕ)
    → n ≤ packet_tracker_window
    → AllBelow n packets
    → IsDistinct packets
    → length packets ≡ n
    → let t = record_all Tracker.new packets in (t.received ≡ n) × (t.lost ≡ 0)
reordering_lossless n packets w below distinct all =
    let fits = AllBelow-mono n u64_max packets (omega arith) below in
    let r = record_all-Refines-new packets fits in
    let (counted, top) =
      observe_all-Fresh empty n packets w below distinct (omega arith) (Fresh-empty packets) in
    (omega (arith, r.received_counts, counted), omega (arith, r.lost_counts, counted, top))
