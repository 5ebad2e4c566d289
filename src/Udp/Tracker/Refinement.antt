-- ===== src/Udp/Tracker/Refinement.antt =====
-- The tracker against the ledger: one lemma for each way a sequence is taken in.
use xfr.Prelude.{
  ℕ, suc, ◌+◌, ◌-◌, ◌%◌, ◌≤◌, ◌<◌, ◌≡◌, ◌∙◌, refl, sym, subst, inl, inr, Bool, true, false, Option,
  none, some, ◌∷◌, length, arith, ltb, leb, if◌then◌else◌, Bool-cases,
}
use xfr.Prelude.Words.{u64_max, saturating_add}
use xfr.Prelude.Counting.{contains, AllBelow, AllBelow-mono, contains-AllBelow, pigeonhole}
use xfr.Udp.Tracker.{
  PacketTracker, packet_tracker_window, advance_window, is_set, set_bit, record_at, record_tracked,
  record_unique, jump, abs_diff, confirm_held, confirm_jump,
}
use xfr.Udp.Tracker.Bitmap.{
  is_set-bit_of, set_bit-IsBitmap, bit_of-set_bit, advance_window-IsBitmap, bit_of-advance_window,
}
use xfr.Udp.Tracker.Spec.{Ledger, admit, admit_at, observe, corroborate, HeldFits, Refines}

first-Refines :
    (t : PacketTracker) (l : Ledger) (s : ℕ)
    → Refines t l
    → l.highest ≡ none
    → s < u64_max
    → Refines (record_at none t s).0 (admit_at none l s).0
unfolding record_at admit_at
first-Refines t l s r top fits =
    let empty : AllBelow 0 l.accepted = rw top at r.below in
    let none_yet : length l.accepted ≡ 0 =
      omega (arith, pigeonhole 0 l.accepted r.distinct empty) in
    record {
      same_highest = refl;
      same_held = r.same_held;
      received_counts = omega (arith, r.received_counts);
      lost_counts = omega arith;
      late_counts = r.late_counts;
      late_accepted = omega (arith, r.late_accepted);
      distinct = (contains-AllBelow 0 s l.accepted empty (omega arith), r.distinct);
      below = (omega arith, AllBelow-mono 0 (suc s) l.accepted (omega arith) empty);
      fits = fits;
      held_fits = r.held_fits;
      sized = set_bit-IsBitmap t.seen (s % packet_tracker_window) r.sized;
      window = λ q h. ground (
        arith,
        bit_of-set_bit t.seen (s % packet_tracker_window) (q % packet_tracker_window) r.sized,
        contains-AllBelow 0 q l.accepted empty,
        r.window q (rw top tt),
      );
    }

-- A sequence past the highest one opens a gap.
module _ (t : PacketTracker) (l : Ledger) (h s : ℕ) (r : Refines t l) (top : l.highest ≡ some h)
    (fits : s < u64_max) (ahead : h < s) where
  ahead_tracker : PacketTracker
  ahead_tracker = record t {
    seen = set_bit (advance_window t.seen h s) (s % packet_tracker_window);
    lost = saturating_add t.lost (s - h - 1);
    highest_seen = some s;
    received = saturating_add t.received 1;
  }

  ahead_ledger : Ledger
  ahead_ledger = record l { accepted = s ∷ l.accepted; highest = some s }

  ahead_below : AllBelow (suc h) l.accepted
  ahead_below = rw top at r.below

  ahead_lost : t.lost + length l.accepted ≡ suc h
  ahead_lost = rw top at r.lost_counts

  ahead-Refines : Refines ahead_tracker ahead_ledger
  unfolding ahead_tracker ahead_ledger
  ahead-Refines = record {
    same_highest = refl;
    same_held = r.same_held;
    received_counts = omega (arith, r.received_counts, ahead_lost);
    lost_counts = omega (arith, ahead_lost);
    late_counts = r.late_counts;
    late_accepted = omega (arith, r.late_accepted);
    distinct = (contains-AllBelow (suc h) s l.accepted ahead_below ahead, r.distinct);
    below = (omega arith, AllBelow-mono (suc h) (suc s) l.accepted (omega arith) ahead_below);
    fits = fits;
    held_fits = r.held_fits;
    sized = set_bit-IsBitmap _ _ (advance_window-IsBitmap t.seen h s r.sized);
    window = λ q near. ground (
      arith,
      bit_of-set_bit (advance_window t.seen h s) (s % packet_tracker_window)
          (q % packet_tracker_window) (advance_window-IsBitmap t.seen h s r.sized),
      bit_of-advance_window t.seen h s q r.sized ahead near.0 near.1,
      contains-AllBelow (suc h) q l.accepted ahead_below,
      λ (old : q ≤ h). r.window q (rw top (old, omega arith)),
    );
  }

-- A late sequence that the window still holds as missing repairs its gap.
module _ (t : PacketTracker) (l : Ledger) (h s : ℕ) (r : Refines t l) (top : l.highest ≡ some h)
    (behind : s ≤ h) (near : h < s + packet_tracker_window)
    (missing : contains l.accepted s ≡ false) where
  late_tracker : PacketTracker
  late_tracker = record t {
    lost = t.lost - 1;
    out_of_order = saturating_add t.out_of_order 1;
    seen = set_bit t.seen (s % packet_tracker_window);
    received = saturating_add t.received 1;
  }

  late_ledger : Ledger
  late_ledger = record l { accepted = s ∷ l.accepted; late = l.late + 1 }

  late_below : AllBelow (suc h) (s ∷ l.accepted)
  late_below = (omega arith, rw top at r.below)

  -- the gap was counted, so the count of gaps is not zero
  late_room : suc (length l.accepted) ≤ suc h
  late_room = pigeonhole (suc h) (s ∷ l.accepted) (missing, r.distinct) late_below

  late_fits : suc h ≤ u64_max
  late_fits = rw top at r.fits

  late_lost : t.lost + length l.accepted ≡ suc h
  late_lost = rw top at r.lost_counts

  late-Refines : Refines late_tracker late_ledger
  unfolding late_tracker late_ledger
  late-Refines = record {
    same_highest = r.same_highest;
    same_held = r.same_held;
    received_counts = omega (arith, r.received_counts, late_room, late_fits);
    lost_counts = rw top (omega (arith, late_lost, late_room));
    late_counts = omega (arith, r.late_counts, r.late_accepted, late_room, late_fits);
    late_accepted = omega (arith, r.late_accepted);
    distinct = (missing, r.distinct);
    below = (rw top (omega arith), r.below);
    fits = r.fits;
    held_fits = r.held_fits;
    sized = set_bit-IsBitmap _ _ r.sized;
    window = λ q in_window.
        let inside : (q ≤ h) × (h < q + packet_tracker_window) = rw top at in_window in
        ground (
          arith,
          bit_of-set_bit t.seen (s % packet_tracker_window) (q % packet_tracker_window) r.sized,
          r.window q in_window,
        );
  }

-- One sequence: the new states agree and so do the verdicts.
abbrev pub Agree : PacketTracker × Bool → Ledger × Bool → Type 0
Agree (t, accepted) (l, admitted) = Refines t l × (accepted ≡ admitted)

record_at-Agree :
    (o : Option ℕ) (t : PacketTracker) (l : Ledger) (s : ℕ)
    → Refines t l
    → l.highest ≡ o
    → s < u64_max
    → Agree (record_at o t s) (admit_at o l s)
unfolding record_at admit_at
record_at-Agree none t l s r top fits = (first-Refines t l s r top fits, refl)
record_at-Agree (some h) t l s r top fits = elim (Bool-cases (ltb h s)) [
  | inl ahead ↦
      rw ahead
        (unfold ahead_tracker ahead_ledger in ahead-Refines t l h s r top fits (ground arith), refl)
  | inr behind ↦ rw behind (elim (Bool-cases (leb packet_tracker_window (h - s))) [
    | inl old ↦ rw old (r, refl)
    | inr near ↦
        let same : is_set t.seen (s % packet_tracker_window) ≡ contains l.accepted s =
          is_set-bit_of t.seen (s % packet_tracker_window)
          ∙ r.window s (rw top (ground arith, ground arith)) in
        rw (near, same)
          (elim (Bool-cases (contains l.accepted s)) [
            | inl seen ↦ rw seen (r, refl)
            | inr missing ↦ rw missing (
              unfold late_tracker late_ledger in
                  late-Refines t l h s r top (ground arith) (ground arith) missing,
              refl,
            )
          ])
  ])
]

pub record_tracked-Agree :
    (t : PacketTracker) (l : Ledger) (s : ℕ)
    → Refines t l
    → s < u64_max
    → Agree (record_tracked t s) (admit l s)
unfolding record_tracked admit
record_tracked-Agree t l s r fits =
    subst (λ o. Agree (record_at t.highest_seen t s) (admit_at o l s)) r.same_highest
      (record_at-Agree t.highest_seen t l s r (sym r.same_highest) fits)

hold-Refines :
    (x : Option ℕ) (t : PacketTracker) (l : Ledger)
    → HeldFits x
    → Refines t l
    → Refines (record t { unconfirmed_jump = x }) (record l { held = x })
hold-Refines x t l fits r = record {
  same_highest = r.same_highest;
  same_held = refl;
  received_counts = r.received_counts;
  lost_counts = r.lost_counts;
  late_counts = r.late_counts;
  late_accepted = r.late_accepted;
  distinct = r.distinct;
  below = r.below;
  fits = r.fits;
  held_fits = fits;
  sized = r.sized;
  window = r.window;
}

-- what `record_unique` does with the outcome of `confirm_jump`
abbrev after_confirm : ℕ → PacketTracker × Bool → PacketTracker × Bool
after_confirm s (confirmed, agrees) =
    if agrees then record_tracked confirmed s else (confirmed, false)

confirm_held-Agree :
    (o : Option ℕ) (t : PacketTracker) (l : Ledger) (s : ℕ)
    → Refines t l
    → HeldFits o
    → s < u64_max
    → Agree (after_confirm s (confirm_held o t s)) (corroborate o l s)
unfolding confirm_held corroborate
confirm_held-Agree none t l s r held fits = (hold-Refines (some s) t l fits r, refl)
confirm_held-Agree (some k) t l s r held fits =
    elim (Bool-cases (ltb (abs_diff k s) packet_tracker_window)) [
      | inl agrees ↦
          let dropped = hold-Refines none t l tt r in
          let replayed = record_tracked-Agree _ _ k dropped held in
          rw agrees (record_tracked-Agree _ _ s replayed.0 fits)
      | inr differs ↦ rw differs (hold-Refines (some s) t l fits r, refl)
    ]

-- Every packet, whatever its sequence below the last `u64`, leaves the tracker standing for the
-- ledger that observed it, with the ledger's verdict.
pub record_unique-Agree :
    (t : PacketTracker) (l : Ledger) (s : ℕ)
    → Refines t l
    → s < u64_max
    → Agree (record_unique t s) (observe l s)
unfolding record_unique confirm_jump observe
record_unique-Agree t l s r fits =
    elim (Bool-cases (ltb packet_tracker_window (jump t.highest_seen s))) [
      | inl far ↦
          let far' : ltb packet_tracker_window (jump l.highest s) ≡ true =
            subst (λ o. ltb packet_tracker_window (jump o s) ≡ true) r.same_highest far in
          rw (far, far')
            (subst (λ o. Agree (after_confirm s (confirm_held o t s)) (corroborate l.held l s))
              (sym r.same_held) (confirm_held-Agree l.held t l s r r.held_fits fits))
      | inr close ↦
          let close' : ltb packet_tracker_window (jump l.highest s) ≡ false =
            subst (λ o. ltb packet_tracker_window (jump o s) ≡ false) r.same_highest close in
          rw (close, close') (record_tracked-Agree t l s r fits)
    ]
