-- ===== src/Udp/Feedback.antt =====
-- src/udp.rs, `store_udp_feedback`, `is_teardown_send_error`, and src/protocol.rs,
-- `UdpIntervalProgress`: the receiver's progress as the client keeps it, one slot a stream.
use xfr.Prelude.{
  ℕ, ◌+◌, ◌≤◌, ◌<◌, ◌≡◌, refl, ap, sym, subst, ◌∙◌, inl, inr, max, Bool, true, false, not, ◌&&◌,
  ◌||◌, Option, none, some, List, [], ◌∷◌, map, length, get_elem?, set, get_elem?-set_self,
  length-set, leb, ◌==◌, if◌then◌else◌, arith, Bool-cases,
}
use xfr.Prelude.Words.{u64_max, saturating_add}
use xfr.Udp.Wire.{UdpFeedbackPacket}

pub record UdpIntervalProgress : Type 0 where
  pub packets_received : ℕ  -- u64
  pub packets_lost : ℕ  -- u64

unfoldable pub is_at_least_as_fresh_as : UdpIntervalProgress → UdpIntervalProgress → Bool
is_at_least_as_fresh_as p previous =
    leb previous.packets_received p.packets_received
    && leb (saturating_add previous.packets_received previous.packets_lost)
        (saturating_add p.packets_received p.packets_lost)

abbrev pub to_progress : UdpFeedbackPacket → UdpIntervalProgress
to_progress p = record { packets_received = p.packets_received; packets_lost = p.packets_lost }

abbrev pub stored_in :
    List UdpIntervalProgress
    → ℕ
    → UdpIntervalProgress
    → Option UdpIntervalProgress
    → List UdpIntervalProgress × Bool
stored_in slots i next none = (slots, false)
stored_in slots i next (some slot) =
    if not (is_at_least_as_fresh_as next slot) then (slots, false) else (set slots i next, true)

unfoldable pub store_udp_feedback :
    List UdpIntervalProgress → ℕ → UdpFeedbackPacket → List UdpIntervalProgress × Bool
store_udp_feedback slots expected packet =
    if not (packet.stream_id == expected)
    then (slots, false)
    else stored_in slots expected (to_progress packet) (get_elem? slots expected)

abbrev pub send_teardown_grace : ℕ
send_teardown_grace = 250_000_000

-- cancelled, is_infinite, then the instants in nanoseconds
unfoldable pub is_teardown_send_error : Bool → Bool → ℕ → ℕ → Bool
is_teardown_send_error cancelled is_infinite now deadline =
    cancelled || (not is_infinite && leb deadline (now + send_teardown_grace))

-- Packets stored one after the other.
unfoldable pub store_all :
    List UdpIntervalProgress → ℕ → List UdpFeedbackPacket → List UdpIntervalProgress
store_all slots i [] = slots
store_all slots i (p ∷ ps) = store_all (store_udp_feedback slots i p).0 i ps

-- The receiver's counts over time: neither the packets received nor the expected total falls.
pub record IsHistory (history : ℕ → UdpIntervalProgress) : Type 0 where
  pub received_grows :
      (i j : ℕ) → i ≤ j → (history i).packets_received ≤ (history j).packets_received
  pub total_grows :
      (i j : ℕ)
      → i ≤ j
      → (history i).packets_received + (history i).packets_lost
        ≤ (history j).packets_received + (history j).packets_lost
  pub fits : (i : ℕ) → (history i).packets_received + (history i).packets_lost ≤ u64_max

-- The packet that reports a moment.
abbrev pub report : ℕ → (ℕ → UdpIntervalProgress) → ℕ → UdpFeedbackPacket
report stream history i = record {
  stream_id = stream;
  elapsed_ms = i;
  packets_received = (history i).packets_received;
  packets_lost = (history i).packets_lost;
}

abbrev pub latest : ℕ → List ℕ → ℕ
latest first [] = first
latest first (i ∷ arrivals) = latest (max first i) arrivals

-- an older report that is taken all the same says the same
same_progress :
    (p q : UdpIntervalProgress)
    → p.packets_received ≡ q.packets_received
    → p.packets_lost ≡ q.packets_lost
    → p ≡ q
same_progress p q r l i = record { packets_received = r i; packets_lost = l i }

fresh_or_older :
    (history : ℕ → UdpIntervalProgress) (at i : ℕ)
    → IsHistory history
    → is_at_least_as_fresh_as (history i) (history at) ≡ true
    → history i ≡ history (max at i)
unfolding is_at_least_as_fresh_as
fresh_or_older history at i h fresh = elim (Bool-cases (leb at i)) [
  | inl newer ↦ let e : max at i ≡ i = ground arith in ap history (sym e)
  | inr older ↦
      let le : i ≤ at = ground arith in
      let e : max at i ≡ at = omega arith in
      let back : ((history at).packets_received ≤ (history i).packets_received)
          × ((history at).packets_received + (history at).packets_lost
              ≤ (history i).packets_received + (history i).packets_lost) =
        ground (arith, h.fits i, h.fits at) in
      same_progress (history i) (history at) (omega (arith, h.received_grows i at le, back))
        (omega (arith, h.received_grows i at le, h.total_grows i at le, back))
      ∙ ap history (sym e)
]

stale_is_older :
    (history : ℕ → UdpIntervalProgress) (at i : ℕ)
    → IsHistory history
    → is_at_least_as_fresh_as (history i) (history at) ≡ false
    → max at i ≡ at
unfolding is_at_least_as_fresh_as
stale_is_older history at i h stale = elim (Bool-cases (leb at i)) [
  | inl newer ↦
      let le : at ≤ i = ground arith in
      absurd (ground (arith, h.received_grows at i le, h.total_grows at i le, h.fits i, h.fits at))
  | inr older ↦ ground arith
]

-- the packet of the stream's own socket
own_stream :
    (slots : List UdpIntervalProgress) (stream : ℕ) (history : ℕ → UdpIntervalProgress) (i : ℕ)
    → store_udp_feedback slots stream (report stream history i)
      ≡ stored_in slots stream (history i) (get_elem? slots stream)
unfolding store_udp_feedback
own_stream slots stream history i =
    let same : not (stream == stream) ≡ false = ground arith in
    ap
      (λ b.
        if b then (slots, false) else stored_in slots stream (history i) (get_elem? slots stream))
      same

length-store :
    (slots : List UdpIntervalProgress) (stream : ℕ) (next : UdpIntervalProgress)
    (o : Option UdpIntervalProgress)
    → length (stored_in slots stream next o).0 ≡ length slots
length-store slots stream next none = refl
length-store slots stream next (some slot) = ground (arith, length-set slots stream next)

one_report :
    (history : ℕ → UdpIntervalProgress) (stream at i : ℕ) (slots : List UdpIntervalProgress)
    → IsHistory history
    → stream < length slots
    → get_elem? slots stream ≡ some (history at)
    → get_elem? (store_udp_feedback slots stream (report stream history i)).0 stream
      ≡ some (history (max at i))
one_report history stream at i slots h lt e =
    let next = history i in
    let slot = history at in
    let in_slot = own_stream slots stream history i ∙ ap (stored_in slots stream next) e in
    elim (Bool-cases (is_at_least_as_fresh_as next slot)) [
      | inl fresh ↦
          ap (λ r. get_elem? r.0 stream)
            (in_slot
              ∙ ap (λ b. if not b then (slots, false) else (set slots stream next, true)) fresh)
          ∙ get_elem?-set_self slots stream next lt
          ∙ ap some (fresh_or_older history at i h fresh)
      | inr stale ↦
          ap (λ r. get_elem? r.0 stream)
            (in_slot
              ∙ ap (λ b. if not b then (slots, false) else (set slots stream next, true)) stale)
          ∙ e
          ∙ ap (λ k. some (history k)) (sym (stale_is_older history at i h stale))
    ]

-- Reports of one stream's history that reach the client in any order, repeated or not, leave in
-- its slot the report of the latest moment that arrived.
pub store_all-latest :
    (history : ℕ → UdpIntervalProgress) (stream at : ℕ) (arrivals : List ℕ)
    (slots : List UdpIntervalProgress)
    → IsHistory history
    → stream < length slots
    → get_elem? slots stream ≡ some (history at)
    → get_elem? (store_all slots stream (map (report stream history) arrivals)) stream
      ≡ some (history (latest at arrivals))
unfolding store_all
store_all-latest history stream at [] slots h lt e = e
store_all-latest history stream at (i ∷ arrivals) slots h lt e =
    store_all-latest history stream (max at i) arrivals _ h
      (subst (λ n. stream < n)
        (sym (
          ap (λ r. length r.0) (own_stream slots stream history i)
          ∙ length-store slots stream (history i) (get_elem? slots stream)))
        lt)
      (one_report history stream at i slots h lt e)
