-- ===== src/Client/Progress.antt =====
-- src/client.rs: the deadlines of a client, the filter of the progress that reaches it on two ways,
-- and the bytes that its receivers count between two reports. Times are in milliseconds.
use xfr.Prelude.{
  ℕ, ◌+◌, ◌-◌, ◌*◌, ◌≤◌, ◌≡◌, refl, ap, ◌∙◌, min, max, Bool, true, false, not, Option, none, some,
  List, [], ◌∷◌, ltb, ◌==◌, if◌then◌else◌, arith, inl, inr, Bool-cases,
}
use xfr.Prelude.Words.{u64_max, saturating_mul}
use xfr.Budget.Sequential.{sum_of}
use xfr.Udp.Feedback.{UdpIntervalProgress, is_at_least_as_fresh_as}

unfoldable pub stream_join_timeout : ℕ → ℕ
stream_join_timeout streams =
    let scaled = saturating_mul streams 50 in if ltb 2_000 scaled then scaled else 2_000

unfoldable pub single_port_handshake_parallelism : ℕ → ℕ
single_port_handshake_parallelism streams = min (max streams 1) 16

unfoldable pub local_stop_deadline : ℕ → ℕ → Option ℕ
local_stop_deadline start duration = if duration == 0 then none else some (start + duration)

-- the deadline, and when the pause began
abbrev pub start_control_cancel_wait : ℕ → ℕ × Option ℕ
start_control_cancel_wait now = (now + 3_000, none)

abbrev is_stale : Option UdpIntervalProgress → UdpIntervalProgress → Bool
is_stale none progress = false
is_stale (some previous) progress = not (is_at_least_as_fresh_as progress previous)

-- `UdpProgressFilter`, whose state is the latest snapshot
unfoldable pub apply :
    Option UdpIntervalProgress
    → UdpIntervalProgress
    → Option UdpIntervalProgress × Option UdpIntervalProgress
apply latest progress =
    if is_stale latest progress then (latest, none) else (some progress, some progress)

abbrev pub and_then :
    Option UdpIntervalProgress → List UdpIntervalProgress → List UdpIntervalProgress
and_then none rest = rest
and_then (some p) rest = p ∷ rest

-- the snapshots that pass, of those that arrive
unfoldable pub apply_all :
    Option UdpIntervalProgress → List UdpIntervalProgress → List UdpIntervalProgress
unfolding apply
apply_all latest [] = []
apply_all latest (p ∷ ps) =
    let (next, passed) = apply latest p in and_then passed (apply_all next ps)

-- the packets that a snapshot has received or lost, in 64 bits
abbrev pub expected : UdpIntervalProgress → ℕ
expected p = min (p.packets_received + p.packets_lost) u64_max

fresh_counts :
    (p q : UdpIntervalProgress)
    → is_at_least_as_fresh_as q p ≡ true
    → (p.packets_received ≤ q.packets_received) × (expected p ≤ expected q)
unfolding is_at_least_as_fresh_as
fresh_counts p q h = ground (arith, h)

-- every one of them has at least the packets received, and the packets expected, of `p`
abbrev pub AllFresh : UdpIntervalProgress → List UdpIntervalProgress → Type 0
AllFresh p [] = Unit
AllFresh p (q ∷ qs) =
    (p.packets_received ≤ q.packets_received) × (expected p ≤ expected q) × AllFresh p qs

-- each has at least the counts of all before it
abbrev pub IsInOrder : List UdpIntervalProgress → Type 0
IsInOrder [] = Unit
IsInOrder (p ∷ ps) = AllFresh p ps × IsInOrder ps

AllFresh-weaken :
    (p q : UdpIntervalProgress) (rs : List UdpIntervalProgress)
    → (p.packets_received ≤ q.packets_received) × (expected p ≤ expected q)
    → AllFresh q rs
    → AllFresh p rs
AllFresh-weaken p q [] h fresh = tt
AllFresh-weaken p q (r ∷ rs) h (received, total, rest) =
    (omega (arith, h.0, received), omega (arith, h.1, total), AllFresh-weaken p q rs h rest)

passed_fresh :
    (latest : UdpIntervalProgress) (ps : List UdpIntervalProgress)
    → AllFresh latest (apply_all (some latest) ps)
unfolding apply_all
passed_fresh latest [] = tt
passed_fresh latest (p ∷ ps) = elim (Bool-cases (is_at_least_as_fresh_as p latest)) [
  | inl fresh ↦
      let counts = fresh_counts latest p fresh in
      rw fresh (
        counts.0,
        counts.1,
        AllFresh-weaken latest p (apply_all (some p) ps) counts (passed_fresh p ps),
      )
  | inr stale ↦ rw stale (passed_fresh latest ps)
]

-- Whatever order snapshots arrive in on the two ways, those that pass the filter are in order: each
-- has at least the packets received, and at least the packets expected (received or lost, in 64
-- bits), of all that passed before it.
pub apply_all-IsInOrder :
    (latest : Option UdpIntervalProgress) (ps : List UdpIntervalProgress)
    → IsInOrder (apply_all latest ps)
unfolding apply_all
apply_all-IsInOrder latest [] = tt
apply_all-IsInOrder none (p ∷ ps) = (passed_fresh p ps, apply_all-IsInOrder (some p) ps)
apply_all-IsInOrder (some latest) (p ∷ ps) = elim (Bool-cases (is_at_least_as_fresh_as p latest)) [
  | inl fresh ↦ rw fresh (passed_fresh p ps, apply_all-IsInOrder (some p) ps)
  | inr stale ↦ rw stale (apply_all-IsInOrder (some latest) ps)
]

-- A snapshot that the filter has passed passes again at once.
pub apply-apply :
    (latest : Option UdpIntervalProgress) (p : UdpIntervalProgress)
    → (apply latest p).1 ≡ some p
    → apply (apply latest p).0 p ≡ (some p, some p)
unfolding apply is_at_least_as_fresh_as
apply-apply none p h = ground arith
apply-apply (some latest) p h =
    let self : is_at_least_as_fresh_as p p ≡ true = ground arith in
    elim (Bool-cases (is_at_least_as_fresh_as p latest)) [
      | inl fresh ↦
          let one : apply (some latest) p ≡ (some p, some p) =
            ap (λ b. if not b then (some latest, none) else (some p, some p)) fresh in
          ap (λ t. apply t.0 p) one
          ∙ ap (λ b. if not b then (some p, none) else (some p, some p)) self
      | inr stale ↦
          let one : apply (some latest) p ≡ (some latest, none) =
            ap (λ b. if not b then (some latest, none) else (some p, some p)) stale in
          let gone : (apply (some latest) p).1 ≡ none = ap (λ t. t.1) one in absurd (cc)
    ]

-- the counters of the streams and the readings kept of them: the increases, and the readings now
abbrev pub before : Option ℕ → ℕ
before none = 0
before (some n) = n

unfoldable pub udp_recv_interval_deltas : List ℕ → List ℕ → List ℕ × List ℕ
udp_recv_interval_deltas [] last = ([], last)
udp_recv_interval_deltas (cumulative ∷ counters) [] =
    let (deltas, last) = udp_recv_interval_deltas counters [] in (cumulative ∷ deltas, last)
udp_recv_interval_deltas (cumulative ∷ counters) (prev ∷ last) =
    let (deltas, rest) = udp_recv_interval_deltas counters last in
    ((cumulative - prev) ∷ deltas, cumulative ∷ rest)

abbrev pub HasGrown : List ℕ → List ℕ → Type 0
HasGrown [] [] = Unit
HasGrown [] (n ∷ now) = ⊥
HasGrown (l ∷ last) [] = ⊥
HasGrown (l ∷ last) (n ∷ now) = (l ≤ n) × HasGrown last now

deltas_sum :
    (last now : List ℕ)
    → HasGrown last now
    → (sum_of (udp_recv_interval_deltas now last).0 + sum_of last ≡ sum_of now)
      × ((udp_recv_interval_deltas now last).1 ≡ now)
unfolding udp_recv_interval_deltas sum_of
deltas_sum [] [] grown = (refl, refl)
deltas_sum [] (n ∷ now) grown = elim grown [ ]
deltas_sum (l ∷ last) [] grown = elim grown [ ]
deltas_sum (l ∷ last) (n ∷ now) grown =
    let (sum, kept) = deltas_sum last now grown.1 in
    (omega (arith, grown.0, sum), ap (λ t. n ∷ t) kept)

-- the totals of a sequence of reports
unfoldable pub report_all : List (List ℕ) → List ℕ → ℕ
unfolding udp_recv_interval_deltas
report_all [] last = 0
report_all (now ∷ later) last =
    let (deltas, kept) = udp_recv_interval_deltas now last in sum_of deltas + report_all later kept

abbrev pub AllGrown : List ℕ → List (List ℕ) → Type 0
AllGrown last [] = Unit
AllGrown last (now ∷ later) = HasGrown last now × AllGrown now later

abbrev pub readings_after : List ℕ → List (List ℕ) → List ℕ
readings_after last [] = last
readings_after last (now ∷ later) = readings_after now later

-- However often the progress of the receiving streams is reported, the increases reported make up
-- what their counters have grown since the first readings.
pub report_all_total :
    (last : List ℕ) (reports : List (List ℕ))
    → AllGrown last reports
    → report_all reports last + sum_of last ≡ sum_of (readings_after last reports)
unfolding report_all
report_all_total last [] grown = omega arith
report_all_total last (now ∷ later) grown =
    let (sum, kept) = deltas_sum last now grown.0 in
    let total = report_all_total now later grown.1 in
    let next : report_all later (udp_recv_interval_deltas now last).1 ≡ report_all later now =
      ap (report_all later) kept in
    omega (arith, sum, total, next)

-- For up to 128 streams the wait for them to end is between 2 and 6.4 seconds and at least 50 ms for
-- each, and between one and sixteen of them shake hands at once.
pub stream_join_timeout-bound :
    (streams : ℕ)
    → streams ≤ 128
    → (2_000 ≤ stream_join_timeout streams)
      × (stream_join_timeout streams ≤ 6_400)
      × (50 * streams ≤ stream_join_timeout streams)
      × (1 ≤ single_port_handshake_parallelism streams)
      × (single_port_handshake_parallelism streams ≤ 16)
unfolding stream_join_timeout single_port_handshake_parallelism
stream_join_timeout-bound streams h = ground arith
