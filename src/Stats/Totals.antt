-- ===== src/Stats/Totals.antt =====
-- The reports of a test: its aggregate against the intervals of its streams, the directions against
-- the whole.
use xfr.Prelude.{
  ℕ, ◌+◌, ◌≤◌, ◌≡◌, refl, ap, sym, ◌∙◌, min, Bool, true, false, Option, none, some, List, [], ◌∷◌,
  map, arith,
}
use xfr.Prelude.Words.{u64_max, saturating_add}
use xfr.Budget.Sequential.{sum_of}
use xfr.Tcp.Teardown.{TcpInfoSnapshot}
use xfr.Stats.Stream.{IntervalStats, StreamStats, UdpSendErrors, failures, record_interval}
use xfr.Stats.Intervals.{IsSettled}
use xfr.Stats.Aggregate.{
  StreamInterval, then_some, positive, to_interval_with_direction, sum, saturating_sum_from,
  saturating_sum, to_aggregate_with_direction, add_errors, udp_send_errors_from, udp_send_errors,
}

saturating_sum_from_lem :
    (acc : ℕ) (xs : List ℕ)
    → acc ≤ u64_max
    → saturating_sum_from acc xs ≡ min (acc + sum_of xs) u64_max
unfolding saturating_sum_from sum_of
saturating_sum_from_lem acc [] h = omega arith
saturating_sum_from_lem acc (x ∷ xs) h =
    saturating_sum_from_lem (saturating_add acc x) xs (omega arith) ∙ omega arith

-- The saturating sum of a list stops at the largest number of the machine, however the list is
-- ordered.
saturating_sum_lem : (xs : List ℕ) → saturating_sum xs ≡ min (sum_of xs) u64_max
saturating_sum_lem xs = saturating_sum_from_lem 0 xs (omega arith) ∙ omega arith

abbrev pub or_zero : Option ℕ → ℕ
or_zero none = 0
or_zero (some n) = n

-- a stream with the interval recorded of it
abbrev pub Recorded : Type 0
Recorded = StreamStats × IntervalStats

abbrev pub rows : Bool → List Recorded → List StreamInterval
rows is_bidir ps = map (λ (p : Recorded). to_interval_with_direction p.0 p.1 is_bidir) ps

abbrev pub intervals_of : List Recorded → List IntervalStats
intervals_of ps = map (λ (p : Recorded). p.1) ps

same_column :
    (is_bidir : Bool) (f : IntervalStats → ℕ) (g : StreamInterval → ℕ)
    → ((p : Recorded) → f p.1 ≡ g (to_interval_with_direction p.0 p.1 is_bidir))
    → (ps : List Recorded) → map f (intervals_of ps) ≡ map g (rows is_bidir ps)
same_column is_bidir f g same [] = refl
same_column is_bidir f g same (p ∷ ps) =
    ap (λ y. y ∷ map f (intervals_of ps)) (same p)
    ∙ ap (λ ys. g (to_interval_with_direction p.0 p.1 is_bidir) ∷ ys)
        (same_column is_bidir f g same ps)

sum_zeros : (xs : List IntervalStats) → sum (map (λ (x : IntervalStats). 0) xs) ≡ 0
unfolding sum_of
sum_zeros [] = refl
sum_zeros (x ∷ xs) = omega (arith, sum_zeros xs)

one_direction :
    (is_bidir : Bool) (f : IntervalStats → ℕ) (g : StreamInterval → ℕ)
    → ((p : Recorded)
        → or_zero (then_some is_bidir (f p.1)) ≡ g (to_interval_with_direction p.0 p.1 is_bidir))
    → (ps : List Recorded)
    → or_zero (then_some is_bidir (sum (map f (intervals_of ps)))) ≡ sum (map g (rows is_bidir ps))
one_direction true f g same ps = ap sum (same_column true f g same ps)
one_direction false f g same ps =
    sym (sum_zeros (intervals_of ps)) ∙ ap sum (same_column false (λ x. 0) g same ps)

or_zero-positive : (n : ℕ) → or_zero (positive n) ≡ n
or_zero-positive n = ground arith

module _ (average : ℕ → ℕ → ℕ) where
  -- The aggregate that a server reports is the total of the intervals that it reports of its
  -- streams: of their bytes, their retransmits and their losses, where absent counts as zero, and,
  -- for a bidirectional test, of the bytes of each direction as the client names it.
  pub to_aggregate_total :
      (ps : List Recorded) (is_bidir : Bool)
      → let a = to_aggregate_with_direction average (intervals_of ps) is_bidir in
        let streams = rows is_bidir ps in
        (a.bytes ≡ sum (map (λ (r : StreamInterval). r.bytes) streams))
        × (a.retransmits ≡ some (sum (map (λ (r : StreamInterval). or_zero r.retransmits) streams)))
        × (or_zero a.lost
            ≡ min (sum_of (map (λ (r : StreamInterval). or_zero r.lost) streams)) u64_max)
        × (or_zero a.bytes_sent ≡ sum (map (λ (r : StreamInterval). or_zero r.bytes_sent) streams))
        × (or_zero a.bytes_received
            ≡ sum (map (λ (r : StreamInterval). or_zero r.bytes_received) streams))
  unfolding to_aggregate_with_direction to_interval_with_direction
  to_aggregate_total ps is_bidir = (
    ap sum (same_column is_bidir (λ x. x.bytes) (λ r. r.bytes) (λ p. refl) ps),
    ap (λ xs. some (sum xs))
        (same_column is_bidir (λ x. x.retransmits) (λ r. or_zero r.retransmits) (λ p. refl) ps),
    or_zero-positive (saturating_sum (map (λ (x : IntervalStats). x.lost) (intervals_of ps)))
        ∙ saturating_sum_lem (map (λ (x : IntervalStats). x.lost) (intervals_of ps))
        ∙ ap (λ xs. min (sum_of xs) u64_max)
            (same_column is_bidir (λ x. x.lost) (λ r. or_zero r.lost)
              (λ p. sym (or_zero-positive p.1.lost)) ps),
    one_direction is_bidir (λ x. x.bytes_received) (λ r. or_zero r.bytes_sent) (λ p. refl) ps,
    one_direction is_bidir (λ x. x.bytes_sent) (λ r. or_zero r.bytes_received) (λ p. refl) ps,
  )

-- An interval is split when its two directions make it up.
abbrev pub IsSplit : IntervalStats → Type 0
IsSplit x = x.bytes ≡ x.bytes_sent + x.bytes_received

abbrev pub AllSplit : List IntervalStats → Type 0
AllSplit [] = Unit
AllSplit (x ∷ xs) = IsSplit x × AllSplit xs

pub record_interval-IsSplit :
    (get_tcp_info_from_fd : ℕ → Option TcpInfoSnapshot) (s : StreamStats)
    → IsSettled s
    → s.bytes_sent + s.bytes_received ≤ u64_max
    → IsSplit (record_interval get_tcp_info_from_fd s).1
unfolding record_interval
record_interval-IsSplit get_tcp_info_from_fd s ok fits =
    omega (arith, ok.sent, ok.received, ok.both)

split_sum :
    (xs : List IntervalStats)
    → AllSplit xs
    → sum_of (map (λ (x : IntervalStats). x.bytes) xs)
      ≡ sum_of (map (λ (x : IntervalStats). x.bytes_received) xs)
        + sum_of (map (λ (x : IntervalStats). x.bytes_sent) xs)
unfolding sum_of
split_sum [] split = refl
split_sum (x ∷ xs) split = omega (arith, split.0, split_sum xs split.1)

-- The two directions of a bidirectional aggregate make up its bytes, when each interval is split.
pub to_aggregate_split :
    (average : ℕ → ℕ → ℕ) (xs : List IntervalStats)
    → AllSplit xs
    → sum_of (map (λ (x : IntervalStats). x.bytes) xs) ≤ u64_max
    → let a = to_aggregate_with_direction average xs true in
      or_zero a.bytes_sent + or_zero a.bytes_received ≡ a.bytes
unfolding to_aggregate_with_direction
to_aggregate_split average xs split fits = omega (arith, fits, split_sum xs split)

abbrev pub failures_in : List StreamStats → ℕ
failures_in streams = sum_of (map (λ (s : StreamStats). failures s.udp_send_errors) streams)

add_errors_lem :
    (acc e : Option UdpSendErrors)
    → failures acc + failures e ≤ u64_max
    → failures (add_errors acc e) ≡ failures acc + failures e
add_errors_lem acc none fits = omega arith
add_errors_lem none (some e) fits = omega arith
add_errors_lem (some acc) (some e) fits = omega arith

failures_from :
    (acc : Option UdpSendErrors) (streams : List StreamStats)
    → failures acc + failures_in streams ≤ u64_max
    → failures (udp_send_errors_from acc streams) ≡ failures acc + failures_in streams
unfolding udp_send_errors_from sum_of
failures_from acc [] fits = omega arith
failures_from acc (s ∷ streams) fits =
    let one = add_errors_lem acc s.udp_send_errors (omega arith) in
    failures_from (add_errors acc s.udp_send_errors) streams (omega (arith, one))
    ∙ omega (arith, one)

-- The failed sends that a test reports are those of all its streams.
pub udp_send_errors_count :
    (streams : List StreamStats)
    → failures_in streams ≤ u64_max
    → failures (udp_send_errors streams) ≡ failures_in streams
udp_send_errors_count streams fits = failures_from none streams (omega (arith, fits)) ∙ omega arith
