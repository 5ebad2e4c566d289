-- ===== src/Stats/Aggregate.antt =====
-- src/stats.rs: what is reported of a stream's interval, of a stream and of a whole test. Of the
-- figures that are computed in floating point only the rounded average of the round trips stands
-- here, as a parameter; rates and the mean jitter are left out. A sum wraps.
use xfr.Prelude.{
  ℕ, ◌+◌, ◌%◌, max, Bool, ◌||◌, Option, none, some, List, [], ◌∷◌, map, length, ltb, if◌then◌else◌,
}
use xfr.Prelude.Words.{u64_mod, saturating_add, saturating_add32}
use xfr.Budget.Sequential.{sum_of}
use xfr.Udp.Feedback.{UdpIntervalProgress}
use xfr.Stats.Stream.{IntervalStats, StreamStats, UdpSendErrors, total_bytes}

pub record StreamInterval : Type 0 where
  pub id : ℕ
  pub bytes : ℕ
  pub retransmits : Option ℕ
  pub jitter_us : Option ℕ
  pub lost : Option ℕ
  pub rtt_us : Option ℕ
  pub cwnd : Option ℕ
  pub bytes_sent : Option ℕ
  pub bytes_received : Option ℕ

abbrev pub then_some : Bool → ℕ → Option ℕ
then_some b n = if b then some n else none

-- bool::then_some over a positive count
abbrev pub positive : ℕ → Option ℕ
positive n = if ltb 0 n then some n else none

-- the directions are the client's, so the server's are swapped
unfoldable pub to_interval_with_direction : StreamStats → IntervalStats → Bool → StreamInterval
to_interval_with_direction s x is_bidir = record {
  id = s.stream_id;
  bytes = x.bytes;
  retransmits = some x.retransmits;
  jitter_us = then_some (ltb 0 x.jitter_us || ltb 0 x.cumulative_packets_received) x.jitter_us;
  lost = positive x.lost;
  rtt_us = x.rtt_us;
  cwnd = x.cwnd;
  bytes_sent = then_some is_bidir x.bytes_received;
  bytes_received = then_some is_bidir x.bytes_sent;
}

pub record StreamResult : Type 0 where
  pub id : ℕ
  pub bytes : ℕ
  pub retransmits : Option ℕ
  pub bytes_sent : Option ℕ
  pub bytes_received : Option ℕ

unfoldable pub to_result_with_direction : StreamStats → Bool → StreamResult
to_result_with_direction s is_bidir = record {
  id = s.stream_id;
  bytes = total_bytes s;
  retransmits = some (max s.retransmits s.interval_retransmits_total);
  bytes_sent = then_some is_bidir s.bytes_received;
  bytes_received = then_some is_bidir s.bytes_sent;
}

pub record AggregateInterval : Type 0 where
  pub bytes : ℕ
  pub retransmits : Option ℕ
  pub lost : Option ℕ
  pub udp_progress : Option UdpIntervalProgress
  pub rtt_us : Option ℕ
  pub cwnd : Option ℕ
  pub bytes_sent : Option ℕ
  pub bytes_received : Option ℕ

abbrev pub sum : List ℕ → ℕ
sum xs = sum_of xs % u64_mod

-- .fold(0, u64::saturating_add), from the left
unfoldable pub saturating_sum_from : ℕ → List ℕ → ℕ
saturating_sum_from acc [] = acc
saturating_sum_from acc (x ∷ xs) = saturating_sum_from (saturating_add acc x) xs

abbrev pub saturating_sum : List ℕ → ℕ
saturating_sum xs = saturating_sum_from 0 xs

abbrev pub keep : Option ℕ → List ℕ → List ℕ
keep none ys = ys
keep (some y) ys = y ∷ ys

unfoldable pub measured : List (Option ℕ) → List ℕ
measured [] = []
measured (o ∷ os) = keep o (measured os)

unfoldable pub saturating_sum32_from : ℕ → List ℕ → ℕ
saturating_sum32_from acc [] = acc
saturating_sum32_from acc (x ∷ xs) = saturating_sum32_from (saturating_add32 acc x) xs

-- .reduce(u32::saturating_add)
abbrev pub total_cwnd : List ℕ → Option ℕ
total_cwnd [] = none
total_cwnd (x ∷ xs) = some (saturating_sum32_from x xs)

abbrev pub progress_of : ℕ → ℕ → Option UdpIntervalProgress
progress_of received lost =
    if ltb 0 received || ltb 0 lost
    then some (record { packets_received = received; packets_lost = lost })
    else none

abbrev pub column : (IntervalStats → ℕ) → List IntervalStats → List ℕ
column f xs = map f xs

-- the mean of the sum over so many, rounded to u32, in floating point
module _ (average : ℕ → ℕ → ℕ) where
  abbrev pub average_of : List ℕ → Option ℕ
  average_of [] = none
  average_of (x ∷ xs) = some (average (sum (x ∷ xs)) (length (x ∷ xs)))

  unfoldable pub to_aggregate_with_direction : List IntervalStats → Bool → AggregateInterval
  unfolding measured saturating_sum32_from saturating_sum_from
  to_aggregate_with_direction xs is_bidir = record {
    bytes = sum (column (λ x. x.bytes) xs);
    retransmits = some (sum (column (λ x. x.retransmits) xs));
    lost = positive (saturating_sum (column (λ x. x.lost) xs));
    udp_progress =
        progress_of (saturating_sum (column (λ x. x.cumulative_packets_received) xs))
          (saturating_sum (column (λ x. x.cumulative_packets_lost) xs));
    rtt_us = average_of (measured (map (λ (x : IntervalStats). x.rtt_us) xs));
    cwnd = total_cwnd (measured (map (λ (x : IntervalStats). x.cwnd) xs));
    bytes_sent = then_some is_bidir (sum (column (λ x. x.bytes_received) xs));
    bytes_received = then_some is_bidir (sum (column (λ x. x.bytes_sent) xs));
  }

-- `TestStats`, as far as it is read below
abbrev pub all_bytes : List StreamStats → ℕ
all_bytes streams = sum (map total_bytes streams)

abbrev pub all_bytes_sent : List StreamStats → ℕ
all_bytes_sent streams = sum (map (λ (s : StreamStats). s.bytes_sent) streams)

abbrev pub all_bytes_received : List StreamStats → ℕ
all_bytes_received streams = sum (map (λ (s : StreamStats). s.bytes_received) streams)

abbrev pub add_errors : Option UdpSendErrors → Option UdpSendErrors → Option UdpSendErrors
add_errors acc none = acc
add_errors none (some e) = some e
add_errors (some acc) (some e) =
    some (record { count = (acc.count + e.count) % u64_mod; last_error = e.last_error })

unfoldable pub udp_send_errors_from : Option UdpSendErrors → List StreamStats → Option UdpSendErrors
udp_send_errors_from acc [] = acc
udp_send_errors_from acc (s ∷ streams) =
    udp_send_errors_from (add_errors acc s.udp_send_errors) streams

-- .filter_map(..).reduce(..)
abbrev pub udp_send_errors : List StreamStats → Option UdpSendErrors
udp_send_errors streams = udp_send_errors_from none streams
