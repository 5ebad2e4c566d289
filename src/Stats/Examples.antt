-- ===== src/Stats/Examples.antt =====
-- A stream of a test in both directions.
use xfr.Prelude.{ℕ, ◌+◌, ◌/◌, ◌≡◌, Option, none, some, List, [], ◌∷◌, ◌++◌, map, min, arith, true}
use xfr.Prelude.Words.{u64_max}
use xfr.Budget.Sequential.{sum_of}
use xfr.Tcp.Teardown.{TcpInfoSnapshot}
use xfr.Stats.Stream.{StreamStats, new, IntervalStats, record_udp_send_error}
use xfr.Stats.Intervals.{
  sent, received, recorded, Event, run, recorded_all, bytes_in, sent_in, received_in,
}
use xfr.Stats.Aggregate.{StreamInterval, sum, to_aggregate_with_direction}
use xfr.Stats.Totals.{Recorded, to_aggregate_total, or_zero, intervals_of, rows}

-- a kernel that knows no socket
abbrev no_info : ℕ → Option TcpInfoSnapshot
no_info fd = none

abbrev events : List Event
events = sent 700 ∷ recorded ∷ received 40 ∷ sent 60 ∷ recorded ∷ received 5 ∷ []

recorded_all_example :
    let (t, xs) = run no_info (events ++ recorded ∷ []) (new 0) in
    (bytes_in xs ≡ t.bytes_sent + t.bytes_received)
    × (sent_in xs ≡ t.bytes_sent)
    × (received_in xs ≡ t.bytes_received)
unfolding sum_of
recorded_all_example = recorded_all no_info events 0 (omega arith)

abbrev an_interval : ℕ → ℕ → IntervalStats
an_interval up down = record {
  bytes = up + down;
  retransmits = 1;
  jitter_us = 0;
  lost = 2;
  rtt_us = some 80;
  cwnd = some 10;
  bytes_sent = up;
  bytes_received = down;
  cumulative_packets_received = 9;
  cumulative_packets_lost = 2;
}

abbrev mean : ℕ → ℕ → ℕ
mean sum count = sum / count

abbrev failing : ℕ → StreamStats
failing id = (record_udp_send_error (110 ∷ 111 ∷ []) (new id)).0

abbrev recordings : List Recorded
recordings = (failing 0, an_interval 70 8) ∷ (new 1, an_interval 1 2) ∷ []

to_aggregate_total_example :
    let a = to_aggregate_with_direction mean (intervals_of recordings) true in
    let streams = rows true recordings in
    (a.bytes ≡ sum (map (λ (r : StreamInterval). r.bytes) streams))
    × (a.retransmits ≡ some (sum (map (λ (r : StreamInterval). or_zero r.retransmits) streams)))
    × (or_zero a.lost ≡ min (sum_of (map (λ (r : StreamInterval). or_zero r.lost) streams)) u64_max)
    × (or_zero a.bytes_sent ≡ sum (map (λ (r : StreamInterval). or_zero r.bytes_sent) streams))
    × (or_zero a.bytes_received
        ≡ sum (map (λ (r : StreamInterval). or_zero r.bytes_received) streams))
to_aggregate_total_example = to_aggregate_total mean recordings true
