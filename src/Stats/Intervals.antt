-- ===== src/Stats/Intervals.antt =====
-- The intervals recorded of a stream, against its counters.
use xfr.Prelude.{
  ℕ, ◌+◌, ◌≤◌, ◌≡◌, refl, Option, List, [], ◌∷◌, ◌++◌, map, length, arith, length-append,
}
use xfr.Prelude.Words.{u64_max}
use xfr.Budget.Sequential.{sum_of}
use xfr.Tcp.Teardown.{TcpInfoSnapshot}
use xfr.Stats.Stream.{
  IntervalStats, StreamStats, new, add_bytes_sent, add_bytes_received, record_interval,
  max_interval_history, push_interval,
}

pub data Event : Type 0 where
  sent : ℕ → Event
  received : ℕ → Event
  recorded : Event

abbrev pub amount : Event → ℕ
amount (sent n) = n
amount (received n) = n
amount recorded = 0

abbrev pub amounts : List Event → ℕ
amounts es = sum_of (map amount es)

-- What earlier recordings have covered is no more than what is counted.
pub record IsSettled (s : StreamStats) : Type 0 where
  pub sent : s.last_bytes_sent ≤ s.bytes_sent
  pub received : s.last_bytes_received ≤ s.bytes_received
  pub both : s.last_bytes ≡ s.last_bytes_sent + s.last_bytes_received

abbrev pub bytes_in : List IntervalStats → ℕ
bytes_in xs = sum_of (map (λ (x : IntervalStats). x.bytes) xs)

abbrev pub sent_in : List IntervalStats → ℕ
sent_in xs = sum_of (map (λ (x : IntervalStats). x.bytes_sent) xs)

abbrev pub received_in : List IntervalStats → ℕ
received_in xs = sum_of (map (λ (x : IntervalStats). x.bytes_received) xs)

module _ (get_tcp_info_from_fd : ℕ → Option TcpInfoSnapshot) where
  unfoldable pub step : Event → StreamStats → StreamStats × List IntervalStats
  unfolding record_interval
  step (sent n) s = (add_bytes_sent n s, [])
  step (received n) s = (add_bytes_received n s, [])
  step recorded s = let (t, x) = record_interval get_tcp_info_from_fd s in (t, x ∷ [])

  unfoldable pub run : List Event → StreamStats → StreamStats × List IntervalStats
  unfolding step
  run [] s = (s, [])
  run (e ∷ es) s = let (t, xs) = step e s in let (u, ys) = run es t in (u, xs ++ ys)

  abbrev after_recording : StreamStats → StreamStats
  after_recording s = (step recorded s).0

  after_recording-IsSettled :
      (s : StreamStats) → s.bytes_sent + s.bytes_received ≤ u64_max → IsSettled (after_recording s)
  unfolding step
  after_recording-IsSettled s fits = record {
    sent = omega arith;
    received = omega arith;
    both = omega arith;
  }

  recorded_all_from :
      (es : List Event) (s : StreamStats)
      → IsSettled s
      → s.bytes_sent + s.bytes_received + amounts es ≤ u64_max
      → let (t, xs) = run (es ++ recorded ∷ []) s in
        (bytes_in xs + s.last_bytes ≡ t.bytes_sent + t.bytes_received)
        × (sent_in xs + s.last_bytes_sent ≡ t.bytes_sent)
        × (received_in xs + s.last_bytes_received ≡ t.bytes_received)
  unfolding run sum_of
  recorded_all_from [] s ok fits = (omega arith, omega arith, omega arith)
  recorded_all_from (sent n ∷ es) s ok fits =
      let t = add_bytes_sent n s in
      let kept : t.bytes_sent ≡ s.bytes_sent + n = omega arith in
      recorded_all_from es t (record { sent = omega arith; received = ok.received; both = ok.both })
        (omega arith)
  recorded_all_from (received n ∷ es) s ok fits =
      let t = add_bytes_received n s in
      let kept : t.bytes_received ≡ s.bytes_received + n = omega arith in
      recorded_all_from es t (record { sent = ok.sent; received = omega arith; both = ok.both })
        (omega arith)
  recorded_all_from (recorded ∷ es) s ok fits =
      let (both, up, down) =
        recorded_all_from es (after_recording s) (after_recording-IsSettled s (omega arith))
          (omega (arith, fits)) in
      (omega arith, omega arith, omega arith)

  -- Whatever a new stream sends and receives and whenever its intervals are recorded: once a last one
  -- has been recorded, the bytes of all the intervals are the bytes of the stream, for either
  -- direction and for both together.
  pub recorded_all :
      (es : List Event) (stream_id : ℕ)
      → amounts es ≤ u64_max
      → let (t, xs) = run (es ++ recorded ∷ []) (new stream_id) in
        (bytes_in xs ≡ t.bytes_sent + t.bytes_received)
        × (sent_in xs ≡ t.bytes_sent)
        × (received_in xs ≡ t.bytes_received)
  recorded_all es stream_id fits =
      let (both, up, down) =
        recorded_all_from es (new stream_id)
          (record { sent = omega arith; received = omega arith; both = refl })
          (omega (arith, fits)) in
      (omega arith, omega arith, omega arith)

  length-push_interval :
      (x : IntervalStats) (xs : List IntervalStats)
      → length xs ≤ max_interval_history
      → length (push_interval x xs) ≤ max_interval_history
  unfolding push_interval
  length-push_interval x [] h = omega arith
  length-push_interval x (y ∷ ys) h =
      let one_more : length (ys ++ x ∷ []) ≡ length ys + 1 = length-append ys (x ∷ []) in
      ground arith

  step_history :
      (e : Event) (s : StreamStats)
      → length s.intervals ≤ max_interval_history
      → length (step e s).0.intervals ≤ max_interval_history
  unfolding step
  step_history (sent n) s h = h
  step_history (received n) s h = h
  step_history recorded s h =
      length-push_interval (record_interval get_tcp_info_from_fd s).1 s.intervals h

  -- However many intervals are recorded, no more than the last sixty are kept.
  pub run_history :
      (es : List Event) (s : StreamStats)
      → length s.intervals ≤ max_interval_history
      → length (run es s).0.intervals ≤ max_interval_history
  unfolding run
  run_history [] s h = h
  run_history (e ∷ es) s h = run_history es (step e s).0 (step_history e s h)
