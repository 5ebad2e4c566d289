-- ===== src/Serve/Reporting/Examples.antt =====
-- The reporting of a byte-budget upload over one TCP stream, whose frames are written slowly.
use xfr.Prelude.{ℕ, ◌+◌, ◌*◌, ◌/◌, ◌≤◌, ◌≡◌, refl, true, false, none, some, List, [], ◌∷◌, arith}
use xfr.Budget.Sequential.{sum_of}
use xfr.Serve.Timeouts.{tcp, upload, budget_transfer_complete}
use xfr.Serve.Reporting.{
  Sample, ReportLoopConfig, ReportLoop, Event, tick, written, finish_command, recv_done, ended_at,
  duration_ms,
}
use xfr.Serve.Reporting.Samples.{samples_bytes, pending_bytes, run, run_conserves}
use xfr.Serve.Reporting.Ending.{IsTimed, run_duration}

abbrev upload_test : ReportLoopConfig
upload_test = record {
  protocol = tcp;
  duration = 0;
  direction = upload;
  byte_budget_test = true;
  end_on_server_send = false;
}

abbrev starting : ReportLoop
starting = record {
  start = 0;
  paused_total = 0;
  pause_start = none;
  current = none;
  pending = none;
  cancelled = false;
  client_finished = false;
  server_send_done = false;
  drain_until = none;
  received_at = none;
  sent_at = none;
}

abbrev sample_of : ℕ → Sample
sample_of n = record {
  intervals =
      record {
        bytes = n;
        retransmits = 0;
        jitter_us = 0;
        lost = 0;
        rtt_us = none;
        cwnd = none;
        bytes_sent = 0;
        bytes_received = n;
        cumulative_packets_received = 0;
        cumulative_packets_lost = 0;
      }
      ∷ [];
  durations = 1_000_000_000 ∷ [];
  elapsed_ms = 1_000;
}

-- frames of 300 bytes
abbrev encoded : Sample → ℕ
encoded x = 300

abbrev events : List (ℕ × ℕ × Event)
events =
    (0, 1_000_000_000, tick (sample_of 500))
    ∷ (1_000_000_000, 2_000_000_000, tick (sample_of 700))
    ∷ (2_000_000_000, 2_100_000_000, written 100)
    ∷ []

run_conserves_example :
    let r = run 1 upload_test encoded events starting in
    samples_bytes r.1 + pending_bytes r.0.pending
    ≡ pending_bytes starting.pending + samples_bytes r.2
unfolding sum_of
run_conserves_example =
    run_conserves 1 upload_test encoded events starting tt (refl, (refl, tt)) (omega arith)

starting-IsTimed : IsTimed starting
starting-IsTimed = record { received = λ e. absurd (cc); sent = λ e. absurd (cc) }

-- the stream is drained half a millisecond after the client's Finish
abbrev last_events : List (ℕ × ℕ × Event)
last_events = (0, 1_000_000, finish_command) ∷ (1_000_000, 1_500_000, recv_done) ∷ []

run_duration_example :
    let t = (run 1 upload_test encoded last_events starting).0 in
    (end : ℕ) × (ended_at upload t ≡ some end)
    × (1 ≤ duration_ms upload_test 4_000_000 t)
    × (end / 1_000 ≤ 1_000 * duration_ms upload_test 4_000_000 t)
unfolding run budget_transfer_complete
run_duration_example =
    run_duration 1 upload_test encoded last_events starting 4_000_000 starting-IsTimed refl refl
      refl
