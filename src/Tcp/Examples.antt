-- ===== src/Tcp/Examples.antt =====
-- Small sends and receives.
use xfr.Prelude.{ℕ, ◌<◌, ◌≡◌, ◌≢◌, refl, true, false, none, some, List, [], ◌∷◌, arith}
use xfr.Budget.Sequential.{sum_of}
use xfr.Tcp.Teardown.{TcpInfoSnapshot, SendStats}
use xfr.Tcp.Send.{wrote, Round, SendConfig, SendLoop, ended, send_loop}
use xfr.Tcp.Send.Budgeted.{IsBudgeted, IsHeld, send_loop-IsHeld}
use xfr.Tcp.Send.Delivery.{Writes, AllWrite, send_loop_delivers}
use xfr.Tcp.Receive.{
  end_of_file, bytes, Receiving, finished, reading, on_arrival, receive_loop, receive_loop_counts,
}
use xfr.Tcp.Acked.{Poll, waiting, wait_for_send_queue_acked, wait_for_send_queue_acked_ends}
use xfr.Tcp.Pause.{Pause}

abbrev quiet_round : ℕ → Round
quiet_round n = record {
  cancelled = false;
  paused = none;
  now = 0;
  race = wrote n;
  overshoot = false;
  sleep_cancelled = false;
  failed_at = 0;
  cancelled_after = false;
  acked = none;
}

abbrev two_at_a_time : SendConfig
two_at_a_time = record { buffer_len = 2; is_infinite = true; paces = false }

abbrev three_to_send : SendLoop
three_to_send = record {
  budget = some (record { remaining = 3 });
  bytes_sent = 0;
  chunk_offset = 0;
  deadline = 0;
  pace_start = 0;
  pace_bytes_offset = 0;
  zerocopy = false;
  suppressed_teardown_errors = 0;
}

three_to_send-IsBudgeted : IsBudgeted two_at_a_time 3 three_to_send
three_to_send-IsBudgeted = record {
  b = record { remaining = 3 };
  budget = refl;
  bytes = refl;
  offset = omega arith;
}

abbrev rounds : List Round
rounds = quiet_round 2 ∷ quiet_round 5 ∷ quiet_round 1 ∷ quiet_round 1 ∷ []

quiet_round-Writes : (n : ℕ) → 0 < n → Writes (quiet_round n)
quiet_round-Writes n h = record {
  not_cancelled = refl;
  not_paused = refl;
  bytes = n;
  some_bytes = h;
  written = refl;
  awake = refl;
}

rounds-AllWrite : AllWrite rounds
rounds-AllWrite = (
  quiet_round-Writes 2 (omega arith),
  (
    quiet_round-Writes 5 (omega arith),
    (quiet_round-Writes 1 (omega arith), (quiet_round-Writes 1 (omega arith), tt)),
  ),
)

send_loop_delivers_example :
    ((send_loop two_at_a_time rounds three_to_send).1 ≡ ended)
    × ((send_loop two_at_a_time rounds three_to_send).0.bytes_sent ≡ 3)
send_loop_delivers_example =
    send_loop_delivers two_at_a_time 3 (omega arith) refl rounds three_to_send
      three_to_send-IsBudgeted rounds-AllWrite (omega arith)

send_loop-IsHeld_example : IsHeld two_at_a_time 3 (send_loop two_at_a_time rounds three_to_send)
send_loop-IsHeld_example =
    send_loop-IsHeld two_at_a_time 3 (omega arith) rounds three_to_send three_to_send-IsBudgeted

abbrev first_info : TcpInfoSnapshot
first_info = record {
  retransmits = 2;
  rtt_us = 80;
  rtt_var_us = 9;
  cwnd = 10;
  bytes_acked = some 900;
}

abbrev later_info : TcpInfoSnapshot
later_info = record {
  retransmits = 5;
  rtt_us = 80;
  rtt_var_us = 9;
  cwnd = 10;
  bytes_acked = some 1000;
}

abbrev sent_thousand : SendStats
sent_thousand = record { bytes_sent = 1000; retransmits = 1 }

abbrev nothing_received : Receiving
nothing_received = record { bytes_received = 0; cancelled = false; suppressed_teardown_errors = 0 }

end_stops : (t : Receiving) → (on_arrival 0 10 end_of_file t).1 ≢ reading
unfolding on_arrival
end_stops t = λ (e : finished ≡ reading). absurd (cc)

receive_loop_counts_example :
    let ended =
      receive_loop 0 10 (bytes 7 ∷ bytes 5 ∷ end_of_file ∷ bytes 9 ∷ []) nothing_received in
    (ended.0.bytes_received ≡ 12) × (ended.1 ≢ reading)
unfolding sum_of
receive_loop_counts_example =
    receive_loop_counts 0 10 (7 ∷ 5 ∷ []) end_of_file (bytes 9 ∷ []) nothing_received end_stops
      (omega arith)

abbrev poll_at : ℕ → Poll
poll_at now = record { unknown = false; queued = 1448; cancelled = false; now = now; woken = false }

abbrev last_polls : List Poll
last_polls = poll_at 4_999_000_000 ∷ poll_at 5_000_100_000 ∷ []

wait_for_send_queue_acked_ends_example : wait_for_send_queue_acked 0 last_polls ≢ waiting
wait_for_send_queue_acked_ends_example =
    wait_for_send_queue_acked_ends 0 4_999_000_000 last_polls (omega arith, (omega arith, tt))
      (omega arith) (omega arith)

abbrev held : Pause
held = record { value = true; has_sender = true }

abbrev abandoned : Pause
abandoned = record { value = true; has_sender = false }
