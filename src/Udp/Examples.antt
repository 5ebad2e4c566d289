-- ===== src/Udp/Examples.antt =====
-- A paced sender of a gigabit a second, and reports that arrive out of order.
use xfr.Prelude.{ℕ, ◌*◌, ◌≡◌, refl, arith, min, some, List, [], ◌∷◌, map, get_elem?}
use xfr.Udp.Pacing.{IsPaced, pacing_schedule, pacing_schedule-IsPaced}
use xfr.Udp.Feedback.{UdpIntervalProgress, IsHistory, report, store_all, store_all-latest}

pacing_schedule-IsPaced_example :
    IsPaced 1_000_000_000 (1400 * 8) (pacing_schedule 1_000_000_000 1400)
pacing_schedule-IsPaced_example =
    pacing_schedule-IsPaced 1_000_000_000 1400 (omega arith) (omega arith) (omega arith)

-- ten packets a moment up to moment 100, one of each ten lost
abbrev history : ℕ → UdpIntervalProgress
history i = record { packets_received = 9 * min i 100; packets_lost = min i 100 }

history-IsHistory : IsHistory history
history-IsHistory = record {
  received_grows = λ i j le. omega arith;
  total_grows = λ i j le. omega arith;
  fits = λ i. omega arith;
}

abbrev slots : List UdpIntervalProgress
slots = history 0 ∷ history 0 ∷ []

store_all-latest_example :
    get_elem? (store_all slots 1 (map (report 1 history) (3 ∷ 7 ∷ 5 ∷ 7 ∷ []))) 1 ≡ some (history 7)
store_all-latest_example =
    store_all-latest history 1 0 (3 ∷ 7 ∷ 5 ∷ 7 ∷ []) slots history-IsHistory (omega arith) refl
