-- ===== src/Serve/Reporting/Ending.antt =====
-- The end of a byte-budget test by its transfer, and the duration reported for it.
use xfr.Prelude.{
  ℕ, ◌*◌, ◌/◌, ◌≤◌, ◌≡◌, refl, ap, ◌∙◌, Bool, true, false, not, ◌&&◌, ◌||◌, Option, none, some,
  List, [], ◌∷◌, if◌then◌else◌, arith, inl, inr, Bool-cases,
}
use xfr.Serve.Timeouts.{TestDirection, upload, download, bidir, budget_transfer_complete}
use xfr.Serve.Reporting.{
  Sample, ReportLoopConfig, ReportLoop, Event, deadline, drain_expired, recv_done, sending_done,
  tick, finish_command, cancel_command, pause_command, resume_command, reader_exited, written,
  is_some, is_udp, is_over, drained, resumed, get_or_insert, transfer_complete, on_event,
  transfer_end, duration_ms, elapsed_at, Frame, take_pending, step, max_option, ended_at, of_end,
  rounded_up,
}
use xfr.Serve.Reporting.Samples.{run}

-- A side that is done has the time it was done at.
pub record IsTimed (s : ReportLoop) : Type 0 where
  pub received : s.client_finished ≡ true → is_some s.received_at ≡ true
  pub sent : s.server_send_done ≡ true → is_some s.sent_at ≡ true

is_some-get_or_insert : (o : Option ℕ) (n : ℕ) → is_some (get_or_insert o n) ≡ true
is_some-get_or_insert none n = refl
is_some-get_or_insert (some m) n = refl

-- the pairs that an event may leave
record IsTimedPair (p : ReportLoop × Bool) : Type 0 where
  pub timed : IsTimed p.0

chosen :
    {p q : ReportLoop × Bool} (b : Bool)
    → IsTimedPair p
    → IsTimedPair q
    → IsTimedPair (if b then p else q)
chosen true first second = first
chosen false first second = second

module _ (c : ReportLoopConfig) (now : ℕ) where
  drained-IsTimed : (s : ReportLoop) → IsTimed s → IsTimed (drained now s)
  drained-IsTimed s ok = record {
    received = λ e. is_some-get_or_insert s.received_at (elapsed_at now s);
    sent = ok.sent;
  }

  resumed-IsTimed : (p : Option ℕ) (s : ReportLoop) → IsTimed s → IsTimed (resumed now p s)
  resumed-IsTimed none s ok = ok
  resumed-IsTimed (some p) s ok = record { received = ok.received; sent = ok.sent }

  event-IsTimedPair : (e : Event) (s : ReportLoop) → IsTimed s → IsTimedPair (on_event c now e s)
  unfolding on_event
  event-IsTimedPair deadline s ok = record { timed = ok }
  event-IsTimedPair drain_expired s ok =
      chosen (is_some s.drain_until) (record { timed = drained-IsTimed s ok })
        (record { timed = ok })
  event-IsTimedPair recv_done s ok =
      chosen (is_some s.drain_until) (record { timed = drained-IsTimed s ok })
        (chosen (c.byte_budget_test && not (is_udp c.protocol) && not (is_some s.received_at))
          (record {
            timed = record {
              received = λ e. is_some-get_or_insert s.received_at (elapsed_at now s);
              sent = ok.sent;
            };
          })
          (record { timed = ok }))
  event-IsTimedPair sending_done s ok =
      chosen (c.end_on_server_send && not s.server_send_done)
        (record { timed = record { received = ok.received; sent = λ e. refl } })
        (record { timed = ok })
  event-IsTimedPair (tick x) s ok =
      chosen (is_over c now s) (record { timed = ok })
        (record { timed = record { received = ok.received; sent = ok.sent } })
  event-IsTimedPair finish_command s ok =
      chosen (c.byte_budget_test && not s.client_finished && not (is_some s.drain_until))
        (record { timed = record { received = ok.received; sent = ok.sent } })
        (record { timed = ok })
  event-IsTimedPair cancel_command s ok = record {
    timed = record { received = ok.received; sent = ok.sent };
  }
  event-IsTimedPair pause_command s ok = elim (Bool-cases (is_some s.pause_start)) [
    | inl paused ↦ simp paused (record { timed = ok })
    | inr running ↦
        simp running (record { timed = record { received = ok.received; sent = ok.sent } })
  ]
  event-IsTimedPair resume_command s ok = record { timed = resumed-IsTimed s.pause_start s ok }
  event-IsTimedPair reader_exited s ok = record { timed = ok }
  event-IsTimedPair (written n) s ok = record {
    timed = record { received = ok.received; sent = ok.sent };
  }

taken-IsTimed :
    (encode : Sample → ℕ) (current : Option Frame) (pending : Option Sample) (s : ReportLoop)
    → IsTimed s
    → IsTimed (take_pending encode current pending s).0
taken-IsTimed encode none none s ok = ok
taken-IsTimed encode none (some x) s ok = record { received = ok.received; sent = ok.sent }
taken-IsTimed encode (some f) pending s ok = ok

module _ (streams : ℕ) (c : ReportLoopConfig) (encode : Sample → ℕ) where
  step-IsTimed :
      (looked now : ℕ) (e : Event) (s : ReportLoop)
      → IsTimed s
      → IsTimed (step encode c looked now e s).0.0
  unfolding step
  step-IsTimed looked now e s ok = elim (Bool-cases (is_over c looked s)) [
    | inl over ↦ simp over ok
    | inr going ↦ simp going (
        (event-IsTimedPair c now e (take_pending encode s.current s.pending s).0
          (taken-IsTimed encode s.current s.pending s ok)).timed)
  ]

  run-IsTimed :
      (events : List (ℕ × ℕ × Event)) (s : ReportLoop)
      → IsTimed s
      → IsTimed (run streams c encode events s).0
  unfolding run
  run-IsTimed [] s ok = ok
  run-IsTimed ((looked, now, e) ∷ events) s ok =
      let after = step-IsTimed looked now e s ok in
      elim (Bool-cases (step encode c looked now e s).0.1) [
        | inl going ↦ simp going (run-IsTimed events (step encode c looked now e s).0.0 after)
        | inr over ↦ simp over after
      ]

some_of : (o : Option ℕ) → is_some o ≡ true → (t : ℕ) × (o ≡ some t)
some_of none h = absurd (cc)
some_of (some t) h = (t, refl)

both_of : (a b : Option ℕ) → is_some a ≡ true → is_some (max_option a b) ≡ true
both_of none b h = absurd (cc)
both_of (some a) none h = refl
both_of (some a) (some b) h = refl

ended_known :
    (d : TestDirection) (s : ReportLoop)
    → IsTimed s
    → budget_transfer_complete d s.client_finished s.server_send_done ≡ true
    → is_some (ended_at d s) ≡ true
unfolding budget_transfer_complete
ended_known upload s ok done = ok.received done
ended_known download s ok done = ok.sent done
ended_known bidir s ok done = both_of s.received_at s.sent_at (ok.received (ground (arith, done)))

ended_duration :
    (c : ReportLoopConfig) (now : ℕ) (t : ReportLoop) (end : ℕ)
    → c.byte_budget_test ≡ true
    → t.cancelled ≡ false
    → transfer_complete c t ≡ true
    → ended_at c.direction t ≡ some end
    → duration_ms c now t ≡ rounded_up (end / 1_000)
unfolding duration_ms transfer_end
ended_duration c now t end budgeted kept_on complete known =
    let of = of_end (elapsed_at now t) in
    let last = ended_at c.direction t in
    ap (λ b. of (if b || not c.byte_budget_test || not (transfer_complete c t) then none else last))
      kept_on
    ∙ ap (λ b. of (if not b || not (transfer_complete c t) then none else last)) budgeted
    ∙ ap (λ b. of (if not b then none else last)) complete
    ∙ ap of known

-- However a byte-budget test was reported, once its transfer is complete and it was not cancelled:
-- the end of the transfer is known, and the duration reported is at least one millisecond and no
-- shorter than the whole microseconds until that end.
pub run_duration :
    (streams : ℕ) (c : ReportLoopConfig) (encode : Sample → ℕ) (events : List (ℕ × ℕ × Event))
    (s : ReportLoop) (now : ℕ)
    → IsTimed s
    → c.byte_budget_test ≡ true
    → (run streams c encode events s).0.cancelled ≡ false
    → transfer_complete c (run streams c encode events s).0 ≡ true
    → let t = (run streams c encode events s).0 in
      (end : ℕ) × (ended_at c.direction t ≡ some end)
      × (1 ≤ duration_ms c now t)
      × (end / 1_000 ≤ 1_000 * duration_ms c now t)
unfolding duration_ms transfer_end
run_duration streams c encode events s now ok budgeted kept_on complete =
    let t = (run streams c encode events s).0 in
    let timed = run-IsTimed streams c encode events s ok in
    let (end, known) =
      some_of (ended_at c.direction t) (ended_known c.direction t timed complete) in
    let rounded = ended_duration c now t end budgeted kept_on complete known in
    (end, known, omega (arith, rounded), omega (arith, rounded))
