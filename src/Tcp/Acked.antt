-- ===== src/Tcp/Acked.antt =====
-- src/tcp.rs, `wait_for_send_queue_acked` on Linux: the polling of the send queue at the end of a
-- byte-budget send.
use xfr.Prelude.{
  ℕ, ◌+◌, ◌*◌, ◌≤◌, ◌<◌, ◌≢◌, Bool, ◌||◌, List, [], ◌∷◌, length, leb, ◌==◌, if◌then◌else◌, arith,
  Bool-cases, inl, inr,
}

-- What one iteration observes. The queue is signed in the source; it is 0 here below 1.
pub record Poll : Type 0 where
  pub unknown : Bool  -- the ioctl failed
  pub queued : ℕ
  pub cancelled : Bool
  pub now : ℕ
  pub woken : Bool  -- the cancel channel ended the sleep

pub data Waiting : Type 0 where
  waiting : Waiting
  acked : Waiting  -- nothing is queued, or nothing can be known
  cancelled_wait : Waiting
  timed_out : Waiting

abbrev pub ack_wait_cap : ℕ
ack_wait_cap = 5_000_000_000

abbrev pub poll_sleep : ℕ
poll_sleep = 1_000_000

unfoldable pub wait_for_send_queue_acked : ℕ → List Poll → Waiting
wait_for_send_queue_acked started [] = waiting
wait_for_send_queue_acked started (p ∷ polls) =
    let rest = wait_for_send_queue_acked started polls in
    if p.unknown || p.queued == 0
    then acked
    else if p.cancelled
    then cancelled_wait
    else if leb (started + ack_wait_cap) p.now
    then timed_out
    else if p.woken
    then cancelled_wait
    else rest

-- Each poll is no earlier than the end of the sleep before it.
abbrev pub Ticks : ℕ → List Poll → Type 0
Ticks t [] = Unit
Ticks t (p ∷ polls) = (t ≤ p.now) × Ticks (p.now + poll_sleep) polls

-- The wait for the acknowledgement of the last bytes ends, whatever the socket and the peer do: it
-- is over once enough polls, each after a sleep, have been made to pass its cap.
pub wait_for_send_queue_acked_ends :
    (started t : ℕ) (polls : List Poll)
    → Ticks t polls
    → started + ack_wait_cap + poll_sleep ≤ t + length polls * poll_sleep
    → t < started + ack_wait_cap + poll_sleep
    → wait_for_send_queue_acked started polls ≢ waiting
unfolding wait_for_send_queue_acked
wait_for_send_queue_acked_ends started t [] ticks enough early = absurd (omega arith)
wait_for_send_queue_acked_ends started t (p ∷ polls) ticks enough early =
    elim (Bool-cases (leb (started + ack_wait_cap) p.now)) [
      | inl late ↦ ground arith
      | inr in_time ↦
          let rest =
            wait_for_send_queue_acked_ends started (p.now + poll_sleep) polls ticks.1
              (omega (arith, ticks.0)) (ground arith) in
          ground (arith, rest)
    ]
