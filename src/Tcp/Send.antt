-- ===== src/Tcp/Send.antt =====
-- src/tcp.rs, the loop of `send_data`. What the loop observes in one iteration is a `Round`: the
-- cancel and pause channels, the clock, and which arm of the `select!` around the write is ready
-- first. The budget is the stream's own view of it, with no other sender between the claim and the
-- refund of one iteration. The rate comparison of the pacing is floating point, so its outcome is
-- observed too.
pub mod Budgeted
pub mod Delivery
use xfr.Prelude.{
  ℕ, ◌+◌, ◌-◌, ◌%◌, min, Bool, true, false, not, ◌&&◌, ◌||◌, Option, none, some, List, [], ◌∷◌, ltb,
  leb, ◌==◌, if◌then◌else◌,
}
use xfr.Prelude.Words.{u64_mod}
use xfr.Budget.{ByteBudget, claim_or_full, refund_unwritten}
use xfr.Tcp.Teardown.{
  ErrorKind, unsupported, invalid_input, is_peer_closed_error, send_teardown_grace, clamped,
}

pub data Race : Type 0 where
  cancel_changed : Race
  pause_changed : Race
  deadline_passed : Race
  wrote : ℕ → Race  -- `write_chunk` took the slice, or so many bytes of it
  failed_write : ErrorKind → Race

pub record Round : Type 0 where
  pub cancelled : Bool  -- *cancel.borrow() at the top
  pub paused : Option (Bool × ℕ)  -- paused: wait_while_paused_timed's answer
  pub now : ℕ  -- the clock at the top, or after the pause
  pub race : Race
  pub overshoot : Bool  -- more was sent than the rate expects
  pub sleep_cancelled : Bool  -- the pacing sleep was ended by the cancel channel
  pub failed_at : ℕ  -- the clock after a failed write
  pub cancelled_after : Bool  -- *cancel.borrow() after a failed write
  pub acked : Option ℕ  -- the bytes acknowledged, where TCP_INFO has them, after a failed write

pub record SendConfig : Type 0 where
  pub buffer_len : ℕ
  pub is_infinite : Bool
  pub paces : Bool  -- a positive bitrate without kernel pacing

pub record SendLoop : Type 0 where
  pub budget : Option ByteBudget
  pub bytes_sent : ℕ  -- u64
  pub chunk_offset : ℕ
  pub deadline : ℕ
  pub pace_start : ℕ
  pub pace_bytes_offset : ℕ
  pub zerocopy : Bool
  pub suppressed_teardown_errors : ℕ

pub data Flow : Type 0 where
  running : Flow
  ended : Flow
  failed : Flow

abbrev wraps_at : ℕ → ℕ → ℕ
wraps_at len offset = if leb len offset then 0 else offset

abbrev give_back : Option ByteBudget → ℕ → ℕ → SendLoop → SendLoop
give_back budget claimed written s = record s { budget = refund_unwritten budget claimed written }

-- a write of `n` bytes
abbrev after_write : SendConfig → Option ByteBudget → ℕ → ℕ → SendLoop → SendLoop
after_write c budget claimed n s = record s {
  budget = refund_unwritten budget claimed n;
  bytes_sent = (s.bytes_sent + n) % u64_mod;
  chunk_offset = wraps_at c.buffer_len (s.chunk_offset + n);
}

-- sendfile rejected: fall back to writes
abbrev pub is_demotion : Bool → ErrorKind → Bool
is_demotion zerocopy unsupported = zerocopy
is_demotion zerocopy invalid_input = zerocopy
is_demotion zerocopy e = false

-- a teardown error is one near the end
abbrev pub is_teardown : SendConfig → ℕ → Round → ErrorKind → Bool
is_teardown c deadline r e =
    r.cancelled_after
    || (not c.is_infinite && leb deadline r.failed_at)
    || (is_peer_closed_error e
        && (not c.is_infinite && leb deadline (r.failed_at + send_teardown_grace)))

unfoldable pub after_error :
    SendConfig → Option ByteBudget → ℕ → Round → ErrorKind → SendLoop → SendLoop × Flow
unfolding is_peer_closed_error
after_error c budget claimed r e s =
    let back = give_back budget claimed 0 s in
    if is_demotion s.zerocopy e
    then (record back { zerocopy = false }, running)
    else if is_teardown c s.deadline r e
    then (
      record back {
        suppressed_teardown_errors =
            if is_peer_closed_error e
            then s.suppressed_teardown_errors + 1
            else s.suppressed_teardown_errors;
      },
      ended,
    )
    else (record back { bytes_sent = clamped back.bytes_sent r.acked }, failed)

-- the `select!`; a write takes at most the slice
unfoldable pub after_race :
    SendConfig → Option ByteBudget → ℕ → Round → Race → SendLoop → SendLoop × Flow
after_race c budget claimed r cancel_changed s = (give_back budget claimed 0 s, ended)
after_race c budget claimed r pause_changed s = (give_back budget claimed 0 s, running)
after_race c budget claimed r deadline_passed s = (give_back budget claimed 0 s, ended)
after_race c budget claimed r (wrote n) s = (
  after_write c budget claimed (min n claimed) s,
  if c.paces && r.overshoot && r.sleep_cancelled then ended else running,
)
after_race c budget claimed r (failed_write e) s = after_error c budget claimed r e s

-- a claim that took nothing ends the loop; without other senders every claim returns
abbrev on_claim : SendConfig → Round → SendLoop → Option ByteBudget → Option ℕ → SendLoop × Flow
on_claim c r s budget none = (record s { budget = budget }, running)
on_claim c r s budget (some claimed) =
    if claimed == 0
    then (record s { budget = budget }, ended)
    else after_race c budget claimed r r.race s

abbrev attempt_write : SendConfig → Round → SendLoop → SendLoop × Flow
attempt_write c r s =
    let claim = claim_or_full s.budget (c.buffer_len - s.chunk_offset) in
    on_claim c r s claim.0 claim.1

-- a resumed stream has its deadline moved and its pacing baseline reset
abbrev resumed : ℕ → Round → SendLoop → SendLoop
resumed paused r s = record s {
  deadline = s.deadline + paused;
  pace_start = r.now;
  pace_bytes_offset = s.bytes_sent;
}

unfoldable pub on_pause : SendConfig → Round → Option (Bool × ℕ) → SendLoop → SendLoop × Flow
on_pause c r (some (true, paused)) s = (s, ended)
on_pause c r (some (false, paused)) s = (resumed paused r s, running)
on_pause c r none s =
    if not c.is_infinite && leb s.deadline r.now then (s, ended) else attempt_write c r s

-- one iteration
unfoldable pub round : SendConfig → Round → SendLoop → SendLoop × Flow
unfolding on_pause after_race after_error
round c r s = if r.cancelled then (s, ended) else on_pause c r r.paused s

abbrev pub continue_with : (SendLoop → SendLoop × Flow) → SendLoop × Flow → SendLoop × Flow
continue_with rest (s, running) = rest s
continue_with rest (s, ended) = (s, ended)
continue_with rest (s, failed) = (s, failed)

-- the loop over the iterations observed so far
unfoldable pub send_loop : SendConfig → List Round → SendLoop → SendLoop × Flow
send_loop c [] s = (s, running)
send_loop c (r ∷ rounds) s = continue_with (send_loop c rounds) (round c r s)
