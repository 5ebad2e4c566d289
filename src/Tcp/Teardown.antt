-- ===== src/Tcp/Teardown.antt =====
-- src/tcp.rs: which errors end a stream quietly, and what is counted once it has ended. Instants
-- are nanoseconds of one clock.
use xfr.Prelude.{
  ℕ, ◌+◌, ◌-◌, ◌*◌, ◌/◌, ◌%◌, ◌≤◌, ◌<◌, ◌≡◌, min, max, Bool, true, false, not, ◌&&◌, ◌||◌, Option,
  none, some, ltb, leb, ◌==◌, if◌then◌else◌, arith,
}
use xfr.Prelude.Words.{u64_max, u64_mod, saturating_add}

-- `io::ErrorKind`, as far as it is told apart
pub data ErrorKind : Type 0 where
  connection_reset : ErrorKind
  broken_pipe : ErrorKind
  connection_aborted : ErrorKind
  would_block : ErrorKind
  unsupported : ErrorKind
  invalid_input : ErrorKind
  other_error : ErrorKind

unfoldable pub is_peer_closed_error : ErrorKind → Bool
is_peer_closed_error connection_reset = true
is_peer_closed_error broken_pipe = true
is_peer_closed_error connection_aborted = true
is_peer_closed_error would_block = false
is_peer_closed_error unsupported = false
is_peer_closed_error invalid_input = false
is_peer_closed_error other_error = false

unfoldable pub should_end_receive_after_error : ErrorKind → Bool → Bool → Bool
should_end_receive_after_error err cancel_requested expected_teardown =
    cancel_requested || (expected_teardown && is_peer_closed_error err)

abbrev pub send_teardown_grace : ℕ
send_teardown_grace = 250_000_000

-- (deadline reached, near the deadline)
unfoldable pub receive_teardown_window : ℕ → ℕ → ℕ → Bool × Bool
receive_teardown_window start now duration =
    if duration == 0
    then (false, false)
    else let deadline = start + duration in
      let deadline_reached = leb deadline now in
      (
        deadline_reached,
        not deadline_reached
            && ltb send_teardown_grace duration
            && leb (deadline - now) send_teardown_grace,
      )

pub record TcpInfoSnapshot : Type 0 where
  pub retransmits : ℕ  -- u64
  pub rtt_us : ℕ  -- u32
  pub rtt_var_us : ℕ  -- u32
  pub cwnd : ℕ  -- u32
  pub bytes_acked : Option ℕ  -- u64

-- the counters of a stream that the end of a send touches
pub record SendStats : Type 0 where
  pub bytes_sent : ℕ  -- u64
  pub retransmits : ℕ  -- u64

-- `fetch_add` wraps
abbrev pub add_retransmits : ℕ → SendStats → SendStats
add_retransmits n stats = record stats { retransmits = (stats.retransmits + n) % u64_mod }

abbrev pub clamped : ℕ → Option ℕ → ℕ
clamped sent none = sent
clamped sent (some acked) = if ltb acked sent then acked else sent

unfoldable pub clamp_bytes_sent_to_acked : SendStats → TcpInfoSnapshot → SendStats
clamp_bytes_sent_to_acked stats info = record stats {
  bytes_sent = clamped stats.bytes_sent info.bytes_acked;
}

-- the retransmits of the earlier snapshot are counted already
abbrev pub counted : Option TcpInfoSnapshot → ℕ
counted none = 0
counted (some b) = b.retransmits

unfoldable pub refresh_after_ack_wait :
    SendStats → Option TcpInfoSnapshot → Option TcpInfoSnapshot → SendStats × Option TcpInfoSnapshot
refresh_after_ack_wait stats before none = (stats, before)
refresh_after_ack_wait stats before (some after) =
    (add_retransmits (after.retransmits - counted before) stats, some after)

-- `pacing_rate_bytes_per_sec`, with a c_ulong of 64 bits
unfoldable pub pacing_rate_bytes_per_sec : ℕ → ℕ
pacing_rate_bytes_per_sec bitrate_bps =
    if bitrate_bps == 0 then 0 else saturating_add bitrate_bps 7 / 8

abbrev pub paced_size : ℕ → ℕ → ℕ
paced_size buffer_size bps = min buffer_size (max (bps / 8 / 10) 1)

-- the send buffer's length in `send_data`
unfoldable pub send_buffer_len : ℕ → Option ℕ → ℕ
send_buffer_len buffer_size none = buffer_size
send_buffer_len buffer_size (some bps) =
    if ltb 0 bps then paced_size buffer_size bps else buffer_size

-- the end of `send_data`: a first snapshot, and for a byte-budget test a second one after its wait
abbrev pub first_snapshot : Bool → Option TcpInfoSnapshot → SendStats → SendStats
first_snapshot has_budget none stats = stats
first_snapshot has_budget (some info) stats =
    let counted_stats = add_retransmits info.retransmits stats in
    if has_budget then counted_stats else clamp_bytes_sent_to_acked counted_stats info

unfoldable pub finish_send :
    Bool
    → Option TcpInfoSnapshot
    → Option TcpInfoSnapshot
    → SendStats
    → SendStats × Option TcpInfoSnapshot
unfolding clamp_bytes_sent_to_acked refresh_after_ack_wait
finish_send has_budget before after stats =
    let first = first_snapshot has_budget before stats in
    if has_budget then refresh_after_ack_wait first before after else (first, before)

-- The send buffer is never empty where the configured one is not.
pub send_buffer_len_pos :
    (buffer_size : ℕ) (bitrate : Option ℕ)
    → 0 < buffer_size
    → 0 < send_buffer_len buffer_size bitrate
unfolding send_buffer_len
send_buffer_len_pos buffer_size none h = h
send_buffer_len_pos buffer_size (some bps) h = ground arith

-- The kernel's rate of bytes carries the bitrate asked for and less than one byte a second more,
-- and a positive bitrate never becomes the zero that turns pacing off.
pub pacing_rate_covers :
    (bitrate_bps : ℕ)
    → 0 < bitrate_bps
    → bitrate_bps + 7 ≤ u64_max
    → let rate = pacing_rate_bytes_per_sec bitrate_bps in
      (0 < rate) × (bitrate_bps ≤ 8 * rate) × (8 * rate < bitrate_bps + 8)
unfolding pacing_rate_bytes_per_sec
pacing_rate_covers bitrate_bps h fits = ground arith

-- A byte-budget test counts each retransmit of its stream once, those seen while it waited for
-- acknowledgement included, and leaves the bytes sent as they were; a timed test counts the
-- retransmits of its one snapshot and lowers the bytes sent to those acknowledged.
pub finish_send_lem :
    (has_budget : Bool) (before after : TcpInfoSnapshot) (acked : ℕ) (stats : SendStats)
    → before.bytes_acked ≡ some acked
    → before.retransmits ≤ after.retransmits
    → stats.retransmits + after.retransmits ≤ u64_max
    → let ended = (finish_send has_budget (some before) (some after) stats).0 in
      ended ≡ (
        if has_budget
        then record {
          bytes_sent = stats.bytes_sent;
          retransmits = stats.retransmits + after.retransmits;
        }
        else record {
          bytes_sent = min stats.bytes_sent acked;
          retransmits = stats.retransmits + before.retransmits;
        })
unfolding finish_send
finish_send_lem true before after acked stats e grows fits = ground arith
finish_send_lem false before after acked stats e grows fits = ground arith
