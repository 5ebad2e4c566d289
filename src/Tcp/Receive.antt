-- ===== src/Tcp/Receive.antt =====
-- src/tcp.rs, the loop of `receive_data` and the draining after a cancel. What a loop observes in
-- one iteration is an `Arrival`; the clock and the cancel flag are those read with it.
use xfr.Prelude.{
  ℕ, ◌+◌, ◌-◌, ◌%◌, ◌≤◌, ◌≡◌, refl, ◌∙◌, Bool, true, false, not, ◌&&◌, ◌||◌, List, [], ◌∷◌, ◌++◌,
  map, ltb, leb, ◌==◌, if◌then◌else◌, arith, ◌≢◌,
}
use xfr.Prelude.Words.{u64_max, u64_mod}
use xfr.Budget.Sequential.{sum_of}
use xfr.Tcp.Teardown.{
  ErrorKind, would_block, is_peer_closed_error, should_end_receive_after_error,
  receive_teardown_window, send_teardown_grace,
}

pub data Arrival : Type 0 where
  end_of_file : Arrival
  bytes : ℕ → Arrival
  read_error : ErrorKind → Bool → ℕ → Arrival  -- *cancel.borrow() and the clock
  cancel_changed : Bool → Bool → Arrival  -- the channel is closed; *cancel.borrow()

pub record Receiving : Type 0 where
  pub bytes_received : ℕ  -- u64
  pub cancelled : Bool
  pub suppressed_teardown_errors : ℕ

pub data Reading : Type 0 where
  reading : Reading
  finished : Reading
  broken : ErrorKind → Reading

abbrev pub is_would_block : ErrorKind → Bool
is_would_block would_block = true
is_would_block e = false

abbrev pub expected_teardown : Bool × Bool → Bool
expected_teardown window = window.0 || window.1

unfoldable pub on_read_error : ℕ → ℕ → ErrorKind → Bool → ℕ → Receiving → Receiving × Reading
on_read_error start duration e cancel_requested now s =
    if is_would_block e
    then (s, reading)
    else if should_end_receive_after_error e cancel_requested
        (expected_teardown (receive_teardown_window start now duration))
    then (
      record s {
        cancelled = cancel_requested;
        suppressed_teardown_errors =
            if is_peer_closed_error e
            then s.suppressed_teardown_errors + 1
            else s.suppressed_teardown_errors;
      },
      finished,
    )
    else (s, broken e)

-- the `select!`
unfoldable pub on_arrival : ℕ → ℕ → Arrival → Receiving → Receiving × Reading
on_arrival start duration end_of_file s = (s, finished)
on_arrival start duration (bytes n) s =
    (record s { bytes_received = (s.bytes_received + n) % u64_mod }, reading)
on_arrival start duration (read_error e cancel_requested now) s =
    on_read_error start duration e cancel_requested now s
on_arrival start duration (cancel_changed closed requested) s =
    if closed || requested then (record s { cancelled = true }, finished) else (s, reading)

abbrev pub carry_on : (Receiving → Receiving × Reading) → Receiving × Reading → Receiving × Reading
carry_on rest (s, reading) = rest s
carry_on rest (s, finished) = (s, finished)
carry_on rest (s, broken e) = (s, broken e)

unfoldable pub receive_loop : ℕ → ℕ → List Arrival → Receiving → Receiving × Reading
receive_loop start duration [] s = (s, reading)
receive_loop start duration (a ∷ arrivals) s =
    carry_on (receive_loop start duration arrivals) (on_arrival start duration a s)

-- What a read of the draining gave; no bytes are the end of the file.
pub data Drained : Type 0 where
  drained_bytes : ℕ → Drained
  drained_error : ErrorKind → Drained
  grace_elapsed : Drained

abbrev pub receive_cancel_drain_grace : ℕ
receive_cancel_drain_grace = 200_000_000

abbrev drained_on : (ℕ → ℕ) → ℕ → Drained → ℕ
drained_on rest drained (drained_bytes n) = if n == 0 then drained else rest (drained + n)
drained_on rest drained (drained_error e) = if is_would_block e then rest drained else drained
drained_on rest drained grace_elapsed = drained

-- each read with the clock before it
unfoldable pub drain_after_cancel : ℕ → List (ℕ × Drained) → ℕ → ℕ
drain_after_cancel started [] drained = drained
drain_after_cancel started ((now, read) ∷ reads) drained =
    if leb (started + receive_cancel_drain_grace) now
    then drained
    else drained_on (drain_after_cancel started reads) drained read

-- the instant from which a peer may close the connection
abbrev pub peer_may_close : ℕ → ℕ → ℕ
peer_may_close start duration =
    if ltb send_teardown_grace duration
    then start + duration - send_teardown_grace
    else start + duration

teardown_window_lem :
    (start now duration : ℕ)
    → expected_teardown (receive_teardown_window start now duration)
      ≡ (not (duration == 0) && leb (peer_may_close start duration) now)
unfolding receive_teardown_window
teardown_window_lem start now duration = ground arith

pub on_read_error_lem :
    (start duration now : ℕ) (e : ErrorKind) (cancel_requested : Bool) (s : Receiving)
    → let outcome = on_read_error start duration e cancel_requested now s in
      let quiet =
        cancel_requested
        || (not (duration == 0)
            && leb (peer_may_close start duration) now
            && is_peer_closed_error e) in
      (outcome.1 ≡ (if is_would_block e then reading else if quiet then finished else broken e))
      × (outcome.0.bytes_received ≡ s.bytes_received)
unfolding on_read_error should_end_receive_after_error
on_read_error_lem start duration now e cancel_requested s =
    let window = teardown_window_lem start now duration in ground (arith, window)

module _ (start duration : ℕ) where
  stopped :
      (rest : Receiving → Receiving × Reading) (p : Receiving × Reading)
      → p.1 ≢ reading
      → carry_on rest p ≡ p
  stopped rest (s, reading) h = absurd (h refl)
  stopped rest (s, finished) h = refl
  stopped rest (s, broken e) h = refl

  error_keeps_bytes :
      (e : ErrorKind) (cancel_requested : Bool) (now : ℕ) (s : Receiving)
      → (on_read_error start duration e cancel_requested now s).0.bytes_received ≡ s.bytes_received
  error_keeps_bytes e cancel_requested now s =
      (on_read_error_lem start duration now e cancel_requested s).1

  last_keeps_bytes :
      (last : Arrival) (s : Receiving)
      → (on_arrival start duration last s).1 ≢ reading
      → (on_arrival start duration last s).0.bytes_received ≡ s.bytes_received
  unfolding on_arrival
  last_keeps_bytes end_of_file s h = refl
  last_keeps_bytes (bytes n) s h = absurd (h refl)
  last_keeps_bytes (read_error e cancel_requested now) s h =
      error_keeps_bytes e cancel_requested now s
  last_keeps_bytes (cancel_changed closed requested) s h = ground arith

  -- A receive loop whose reads gave bytes until an arrival that ends it, in whatever way, counts the
  -- bytes of those reads, and nothing that arrives later.
  pub receive_loop_counts :
      (ns : List ℕ) (last : Arrival) (later : List Arrival) (s : Receiving)
      → ((t : Receiving) → (on_arrival start duration last t).1 ≢ reading)
      → s.bytes_received + sum_of ns ≤ u64_max
      → let ended = receive_loop start duration (map bytes ns ++ last ∷ later) s in
        (ended.0.bytes_received ≡ s.bytes_received + sum_of ns) × (ended.1 ≢ reading)
  unfolding receive_loop on_arrival sum_of
  receive_loop_counts [] last later s ends fits =
      rw (stopped (receive_loop start duration later) (on_arrival start duration last s) (ends s))
        (last_keeps_bytes last s (ends s) ∙ omega arith, ends s)
  receive_loop_counts (n ∷ ns) last later s ends fits =
      let t : Receiving = record s { bytes_received = (s.bytes_received + n) % u64_mod } in
      let kept : t.bytes_received ≡ s.bytes_received + n = omega arith in
      let (sum, done) = receive_loop_counts ns last later t ends (omega arith) in
      (sum ∙ omega arith, done)
