-- ===== src/Serve/Reporting.antt =====
-- src/serve/reporting.rs: the loop that reports a running test to the client. What ends a wait of its
-- `select!` is an event; an arm whose condition fails changes nothing. A frame is the sample in it and
-- its bytes left to write; the encoding gives their number. Times are nanoseconds of one clock.
pub mod Samples
pub mod Ending
mod Examples
use xfr.Prelude.{
  ℕ, ◌+◌, ◌-◌, ◌*◌, ◌/◌, ◌≡◌, max, Bool, true, false, not, ◌&&◌, ◌||◌, Option, none, some, List, [],
  ◌∷◌, ◌++◌, leb, ltb, ◌==◌, if◌then◌else◌,
}
use xfr.Prelude.Words.{saturating_add}
use xfr.Stats.Stream.{IntervalStats}
use xfr.Serve.Timeouts.{
  Protocol, tcp, udp, quic, TestDirection, upload, download, bidir, budget_transfer_complete,
  finish_drain_grace,
}

pub record Sample : Type 0 where
  pub intervals : List IntervalStats
  pub durations : List ℕ
  pub elapsed_ms : ℕ

-- the increases add up, the rest is the newest
abbrev pub merge_interval : IntervalStats → IntervalStats → IntervalStats
merge_interval older newer = record newer {
  bytes = saturating_add older.bytes newer.bytes;
  retransmits = saturating_add older.retransmits newer.retransmits;
  lost = saturating_add older.lost newer.lost;
  bytes_sent = saturating_add older.bytes_sent newer.bytes_sent;
  bytes_received = saturating_add older.bytes_received newer.bytes_received;
}

-- stream by stream, as far as both go
unfoldable pub merge_intervals : List IntervalStats → List IntervalStats → List IntervalStats
merge_intervals [] newer = []
merge_intervals (o ∷ older) [] = o ∷ older
merge_intervals (o ∷ older) (n ∷ newer) = merge_interval o n ∷ merge_intervals older newer

unfoldable pub add_durations : List ℕ → List ℕ → List ℕ
add_durations [] newer = []
add_durations (o ∷ older) [] = o ∷ older
add_durations (o ∷ older) (n ∷ newer) = (o + n) ∷ add_durations older newer

unfoldable pub merge : Sample → Sample → Sample
unfolding merge_intervals add_durations
merge older newer = record {
  intervals = merge_intervals older.intervals newer.intervals;
  durations = add_durations older.durations newer.durations;
  elapsed_ms = newer.elapsed_ms;
}

abbrev pub paused_for : ℕ → Option ℕ → ℕ
paused_for now none = 0
paused_for now (some p) = now - p

abbrev pub active_elapsed : ℕ → ℕ → ℕ → Option ℕ → ℕ
active_elapsed now start paused_total pause_start =
    (now - start) - (paused_total + paused_for now pause_start)

pub record ReportLoopConfig : Type 0 where
  pub protocol : Protocol
  pub duration : ℕ
  pub direction : TestDirection
  pub byte_budget_test : Bool
  pub end_on_server_send : Bool

pub record Frame : Type 0 where
  pub sample : Sample
  pub left : ℕ

pub record ReportLoop : Type 0 where
  pub start : ℕ
  pub paused_total : ℕ
  pub pause_start : Option ℕ
  pub current : Option Frame
  pub pending : Option Sample
  pub cancelled : Bool
  pub client_finished : Bool
  pub server_send_done : Bool
  pub drain_until : Option ℕ
  pub received_at : Option ℕ
  pub sent_at : Option ℕ

pub data Event : Type 0 where
  deadline : Event
  drain_expired : Event
  recv_done : Event
  sending_done : Event
  tick : Sample → Event
  finish_command : Event
  cancel_command : Event
  pause_command : Event
  resume_command : Event
  reader_exited : Event
  written : ℕ → Event  -- so many bytes of the frame, one at least

abbrev pub is_some {ℓ} : {A : Type ℓ} → Option A → Bool
is_some none = false
is_some (some a) = true

abbrev pub is_udp : Protocol → Bool
is_udp udp = true
is_udp tcp = false
is_udp quic = false

abbrev pub elapsed_at : ℕ → ReportLoop → ℕ
elapsed_at now s = active_elapsed now s.start s.paused_total s.pause_start

-- Option::get_or_insert
abbrev pub get_or_insert : Option ℕ → ℕ → Option ℕ
get_or_insert none n = some n
get_or_insert (some m) n = some m

abbrev pub transfer_complete : ReportLoopConfig → ReportLoop → Bool
transfer_complete c s = budget_transfer_complete c.direction s.client_finished s.server_send_done

-- whether the loop goes on
abbrev unless_complete : ReportLoopConfig → ReportLoop → ReportLoop × Bool
unless_complete c s = (s, not (transfer_complete c s))

abbrev pub drained : ℕ → ReportLoop → ReportLoop
drained now s = record s {
  client_finished = true;
  received_at = get_or_insert s.received_at (elapsed_at now s);
  drain_until = none;
}

abbrev pub merged : Option Sample → Sample → Option Sample
merged none sample = some sample
merged (some pending) sample = some (merge pending sample)

abbrev pub is_over : ReportLoopConfig → ℕ → ReportLoop → Bool
is_over c now s = not (c.duration == 0) && leb c.duration (elapsed_at now s)

abbrev pub resumed : ℕ → Option ℕ → ReportLoop → ReportLoop
resumed now none s = s
resumed now (some p) s = record s { pause_start = none; paused_total = s.paused_total + (now - p) }

abbrev after_write : ℕ → Option Frame → Option Frame
after_write n none = none
after_write n (some f) = if leb f.left n then none else some (record f { left = f.left - n })

unfoldable pub on_event : ReportLoopConfig → ℕ → Event → ReportLoop → ReportLoop × Bool
unfolding merge
on_event c now deadline s = (s, c.duration == 0 || is_some s.pause_start)
on_event c now drain_expired s =
    if is_some s.drain_until then unless_complete c (drained now s) else (s, true)
on_event c now recv_done s =
    if is_some s.drain_until
    then unless_complete c (drained now s)
    else if c.byte_budget_test && not (is_udp c.protocol) && not (is_some s.received_at)
    then (record s { received_at = get_or_insert s.received_at (elapsed_at now s) }, true)
    else (s, true)
on_event c now sending_done s =
    if c.end_on_server_send && not s.server_send_done
    then unless_complete c (record s { server_send_done = true; sent_at = some (elapsed_at now s) })
    else (s, true)
on_event c now (tick sample) s =
    if is_over c now s then (s, false) else (record s { pending = merged s.pending sample }, true)
on_event c now finish_command s =
    if c.byte_budget_test && not s.client_finished && not (is_some s.drain_until)
    then (record s { drain_until = some (now + finish_drain_grace c.protocol * 1_000_000) }, true)
    else (s, true)
on_event c now cancel_command s = (record s { cancelled = true }, false)
on_event c now pause_command s =
    (if is_some s.pause_start then s else record s { pause_start = some now }, true)
on_event c now resume_command s = (resumed now s.pause_start s, true)
on_event c now reader_exited s = (s, false)
on_event c now (written n) s = (record s { current = after_write n s.current }, true)

-- with the number of bytes that a sample is encoded in
module _ (encode : Sample → ℕ) where
  -- a pending sample goes into a frame where none is being written; the sample is also an output
  abbrev pub take_pending : Option Frame → Option Sample → ReportLoop → ReportLoop × List Sample
  take_pending none (some sample) s = (
    record s { current = some (record { sample = sample; left = encode sample }); pending = none },
    sample ∷ [],
  )
  take_pending none none s = (s, [])
  take_pending (some f) pending s = (s, [])

  -- an iteration, from its first look at the clock to the event: whether it goes on, and what was
  -- put into frames
  unfoldable pub step :
      ReportLoopConfig → ℕ → ℕ → Event → ReportLoop → (ReportLoop × Bool) × List Sample
  unfolding on_event
  step c looked now e s =
      let (taken, framed) = take_pending s.current s.pending s in
      if is_over c looked s then ((s, false), []) else (on_event c now e taken, framed)

-- how the loop ends
abbrev pub max_option : Option ℕ → Option ℕ → Option ℕ
max_option none b = b
max_option (some a) none = some a
max_option (some a) (some b) = some (max a b)

abbrev pub ended_at : TestDirection → ReportLoop → Option ℕ
ended_at upload s = s.received_at
ended_at download s = s.sent_at
ended_at bidir s = max_option s.received_at s.sent_at

unfoldable pub transfer_end : ReportLoopConfig → ReportLoop → Option ℕ
transfer_end c s =
    if s.cancelled || not c.byte_budget_test || not (transfer_complete c s)
    then none
    else ended_at c.direction s

abbrev pub rounded_up : ℕ → ℕ
rounded_up micros = max ((micros + 999) / 1000) 1

abbrev pub of_end : ℕ → Option ℕ → ℕ
of_end elapsed none = elapsed / 1_000_000
of_end elapsed (some end) = rounded_up (end / 1_000)

-- with the clock when it is read
unfoldable pub duration_ms : ReportLoopConfig → ℕ → ReportLoop → ℕ
unfolding transfer_end
duration_ms c now s = of_end (elapsed_at now s) (transfer_end c s)

-- the sample that is still to be sent once the loop is over
unfoldable pub last_pending : ReportLoop → Option Sample
last_pending s = if s.cancelled then none else s.pending
