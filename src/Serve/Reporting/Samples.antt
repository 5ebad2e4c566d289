-- ===== src/Serve/Reporting/Samples.antt =====
-- The bytes of a test, in the frames of its reports and in the sample that the loop leaves.
use xfr.Prelude.{
  ℕ, ◌+◌, ◌≤◌, ◌≡◌, refl, ap, sym, subst, ◌∙◌, Option, none, some, List, [], ◌∷◌, ◌++◌, length,
  if◌then◌else◌, arith, inl, inr, ◌⊎◌, Bool-cases,
}
use xfr.Prelude.Words.{u64_max}
use xfr.Budget.Sequential.{sum_of}
use xfr.Stats.Stream.{IntervalStats}
use xfr.Stats.Intervals.{bytes_in}
use xfr.Serve.Reporting.{
  Sample, merge_intervals, merge, merged, ReportLoopConfig, ReportLoop, Frame, Event, deadline,
  drain_expired, recv_done, sending_done, tick, finish_command, cancel_command, pause_command,
  resume_command, reader_exited, written, is_over, on_event, take_pending, step,
}

abbrev pub sample_bytes : Sample → ℕ
sample_bytes x = bytes_in x.intervals

abbrev pub samples_bytes : List Sample → ℕ
samples_bytes [] = 0
samples_bytes (x ∷ xs) = sample_bytes x + samples_bytes xs

abbrev pub pending_bytes : Option Sample → ℕ
pending_bytes none = 0
pending_bytes (some x) = sample_bytes x

abbrev pub HasStreams : ℕ → Option Sample → Type 0
HasStreams n none = Unit
HasStreams n (some x) = length x.intervals ≡ n

merge_intervals_lem :
    (older newer : List IntervalStats)
    → length older ≡ length newer
    → bytes_in older + bytes_in newer ≤ u64_max
    → (bytes_in (merge_intervals older newer) ≡ bytes_in older + bytes_in newer)
      × (length (merge_intervals older newer) ≡ length older)
unfolding merge_intervals sum_of
merge_intervals_lem [] [] same fits = (omega arith, refl)
merge_intervals_lem [] (n ∷ newer) same fits = absurd (omega (arith, same))
merge_intervals_lem (o ∷ older) [] same fits = absurd (omega (arith, same))
merge_intervals_lem (o ∷ older) (n ∷ newer) same fits =
    let (bytes, kept) =
      merge_intervals_lem older newer (omega (arith, same)) (omega (arith, fits)) in
    (omega (arith, bytes, fits), omega (arith, kept))

merged_lem :
    (n : ℕ) (pending : Option Sample) (x : Sample)
    → HasStreams n pending
    → length x.intervals ≡ n
    → pending_bytes pending + sample_bytes x ≤ u64_max
    → (pending_bytes (merged pending x) ≡ pending_bytes pending + sample_bytes x)
      × HasStreams n (merged pending x)
unfolding merge
merged_lem n none x streams same fits = (omega arith, same)
merged_lem n (some p) x streams same fits =
    let (bytes, kept) =
      merge_intervals_lem p.intervals x.intervals (omega (arith, streams, same)) fits in
    (bytes, kept ∙ streams)

-- what an event captures
abbrev pub captured : ReportLoopConfig → ℕ → Event → ReportLoop → List Sample
captured c now (tick x) s = if is_over c now s then [] else x ∷ []
captured c now e s = []

abbrev pub ticks_of : Event → List Sample
ticks_of (tick x) = x ∷ []
ticks_of e = []

abbrev pub AllStreams : ℕ → List Sample → Type 0
AllStreams n [] = Unit
AllStreams n (x ∷ xs) = (length x.intervals ≡ n) × AllStreams n xs

-- an event that is no tick leaves the pending sample alone
event_pending :
    (c : ReportLoopConfig) (now : ℕ) (e : Event) (s : ReportLoop)
    → ticks_of e ≡ []
    → ((on_event c now e s).0.pending ≡ s.pending) × (captured c now e s ≡ [])
unfolding on_event
event_pending c now deadline s h = (refl, refl)
event_pending c now drain_expired s h = (ground arith, refl)
event_pending c now recv_done s h = (ground arith, refl)
event_pending c now sending_done s h = (ground arith, refl)
event_pending c now (tick x) s h = absurd (cc)
event_pending c now finish_command s h = (ground arith, refl)
event_pending c now cancel_command s h = (refl, refl)
event_pending c now pause_command s h = (ground arith, refl)
event_pending c now resume_command s h = (ground arith, refl)
event_pending c now reader_exited s h = (refl, refl)
event_pending c now (written n) s h = (refl, refl)

tick_cases : (e : Event) → (ticks_of e ≡ []) ⊎ ((x : Sample) × (e ≡ tick x))
tick_cases deadline = inl refl
tick_cases drain_expired = inl refl
tick_cases recv_done = inl refl
tick_cases sending_done = inl refl
tick_cases (tick x) = inr (x, refl)
tick_cases finish_command = inl refl
tick_cases cancel_command = inl refl
tick_cases pause_command = inl refl
tick_cases resume_command = inl refl
tick_cases reader_exited = inl refl
tick_cases (written n) = inl refl

captured_of_ticks :
    (c : ReportLoopConfig) (now : ℕ) (e : Event) (s : ReportLoop)
    → samples_bytes (captured c now e s) ≤ samples_bytes (ticks_of e)
captured_of_ticks c now e s = elim (tick_cases e) [
  | inl quiet ↦
      let none_captured = (event_pending c now e s quiet).1 in
      omega (arith, ap samples_bytes none_captured)
  | inr (x, is_tick) ↦
      subst (λ f. samples_bytes (captured c now f s) ≤ samples_bytes (ticks_of f)) (sym is_tick)
        (ground arith)
]

samples_bytes_append :
    (xs ys : List Sample) → samples_bytes (xs ++ ys) ≡ samples_bytes xs + samples_bytes ys
samples_bytes_append [] ys = omega arith
samples_bytes_append (x ∷ xs) ys = omega (arith, samples_bytes_append xs ys)

AllStreams-append :
    (n : ℕ) (xs ys : List Sample) → AllStreams n (xs ++ ys) → AllStreams n xs × AllStreams n ys
AllStreams-append n [] ys h = (tt, h)
AllStreams-append n (x ∷ xs) ys h =
    let (mine, theirs) = AllStreams-append n xs ys h.1 in ((h.0, mine), theirs)

module _ (streams : ℕ) (c : ReportLoopConfig) where
  tick_pending :
      (now : ℕ) (x : Sample) (s : ReportLoop)
      → HasStreams streams s.pending
      → length x.intervals ≡ streams
      → pending_bytes s.pending + sample_bytes x ≤ u64_max
      → let t = (on_event c now (tick x) s).0 in
        (pending_bytes t.pending
          ≡ pending_bytes s.pending + samples_bytes (captured c now (tick x) s))
        × HasStreams streams t.pending
  unfolding on_event
  tick_pending now x s ok same fits = elim (Bool-cases (is_over c now s)) [
    | inl over ↦ simp over (omega arith, ok)
    | inr going ↦
        let (bytes, kept) = merged_lem streams s.pending x ok same fits in
        simp going (omega (arith, bytes), kept)
  ]

  -- what an event adds to the pending sample is what it captures
  record Adds (now : ℕ) (s : ReportLoop) (e : Event) : Type 0 where
    pub bytes :
        pending_bytes (on_event c now e s).0.pending
        ≡ pending_bytes s.pending + samples_bytes (captured c now e s)
    pub kept : HasStreams streams (on_event c now e s).0.pending

  tick-Adds :
      (now : ℕ) (x : Sample) (s : ReportLoop)
      → HasStreams streams s.pending
      → AllStreams streams (ticks_of (tick x))
      → pending_bytes s.pending + samples_bytes (ticks_of (tick x)) ≤ u64_max
      → Adds now s (tick x)
  tick-Adds now x s ok same fits =
      let (bytes, kept) = tick_pending now x s ok same.0 (omega (arith, fits)) in
      record { bytes = bytes; kept = kept }

  quiet-Adds :
      (now : ℕ) (e : Event) (s : ReportLoop)
      → ticks_of e ≡ []
      → HasStreams streams s.pending
      → Adds now s e
  quiet-Adds now e s quiet ok =
      let (same, none_captured) = event_pending c now e s quiet in
      record {
        bytes = omega (arith, ap pending_bytes same, ap samples_bytes none_captured);
        kept = subst (HasStreams streams) (sym same) ok;
      }

  event-Adds :
      (now : ℕ) (e : Event) (s : ReportLoop)
      → HasStreams streams s.pending
      → AllStreams streams (ticks_of e)
      → pending_bytes s.pending + samples_bytes (ticks_of e) ≤ u64_max
      → Adds now s e
  event-Adds now e s ok same fits = elim (tick_cases e) [
    | inl quiet ↦ quiet-Adds now e s quiet ok
    | inr (x, is_tick) ↦ subst (Adds now s) (sym is_tick) (
        tick-Adds now x s ok (subst (λ f. AllStreams streams (ticks_of f)) is_tick same) (
          subst (λ f. pending_bytes s.pending + samples_bytes (ticks_of f) ≤ u64_max) is_tick fits))
  ]

  module _ (encode : Sample → ℕ) where
    taken_bytes :
        (current : Option Frame) (pending : Option Sample) (s : ReportLoop)
        → pending ≡ s.pending
        → HasStreams streams s.pending
        → let (t, framed) = take_pending encode current pending s in
          (samples_bytes framed + pending_bytes t.pending ≡ pending_bytes s.pending)
          × HasStreams streams t.pending
    taken_bytes none none s e ok = (omega arith, ok)
    taken_bytes none (some x) s e ok =
        let same : sample_bytes x ≡ pending_bytes s.pending = ap pending_bytes e in
        (omega (arith, same), tt)
    taken_bytes (some f) pending s e ok = (omega arith, ok)

    -- what a step captures
    abbrev pub captured_in : ℕ → ℕ → Event → ReportLoop → List Sample
    captured_in looked now e s =
        if is_over c looked s
        then []
        else captured c now e (take_pending encode s.current s.pending s).0

    step_bytes :
        (looked now : ℕ) (e : Event) (s : ReportLoop)
        → HasStreams streams s.pending
        → AllStreams streams (ticks_of e)
        → pending_bytes s.pending + samples_bytes (ticks_of e) ≤ u64_max
        → let r = step encode c looked now e s in
          (samples_bytes r.1 + pending_bytes r.0.0.pending
            ≡ pending_bytes s.pending + samples_bytes (captured_in looked now e s))
          × HasStreams streams r.0.0.pending
    unfolding step
    step_bytes looked now e s ok same fits = elim (Bool-cases (is_over c looked s)) [
      | inl over ↦ simp over (omega arith, ok)
      | inr going ↦
          let (bytes, kept) = taken_bytes s.current s.pending s refl ok in
          let adds =
            event-Adds now e (take_pending encode s.current s.pending s).0 kept same
              (omega (arith, bytes, fits)) in
          simp going (omega (arith, bytes, adds.bytes), adds.kept)
    ]

    -- the loop over what its iterations observe: the state, what was put into frames and what was
    -- captured
    unfoldable pub run : List (ℕ × ℕ × Event) → ReportLoop → ReportLoop × List Sample × List Sample
    unfolding step
    run [] s = (s, [], [])
    run ((looked, now, e) ∷ events) s =
        let r = step encode c looked now e s in
        let taken = captured_in looked now e s in
        let rest = run events r.0.0 in
        if r.0.1 then (rest.0, r.1 ++ rest.1, taken ++ rest.2) else (r.0.0, r.1, taken)

    abbrev pub ticks_in : List (ℕ × ℕ × Event) → List Sample
    ticks_in [] = []
    ticks_in ((looked, now, e) ∷ events) = ticks_of e ++ ticks_in events

    captured_fits :
        (looked now : ℕ) (e : Event) (s : ReportLoop)
        → samples_bytes (captured_in looked now e s) ≤ samples_bytes (ticks_of e)
    captured_fits looked now e s = elim (Bool-cases (is_over c looked s)) [
      | inl over ↦ simp over (omega arith)
      | inr going ↦
          simp going (captured_of_ticks c now e (take_pending encode s.current s.pending s).0)
    ]

    -- While the samples are of the streams of the test and their bytes do not pass 64 bits: every
    -- byte that the loop captures is in a frame or in the sample that it leaves pending, once.
    pub run_conserves :
        (events : List (ℕ × ℕ × Event)) (s : ReportLoop)
        → HasStreams streams s.pending
        → AllStreams streams (ticks_in events)
        → pending_bytes s.pending + samples_bytes (ticks_in events) ≤ u64_max
        → let r = run events s in
          samples_bytes r.1 + pending_bytes r.0.pending
          ≡ pending_bytes s.pending + samples_bytes r.2
    unfolding run
    run_conserves [] s ok same fits = omega arith
    run_conserves ((looked, now, e) ∷ events) s ok same fits =
        let split = samples_bytes_append (ticks_of e) (ticks_in events) in
        let (mine, theirs) = AllStreams-append streams (ticks_of e) (ticks_in events) same in
        let (bytes, kept) = step_bytes looked now e s ok mine (omega (arith, fits, split)) in
        let less = captured_fits looked now e s in
        let r = step encode c looked now e s in
        let taken = captured_in looked now e s in
        let rest = run events r.0.0 in
        elim (Bool-cases r.0.1) [
          | inl going ↦
              let total =
                run_conserves events r.0.0 kept theirs (omega (arith, fits, split, bytes, less)) in
              simp going (
                omega (
                  arith,
                  bytes,
                  total,
                  samples_bytes_append r.1 rest.1,
                  samples_bytes_append taken rest.2,
                ))
          | inr over ↦ simp over bytes
        ]
