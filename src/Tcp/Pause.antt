-- ===== src/Tcp/Pause.antt =====
-- src/pause.rs: waiting while a stream is paused.
use xfr.Prelude.{
  ℕ, ◌-◌, ◌≡◌, ◌∙◌, Bool, true, false, not, ◌&&◌, ◌||◌, Option, none, some, List, [], ◌∷◌, ◌++◌,
  if◌then◌else◌, arith,
}

-- What an iteration sees of the two `watch` channels: the pause channel before the `select!`, and
-- the arm that is ready first.
pub data Wake : Type 0 where
  cancel_woke : Bool → Bool → Wake  -- the channel is closed; *cancel.borrow()
  pause_woke : Bool → Wake  -- the channel is closed

pub record Pause : Type 0 where
  pub value : Bool  -- *pause.borrow()
  pub has_sender : Bool  -- pause.has_changed() is not an error

abbrev pub channel_is_open : Pause → Bool
channel_is_open pause = pause.has_sender

unfoldable pub is_paused : Pause → Bool
is_paused pause = pause.value && channel_is_open pause

abbrev on_wake : Option Bool → Wake → Option Bool
on_wake rest (cancel_woke closed requested) = if closed || requested then some true else rest
on_wake rest (pause_woke closed) = if closed then some false else rest

-- none: still waiting when the observations end
unfoldable pub wait_while_paused : List (Pause × Wake) → Option Bool
wait_while_paused [] = none
wait_while_paused ((pause, wake) ∷ rounds) =
    let rest = wait_while_paused rounds in if is_paused pause then on_wake rest wake else some false

abbrev timed : ℕ → ℕ → Option Bool → Option (Bool × ℕ)
timed pause_start now none = none
timed pause_start now (some cancelled) = some (cancelled, now - pause_start)

-- with the clock before and after the wait
unfoldable pub wait_while_paused_timed : ℕ → ℕ → List (Pause × Wake) → Option (Bool × ℕ)
unfolding wait_while_paused
wait_while_paused_timed pause_start now rounds = timed pause_start now (wait_while_paused rounds)

-- A round in which the stream stays paused: the pause channel is true and has its sender, and what
-- woke the wait was a change of a channel that neither cancelled nor closed.
abbrev pub stays_paused : Pause × Wake → Bool
stays_paused (pause, cancel_woke closed requested) = is_paused pause && not (closed || requested)
stays_paused (pause, pause_woke closed) = is_paused pause && not closed

abbrev pub is_cancel : Wake → Bool
is_cancel (cancel_woke closed requested) = true
is_cancel (pause_woke closed) = false

abbrev pub AllStay : List (Pause × Wake) → Type 0
AllStay [] = Unit
AllStay (r ∷ rounds) = (stays_paused r ≡ true) × AllStay rounds

stays_lem :
    (pause : Pause) (wake : Wake) (rounds : List (Pause × Wake))
    → stays_paused (pause, wake) ≡ true
    → wait_while_paused ((pause, wake) ∷ rounds) ≡ wait_while_paused rounds
unfolding wait_while_paused
stays_lem pause (cancel_woke closed requested) rounds h = ground arith
stays_lem pause (pause_woke closed) rounds h = ground arith

-- A paused stream waits through every round that neither resumes, cancels nor closes a channel, and
-- is released by the next one: by a pause channel that turned false or lost its sender, as not
-- cancelled; by a cancel, or a cancel channel without its sender, as cancelled.
pub wait_while_paused_released :
    (before : List (Pause × Wake)) (last : Pause × Wake) (later : List (Pause × Wake))
    → AllStay before
    → stays_paused last ≡ false
    → wait_while_paused (before ++ last ∷ later) ≡ some (is_paused last.0 && is_cancel last.1)
unfolding wait_while_paused
wait_while_paused_released [] (pause, cancel_woke closed requested) later stay released =
    ground arith
wait_while_paused_released [] (pause, pause_woke closed) later stay released = ground arith
wait_while_paused_released ((pause, wake) ∷ before) last later stay released =
    stays_lem pause wake (before ++ last ∷ later) stay.0
    ∙ wait_while_paused_released before last later stay.1 released
