-- ===== src/Settings/Presses.antt =====
-- Sequences of keys in the settings.
use xfr.Prelude.{
  ℕ, zero, suc, ◌+◌, ◌-◌, ◌<◌, ◌≡◌, ap, ◌∙◌, true, false, List, [], ◌∷◌, ltb, if◌then◌else◌, arith,
  lt→ltb,
}
use xfr.Settings.State.{
  SettingsState, test_params_dirty, items_in_category, focus_buttons, move_down, restart, on_enter,
}
use xfr.Settings.Invariant.{
  Key, escape, up, down, left, right, tab, enter, settings_key, press, IsValid, press-IsValid,
}

unfoldable pub press_all : List Key → SettingsState → SettingsState
unfolding press
press_all [] s = s
press_all (k ∷ keys) s = press_all keys (press k s).0

-- Whatever keys are pressed, the settings stay valid.
pub press_all-IsValid :
    (keys : List Key) (s : SettingsState) → IsValid s → IsValid (press_all keys s)
unfolding press_all
press_all-IsValid [] s ok = ok
press_all-IsValid (k ∷ keys) s ok = press_all-IsValid keys (press k s).0 (press-IsValid k s ok)

-- A key asks for a new test exactly when it is enter on the first button with parameters changed,
-- and then the settings are closed.
pub press_restart :
    (k : Key) (s : SettingsState)
    → (press k s).1 ≡ restart
    → s.button_focused ≡ true
      × s.button_index ≡ 0
      × test_params_dirty s ≡ true
      × (press k s).0.visible ≡ false
unfolding press on_enter
press_restart escape s e = absurd (cc)
press_restart up s e = absurd (cc)
press_restart down s e = absurd (cc)
press_restart left s e = absurd (cc)
press_restart right s e = absurd (cc)
press_restart tab s e = absurd (cc)
press_restart enter s e =
    (ground (arith, e), ground (arith, e), ground (arith, e), ground (arith, e))
press_restart settings_key s e = absurd (cc)

unfoldable pub times : ℕ → Key → SettingsState → SettingsState
unfolding press
times zero k s = s
times (suc n) k s = times n k (press k s).0

down_steps :
    (s : SettingsState)
    → s.button_focused ≡ false
    → s.selected_index < items_in_category s.category - 1
    → (press down s).0 ≡ record s { selected_index = s.selected_index + 1 }
unfolding press move_down
down_steps s off h =
    let t = record s { selected_index = s.selected_index + 1 } in
    ap
      (λ b.
        if b
        then s
        else if ltb s.selected_index (items_in_category s.category - 1)
        then t
        else focus_buttons s)
      off
    ∙ ap (λ b. if b then t else focus_buttons s)
        (lt→ltb s.selected_index (items_in_category s.category - 1) h)

down_leaves :
    (s : SettingsState)
    → s.button_focused ≡ false
    → s.selected_index + 1 ≡ items_in_category s.category
    → (press down s).0
      ≡ focus_buttons (record s { selected_index = items_in_category s.category - 1 })
unfolding press move_down
down_leaves s off h =
    let t = record s { selected_index = s.selected_index + 1 } in
    let here : s.selected_index ≡ items_in_category s.category - 1 = omega arith in
    let last : ltb s.selected_index (items_in_category s.category - 1) ≡ false = ground arith in
    ap
      (λ b.
        if b
        then s
        else if ltb s.selected_index (items_in_category s.category - 1)
        then t
        else focus_buttons s)
      off
    ∙ ap (λ b. if b then t else focus_buttons s) last
    ∙ ap (λ i. focus_buttons (record s { selected_index = i })) here

-- From any item the key down reaches the buttons, after as many presses as there are items from it to
-- the last, and lands on apply exactly when something has changed.
pub times-down :
    (n : ℕ) (s : SettingsState)
    → s.button_focused ≡ false
    → s.selected_index + suc n ≡ items_in_category s.category
    → times (suc n) down s
      ≡ focus_buttons (record s { selected_index = items_in_category s.category - 1 })
unfolding times
times-down zero s off h = down_leaves s off h
times-down (suc n) s off h =
    ap (times (suc n) down) (down_steps s off (omega arith))
    ∙ times-down n (record s { selected_index = s.selected_index + 1 }) off (omega arith)
