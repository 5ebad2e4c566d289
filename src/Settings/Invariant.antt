-- ===== src/Settings/Invariant.antt =====
-- The bounds of the settings, key by key.
use xfr.Prelude.{
  ℕ, ◌+◌, ◌-◌, ◌%◌, ◌≤◌, ◌<◌, ◌≡◌, refl, min, max, Bool, true, false, not, ltb, ◌==◌, if◌then◌else◌,
  arith, inl, inr, Option-cases,
}
use xfr.Settings.Cycles.{SettingsCategory, display, test, category_next}
use xfr.Settings.State.{
  SettingsState, themes, toggle, close, test_params_dirty, items_in_category, focus_buttons,
  move_up, move_down, toggle_update_check, switch_tab, setting_next, setting_prev, value_next,
  value_prev, SettingsAction, no_action, close_modal, on_enter,
}

pub data Key : Type 0 where
  escape : Key
  up : Key
  down : Key
  left : Key
  right : Key
  tab : Key
  enter : Key
  settings_key : Key

-- The handler of the keys while the settings are shown, and the key that shows them.
unfoldable pub press : Key → SettingsState → SettingsState × SettingsAction
unfolding move_up move_down switch_tab value_next value_prev on_enter
press escape s = (close s, close_modal)
press up s = (move_up s, no_action)
press down s = (move_down s, no_action)
press left s = (value_prev s, no_action)
press right s = (value_next s, no_action)
press tab s = (switch_tab s, no_action)
press enter s = on_enter s
press settings_key s = (toggle s, no_action)

pub record Bounds (c : SettingsCategory) (item button theme streams : ℕ) : Type 0 where
  pub on_item : item < items_in_category c
  pub on_button : button < 2
  pub in_list : theme < themes
  pub some_streams : 1 ≤ streams
  pub few_streams : streams ≤ 128

-- The cursor is on an item of its tab, the button is one of the two, the theme is in the list, and a
-- test could be started with so many streams.
pub record IsValid (s : SettingsState) : Type 0 where
  pub bounds : Bounds s.category s.selected_index s.button_index s.theme_index s.params.streams

chosen : {s t : SettingsState} (b : Bool) → IsValid s → IsValid t → IsValid (if b then s else t)
chosen true ok okay = ok
chosen false ok okay = okay

chosen_when :
    {s t : SettingsState} (b : Bool)
    → (b ≡ true → IsValid s)
    → IsValid t
    → IsValid (if b then s else t)
chosen_when true ok okay = ok refl
chosen_when false ok okay = okay

record IsKept (p : SettingsState × SettingsAction) : Type 0 where
  pub valid : IsValid p.0

chosen_pair :
    {p q : SettingsState × SettingsAction} (b : Bool)
    → IsKept p
    → IsKept q
    → IsKept (if b then p else q)
chosen_pair true ok okay = ok
chosen_pair false ok okay = okay

first_item : (c : SettingsCategory) → 0 < items_in_category c
first_item display = omega arith
first_item test = omega arith

toggled-IsValid : (s : SettingsState) → IsValid s → IsValid (toggle_update_check s)
toggled-IsValid s ok = elim (Option-cases s.update_check_lock_reason) [
  | inl e ↦ rw e (record { bounds = ok.bounds })
  | inr (reason, e) ↦ rw e (record { bounds = ok.bounds })
]

with_theme :
    {c : SettingsCategory} {i b t n : ℕ} (u : ℕ) → u < themes → Bounds c i b t n → Bounds c i b u n
with_theme u h ok = record {
  on_item = ok.on_item;
  on_button = ok.on_button;
  in_list = h;
  some_streams = ok.some_streams;
  few_streams = ok.few_streams;
}

with_streams :
    {c : SettingsCategory} {i b t n : ℕ} (m : ℕ)
    → 1 ≤ m
    → m ≤ 128
    → Bounds c i b t n
    → Bounds c i b t m
with_streams m h k ok = record {
  on_item = ok.on_item;
  on_button = ok.on_button;
  in_list = ok.in_list;
  some_streams = h;
  few_streams = k;
}

with_cursor :
    {c : SettingsCategory} {i b t n : ℕ} (d : SettingsCategory) (j a : ℕ)
    → j < items_in_category d
    → a < 2
    → Bounds c i b t n
    → Bounds d j a t n
with_cursor d j a h k ok = record {
  on_item = h;
  on_button = k;
  in_list = ok.in_list;
  some_streams = ok.some_streams;
  few_streams = ok.few_streams;
}

setting_next-IsValid :
    (c : SettingsCategory) (i : ℕ) (s : SettingsState) → IsValid s → IsValid (setting_next c i s)
unfolding setting_next
setting_next-IsValid display i s ok =
    let kept = ok.bounds in
    chosen (i == 0)
      (record { bounds = with_theme ((s.theme_index + 1) % themes) (omega arith) kept })
      (chosen (i == 1) (record { bounds = kept })
        (chosen (i == 2) (record { bounds = kept }) (chosen (i == 3) (toggled-IsValid s ok) ok)))
setting_next-IsValid test i s ok =
    let kept = ok.bounds in
    let more = min (min (s.params.streams + 1) 255) 128 in
    chosen (i == 0) (record { bounds = with_streams more (omega arith) (omega arith) kept })
      (chosen (i == 1) (record { bounds = kept })
        (chosen (i == 2) (record { bounds = kept })
          (chosen (i == 3) (record { bounds = kept })
            (chosen (i == 4) (record { bounds = kept }) ok))))

setting_prev-IsValid :
    (c : SettingsCategory) (i : ℕ) (s : SettingsState) → IsValid s → IsValid (setting_prev c i s)
unfolding setting_prev
setting_prev-IsValid display i s ok =
    let kept = ok.bounds in
    let before = if s.theme_index == 0 then themes - 1 else s.theme_index - 1 in
    chosen (i == 0) (record { bounds = with_theme before (ground (arith, kept.in_list)) kept })
      (chosen (i == 1) (record { bounds = kept })
        (chosen (i == 2) (record { bounds = kept }) (chosen (i == 3) (toggled-IsValid s ok) ok)))
setting_prev-IsValid test i s ok =
    let kept = ok.bounds in
    let fewer = max (s.params.streams - 1) 1 in
    chosen (i == 0)
      (record { bounds = with_streams fewer (omega arith) (omega (arith, kept.few_streams)) kept })
      (chosen (i == 1) (record { bounds = kept })
        (chosen (i == 2) (record { bounds = kept })
          (chosen (i == 3) (record { bounds = kept })
            (chosen (i == 4) (record { bounds = kept }) ok))))

cursor_at :
    (s : SettingsState) (j a : ℕ)
    → j < items_in_category s.category
    → a < 2
    → IsValid s
    → Bounds s.category j a s.theme_index s.params.streams
cursor_at s j a h k ok = with_cursor s.category j a h k ok.bounds

focus_buttons-IsValid : (s : SettingsState) → IsValid s → IsValid (focus_buttons s)
focus_buttons-IsValid s ok = record {
  bounds =
      cursor_at s s.selected_index (if test_params_dirty s then 0 else 1) ok.bounds.on_item
        (ground arith) ok;
}

value_prev-IsValid : (s : SettingsState) → IsValid s → IsValid (value_prev s)
unfolding value_prev
value_prev-IsValid s ok =
    let other = if s.button_index == 0 then 1 else 0 in
    chosen s.button_focused
      (chosen (test_params_dirty s)
        (record { bounds = cursor_at s s.selected_index other ok.bounds.on_item (ground arith) ok })
        ok)
      (setting_prev-IsValid s.category s.selected_index s ok)

value_next-IsValid : (s : SettingsState) → IsValid s → IsValid (value_next s)
unfolding value_next
value_next-IsValid s ok =
    let other = (s.button_index + 1) % 2 in
    chosen s.button_focused
      (chosen (test_params_dirty s)
        (record { bounds = cursor_at s s.selected_index other ok.bounds.on_item (omega arith) ok })
        ok)
      (setting_next-IsValid s.category s.selected_index s ok)

move_up-IsValid : (s : SettingsState) → IsValid s → IsValid (move_up s)
unfolding move_up
move_up-IsValid s ok =
    let item = ok.bounds.on_item in
    let button = ok.bounds.on_button in
    let last = items_in_category s.category - 1 in
    chosen s.button_focused
      (record {
        bounds = cursor_at s last s.button_index (omega (arith, first_item s.category)) button ok;
      })
      (chosen (ltb 0 s.selected_index)
        (record {
          bounds =
              cursor_at s (s.selected_index - 1) s.button_index (omega (arith, item)) button ok;
        })
        ok)

move_down-IsValid : (s : SettingsState) → IsValid s → IsValid (move_down s)
unfolding move_down
move_down-IsValid s ok =
    let button = ok.bounds.on_button in
    chosen s.button_focused ok (
      chosen_when (ltb s.selected_index (items_in_category s.category - 1))
        (λ e. record {
          bounds = cursor_at s (s.selected_index + 1) s.button_index (ground (arith, e)) button ok;
        })
        (focus_buttons-IsValid s ok))

on_enter-IsKept : (s : SettingsState) → IsValid s → IsKept (on_enter s)
unfolding on_enter
on_enter-IsKept s ok =
    let closed : IsValid (close s) = record { bounds = ok.bounds } in
    chosen_pair (not s.button_focused) (record { valid = focus_buttons-IsValid s ok })
      (chosen_pair (s.button_index == 0) (record { valid = closed })
        (chosen_pair (s.button_index == 1) (record { valid = closed }) (record { valid = ok })))

-- Every key keeps the settings valid: the cursor stays on an item of its tab, the button is one of
-- the two, the theme is in the list, and there are from 1 to 128 streams.
pub press-IsValid : (k : Key) (s : SettingsState) → IsValid s → IsValid (press k s).0
unfolding press
press-IsValid escape s ok = record { bounds = ok.bounds }
press-IsValid up s ok = move_up-IsValid s ok
press-IsValid down s ok = move_down-IsValid s ok
press-IsValid left s ok = value_prev-IsValid s ok
press-IsValid right s ok = value_next-IsValid s ok
press-IsValid tab s ok = record {
  bounds =
      with_cursor (category_next s.category) 0 s.button_index
        (first_item (category_next s.category)) ok.bounds.on_button ok.bounds;
}
press-IsValid enter s ok = (on_enter-IsKept s ok).valid
press-IsValid settings_key s ok =
    chosen (not s.visible)
      (record {
        bounds = cursor_at s 0 s.button_index (first_item s.category) ok.bounds.on_button ok;
      })
      (record { bounds = ok.bounds })
