-- ===== src/Settings/State.antt =====
-- src/tui/settings.rs, `SettingsState`: the settings and the operations on them. The list of themes
-- stands in src/tui/theme.rs; only its length is read here.
use xfr.Prelude.{
  ℕ, ◌+◌, ◌-◌, ◌%◌, min, max, Bool, true, false, not, ◌||◌, Option, none, some, List, ltb, ◌==◌,
  if◌then◌else◌,
}
use xfr.Serve.Timeouts.{Protocol, tcp, udp, quic, TestDirection, upload, download, bidir}
use xfr.Protocol.{TimestampFormat, relative, next, prev}
use xfr.Settings.Cycles.{
  SettingsCategory, display, test, category_next, Units, auto, units_next, units_prev,
  protocol_next, protocol_prev, direction_next, direction_prev, duration_next, duration_prev,
  same_option, bitrate_next, bitrate_prev,
}

-- The test's parameters, which stand twice in the state: as they are, and as they were applied.
pub record TestParams : Type 0 where
  pub streams : ℕ  -- u8
  pub protocol : Protocol
  pub duration_secs : ℕ  -- u64
  pub direction : TestDirection
  pub bitrate : Option ℕ  -- u64

pub record SettingsState : Type 0 where
  pub visible : Bool
  pub category : SettingsCategory
  pub selected_index : ℕ
  pub button_focused : Bool
  pub button_index : ℕ
  pub theme_index : ℕ
  pub timestamp_format : TimestampFormat
  pub units : Units
  pub update_check : Bool
  pub update_check_lock_reason : Option (List ℕ)
  pub update_check_touched : Bool
  pub params : TestParams
  pub original : TestParams

abbrev pub themes : ℕ
themes = 11

abbrev pub new : ℕ → TestParams → SettingsState
new theme_index params = record {
  visible = false;
  category = display;
  selected_index = 0;
  button_focused = false;
  button_index = 0;
  theme_index = theme_index;
  timestamp_format = relative;
  units = auto;
  update_check = true;
  update_check_lock_reason = none;
  update_check_touched = false;
  params = params;
  original = params;
}

abbrev pub mark_applied : SettingsState → SettingsState
mark_applied s = record s { original = s.params }

abbrev pub toggle : SettingsState → SettingsState
toggle s =
    if not s.visible
    then record s { visible = true; selected_index = 0; button_focused = false }
    else record s { visible = false }

abbrev pub close : SettingsState → SettingsState
close s = record s { visible = false }

abbrev pub same_protocol : Protocol → Protocol → Bool
same_protocol tcp tcp = true
same_protocol udp udp = true
same_protocol quic quic = true
same_protocol p q = false

abbrev pub same_direction : TestDirection → TestDirection → Bool
same_direction upload upload = true
same_direction download download = true
same_direction bidir bidir = true
same_direction d e = false

unfoldable pub are_dirty : TestParams → TestParams → Bool
are_dirty p o =
    not (p.streams == o.streams)
    || not (same_protocol p.protocol o.protocol)
    || not (p.duration_secs == o.duration_secs)
    || not (same_direction p.direction o.direction)
    || not (same_option p.bitrate o.bitrate)

abbrev pub test_params_dirty : SettingsState → Bool
test_params_dirty s = are_dirty s.params s.original

abbrev pub items_in_category : SettingsCategory → ℕ
items_in_category display = 4
items_in_category test = 5

unfoldable pub move_up : SettingsState → SettingsState
move_up s =
    if s.button_focused
    then record s { button_focused = false; selected_index = items_in_category s.category - 1 }
    else if ltb 0 s.selected_index
    then record s { selected_index = s.selected_index - 1 }
    else s

-- the first visible button: apply where something has changed, else close
abbrev pub focus_buttons : SettingsState → SettingsState
focus_buttons s = record s {
  button_focused = true;
  button_index = if test_params_dirty s then 0 else 1;
}

unfoldable pub move_down : SettingsState → SettingsState
move_down s =
    if s.button_focused
    then s
    else if ltb s.selected_index (items_in_category s.category - 1)
    then record s { selected_index = s.selected_index + 1 }
    else focus_buttons s

unfoldable pub switch_tab : SettingsState → SettingsState
switch_tab s = record s {
  category = category_next s.category;
  selected_index = 0;
  button_focused = false;
}

abbrev toggled : Option (List ℕ) → SettingsState → SettingsState
toggled (some reason) s = s
toggled none s = record s { update_check = not s.update_check; update_check_touched = true }

abbrev pub toggle_update_check : SettingsState → SettingsState
toggle_update_check s = toggled s.update_check_lock_reason s

abbrev with_params : TestParams → SettingsState → SettingsState
with_params p s = record s { params = p }

-- (category, selected index)
unfoldable pub setting_next : SettingsCategory → ℕ → SettingsState → SettingsState
setting_next display i s =
    if i == 0
    then record s { theme_index = (s.theme_index + 1) % themes }
    else if i == 1
    then record s { timestamp_format = next s.timestamp_format }
    else if i == 2
    then record s { units = units_next s.units }
    else if i == 3
    then toggle_update_check s
    else s
setting_next test i s =
    let p = s.params in
    if i == 0
    then with_params (record p { streams = min (min (p.streams + 1) 255) 128 }) s
    else if i == 1
    then with_params (record p { protocol = protocol_next p.protocol }) s
    else if i == 2
    then with_params (record p { duration_secs = duration_next p.duration_secs }) s
    else if i == 3
    then with_params (record p { direction = direction_next p.direction }) s
    else if i == 4
    then with_params (record p { bitrate = bitrate_next p.bitrate }) s
    else s

unfoldable pub setting_prev : SettingsCategory → ℕ → SettingsState → SettingsState
setting_prev display i s =
    if i == 0
    then record s { theme_index = if s.theme_index == 0 then themes - 1 else s.theme_index - 1 }
    else if i == 1
    then record s { timestamp_format = prev s.timestamp_format }
    else if i == 2
    then record s { units = units_prev s.units }
    else if i == 3
    then toggle_update_check s
    else s
setting_prev test i s =
    let p = s.params in
    if i == 0
    then with_params (record p { streams = max (p.streams - 1) 1 }) s
    else if i == 1
    then with_params (record p { protocol = protocol_prev p.protocol }) s
    else if i == 2
    then with_params (record p { duration_secs = duration_prev p.duration_secs }) s
    else if i == 3
    then with_params (record p { direction = direction_prev p.direction }) s
    else if i == 4
    then with_params (record p { bitrate = bitrate_prev p.bitrate }) s
    else s

unfoldable pub value_next : SettingsState → SettingsState
unfolding setting_next
value_next s =
    if s.button_focused
    then if test_params_dirty s then record s { button_index = (s.button_index + 1) % 2 } else s
    else setting_next s.category s.selected_index s

unfoldable pub value_prev : SettingsState → SettingsState
unfolding setting_prev
value_prev s =
    if s.button_focused
    then if test_params_dirty s
      then record s { button_index = if s.button_index == 0 then 1 else 0 }
      else s
    else setting_prev s.category s.selected_index s

pub data SettingsAction : Type 0 where
  no_action : SettingsAction
  close_modal : SettingsAction
  restart : SettingsAction

unfoldable pub on_enter : SettingsState → SettingsState × SettingsAction
on_enter s =
    if not s.button_focused
    then (focus_buttons s, no_action)
    else if s.button_index == 0
    then (close s, if test_params_dirty s then restart else close_modal)
    else if s.button_index == 1
    then (close s, close_modal)
    else (s, no_action)
