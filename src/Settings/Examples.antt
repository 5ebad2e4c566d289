-- ===== src/Settings/Examples.antt =====
-- A few keys in the settings of a test of one stream.
use xfr.Prelude.{true, none, [], ◌∷◌, arith}
use xfr.Serve.Timeouts.{tcp, upload}
use xfr.Settings.State.{SettingsState, TestParams, new}
use xfr.Settings.Invariant.{down, right, tab, IsValid}
use xfr.Settings.Presses.{press_all, press_all-IsValid}

abbrev one_stream : TestParams
one_stream = record {
  streams = 1;
  protocol = tcp;
  duration_secs = 10;
  direction = upload;
  bitrate = none;
}

abbrev at_first : SettingsState
at_first = new 10 one_stream

at_first-IsValid : IsValid at_first
at_first-IsValid = record {
  bounds = record {
    on_item = omega arith;
    on_button = omega arith;
    in_list = omega arith;
    some_streams = omega arith;
    few_streams = omega arith;
  };
}

press_all-IsValid_example : IsValid (press_all (right ∷ tab ∷ right ∷ down ∷ []) at_first)
press_all-IsValid_example =
    press_all-IsValid (right ∷ tab ∷ right ∷ down ∷ []) at_first at_first-IsValid

-- two streams where one was applied, and the first button
abbrev changed : SettingsState
changed = record at_first {
  visible = true;
  params = record one_stream { streams = 2 };
  button_focused = true;
}
