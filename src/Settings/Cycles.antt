-- ===== src/Settings/Cycles.antt =====
-- src/tui/settings.rs: the values that a key steps through.
use xfr.Prelude.{
  ℕ, zero, suc, ◌+◌, ◌-◌, ◌*◌, ◌/◌, ◌%◌, ◌≤◌, ◌<◌, ◌≡◌, refl, min, max, Bool, true, false, Option,
  none, some, List, [], ◌∷◌, get_or, ◌==◌, if◌then◌else◌, arith,
}
use xfr.Serve.Timeouts.{Protocol, tcp, udp, quic, TestDirection, upload, download, bidir}

pub data SettingsCategory : Type 0 where
  display : SettingsCategory
  test : SettingsCategory

unfoldable pub category_next : SettingsCategory → SettingsCategory
category_next display = test
category_next test = display

pub data Units : Type 0 where
  auto : Units
  bits : Units
  bytes : Units

unfoldable pub units_next : Units → Units
units_next auto = bits
units_next bits = bytes
units_next bytes = auto

unfoldable pub units_prev : Units → Units
units_prev auto = bytes
units_prev bits = auto
units_prev bytes = bits

unfoldable pub protocol_next : Protocol → Protocol
protocol_next tcp = udp
protocol_next udp = quic
protocol_next quic = tcp

unfoldable pub protocol_prev : Protocol → Protocol
protocol_prev tcp = quic
protocol_prev udp = tcp
protocol_prev quic = udp

unfoldable pub direction_next : TestDirection → TestDirection
direction_next upload = download
direction_next download = bidir
direction_next bidir = upload

unfoldable pub direction_prev : TestDirection → TestDirection
direction_prev upload = bidir
direction_prev download = upload
direction_prev bidir = download

-- between 5 s and an hour
unfoldable pub duration_next : ℕ → ℕ
duration_next secs = min ((secs / 5 + 1) * 5) 3600

unfoldable pub duration_prev : ℕ → ℕ
duration_prev secs = max ((secs - 1) / 5 * 5) 5

abbrev pub bitrate_steps : List (Option ℕ)
bitrate_steps =
    none
    ∷ some 1_000_000
    ∷ some 10_000_000
    ∷ some 100_000_000
    ∷ some 1_000_000_000
    ∷ some 10_000_000_000
    ∷ []

abbrev pub same_option : Option ℕ → Option ℕ → Bool
same_option none none = true
same_option none (some b) = false
same_option (some a) none = false
same_option (some a) (some b) = a == b

abbrev suc_option : Option ℕ → Option ℕ
suc_option none = none
suc_option (some i) = some (i + 1)

unfoldable pub position : Option ℕ → List (Option ℕ) → Option ℕ
position current [] = none
position current (step ∷ steps) =
    let rest = position current steps in
    if same_option step current then some 0 else suc_option rest

abbrev or_first : Option ℕ → ℕ
or_first none = 0
or_first (some i) = i

unfoldable pub bitrate_index : Option ℕ → ℕ
unfolding position
bitrate_index current = or_first (position current bitrate_steps)

unfoldable pub bitrate_next : Option ℕ → Option ℕ
unfolding bitrate_index
bitrate_next current = get_or bitrate_steps ((bitrate_index current + 1) % 6) none

unfoldable pub bitrate_prev : Option ℕ → Option ℕ
unfolding bitrate_index
bitrate_prev current =
    let i = bitrate_index current in get_or bitrate_steps (if i == 0 then 5 else i - 1) none

pub units_prev-units_next : (u : Units) → units_prev (units_next u) ≡ u
unfolding units_prev units_next
units_prev-units_next auto = refl
units_prev-units_next bits = refl
units_prev-units_next bytes = refl

pub protocol_prev-protocol_next : (p : Protocol) → protocol_prev (protocol_next p) ≡ p
unfolding protocol_prev protocol_next
protocol_prev-protocol_next tcp = refl
protocol_prev-protocol_next udp = refl
protocol_prev-protocol_next quic = refl

pub direction_prev-direction_next : (d : TestDirection) → direction_prev (direction_next d) ≡ d
unfolding direction_prev direction_next
direction_prev-direction_next upload = refl
direction_prev-direction_next download = refl
direction_prev-direction_next bidir = refl

-- The bitrates are a cycle: from a step of it, one step on and one back is where it began.
pub bitrate_prev-bitrate_next :
    (i : ℕ)
    → i < 6
    → let step = get_or bitrate_steps i none in bitrate_prev (bitrate_next step) ≡ step
unfolding bitrate_prev bitrate_next
bitrate_prev-bitrate_next zero h = refl
bitrate_prev-bitrate_next (suc zero) h = refl
bitrate_prev-bitrate_next (suc (suc zero)) h = refl
bitrate_prev-bitrate_next (suc (suc (suc zero))) h = refl
bitrate_prev-bitrate_next (suc (suc (suc (suc zero)))) h = refl
bitrate_prev-bitrate_next (suc (suc (suc (suc (suc zero))))) h = refl
bitrate_prev-bitrate_next (suc (suc (suc (suc (suc (suc i)))))) h = absurd (omega arith)

-- From any duration a step up gives a multiple of five seconds above it, an hour at most, and a step
-- down from there gives no more than the duration that it began at, or five seconds.
pub duration_step :
    (secs : ℕ)
    → secs < 3600
    → let up = duration_next secs in
      (secs < up) × (up ≤ 3600) × (up % 5 ≡ 0) × (duration_prev up ≤ max secs 5)
unfolding duration_next duration_prev
duration_step secs h = (omega arith, omega arith, omega arith, omega arith)
