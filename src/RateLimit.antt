-- ===== src/RateLimit.antt =====
-- src/rate_limit.rs: the limit of concurrent tests from one address. The concurrent map is a
-- function from addresses to entries, since each operation holds its entry's lock throughout and
-- `cleanup` looks at one entry at a time. Instants are numbers on the monotonic clock.
pub mod Admission
mod Examples
use mathlib.Core.Logic.{ite}
use xfr.Prelude.{
  ℕ, ◌+◌, ◌-◌, ◌*◌, Bool, true, false, ◌||◌, Option, none, some, ltb, leb, if◌then◌else◌,
}

pub record IpState : Type 0 where
  pub count : ℕ  -- u32
  pub last_access : ℕ

pub record RateLimiter (Ip : Type 0) : Type 0 where
  pub limits : Ip → Option IpState
  pub max_per_ip : ℕ  -- u32
  pub window : ℕ

pub record RateLimitError (Ip : Type 0) : Type 0 where
  pub ip : Ip
  pub current : ℕ
  pub max : ℕ

pub record RateLimitConfig : Type 0 where
  pub max_per_ip : Option ℕ
  pub window_secs : ℕ

abbrev pub nanos_per_sec : ℕ
nanos_per_sec = 1_000_000_000

abbrev pub count_of : Option IpState → ℕ
count_of none = 0
count_of (some s) = s.count

-- the entry of `ip`, inserted with a zero count if there is none
abbrev pub entry_or_insert : ℕ → Option IpState → IpState
entry_or_insert now none = record { count = 0; last_access = now }
entry_or_insert now (some s) = s

-- `retain`: active, or recently accessed (`duration_since` saturates at zero)
unfoldable pub retained : ℕ → ℕ → Option IpState → Option IpState
retained window now none = none
retained window now (some s) =
    if ltb 0 s.count || ltb (now - s.last_access) window then some s else none

-- count = count.saturating_sub(1)
abbrev pub released : Option IpState → Option IpState
released none = none
released (some s) = some (record s { count = s.count - 1 })

module _ {Ip : Type 0} (same : Discrete Ip) where
  unfoldable pub update : (Ip → Option IpState) → Ip → Option IpState → Ip → Option IpState
  update limits ip entry j = ite (same j ip) entry (limits j)

  -- none is Ok(())
  unfoldable pub check : ℕ → RateLimiter Ip → Ip → RateLimiter Ip × Option (RateLimitError Ip)
  unfolding update
  check now l ip =
      let state = entry_or_insert now (l.limits ip) in
      if leb l.max_per_ip state.count
      then (
        record l { limits = update l.limits ip (some state) },
        some (record { ip = ip; current = state.count; max = l.max_per_ip }),
      )
      else (
        record l {
          limits =
              update l.limits ip (some (record { count = state.count + 1; last_access = now }));
        },
        none,
      )

  unfoldable pub release : RateLimiter Ip → Ip → RateLimiter Ip
  unfolding update
  release l ip = record l { limits = update l.limits ip (released (l.limits ip)) }

module _ {Ip : Type 0} where
  unfoldable pub new : ℕ → ℕ → RateLimiter Ip
  new max_per_ip window = record { limits = λ _. none; max_per_ip = max_per_ip; window = window }

  unfoldable pub current_count : RateLimiter Ip → Ip → ℕ
  current_count l ip = count_of (l.limits ip)

  unfoldable pub cleanup : ℕ → RateLimiter Ip → RateLimiter Ip
  unfolding retained
  cleanup now l = record l { limits = λ ip. retained l.window now (l.limits ip) }

-- `RateLimitConfig::build`
module _ (Ip : Type 0) where
  unfoldable pub build_at : Option ℕ → ℕ → Option (RateLimiter Ip)
  build_at none window = none
  build_at (some max) window = some (new max window)

  unfoldable pub build : RateLimitConfig → Option (RateLimiter Ip)
  unfolding build_at
  build c = build_at c.max_per_ip (c.window_secs * nanos_per_sec)
