-- ===== src/Budget.antt =====
-- src/budget.rs: the byte budget that all send loops of a `-n` test share. One atomic counter; a
-- claim is a compare-exchange loop, whose attempts are the steps that other loops can fall between.
pub mod Sequential
pub mod Shared
mod Senders
pub mod Conservation
mod Examples
use xfr.Prelude.{
  ℕ, ◌+◌, ◌-◌, ◌%◌, ◌≡◌, min, Bool, true, false, ◌&&◌, ◌||◌, not, Option, none, some, ltb, leb,
  ◌==◌, if◌then◌else◌,
}
use xfr.Prelude.Words.{u64_mod}

pub record ByteBudget : Type 0 where
  pub remaining : ℕ  -- AtomicU64

unfoldable pub new : ℕ → ByteBudget
new total = record { remaining = total }

-- A claim in progress: about to compare-exchange from `current`, or returned.
pub data ClaimState : Type 0 where
  trying : ℕ → ClaimState
  returned : ℕ → ClaimState

-- `compare_exchange_weak(current, current - granted)`; a weak exchange may fail without cause.
unfoldable pub exchange : Bool → ByteBudget → ℕ → ℕ → ByteBudget × ClaimState
exchange spurious b current granted =
    if not spurious && b.remaining == current
    then (record { remaining = current - granted }, returned granted)
    else (b, trying b.remaining)

-- one round of the loop in `claim`
unfoldable pub attempt : Bool → ByteBudget → ℕ → ℕ → ByteBudget × ClaimState
attempt spurious b want current =
    let granted = min current want in
    if granted == 0 then (b, returned 0) else exchange spurious b current granted

-- `claim` with nothing between its load and its exchange: `current` is what it loaded
abbrev pub result_of : ByteBudget × ClaimState → ByteBudget × Option ℕ
result_of (b, returned granted) = (b, some granted)
result_of (b, trying current) = (b, none)

unfoldable pub claim : ByteBudget → ℕ → ByteBudget × Option ℕ
claim b want = result_of (attempt false b want b.remaining)

-- `fetch_add` wraps
unfoldable pub refund : ByteBudget → ℕ → ByteBudget
refund b bytes = if ltb 0 bytes then record { remaining = (b.remaining + bytes) % u64_mod } else b

unfoldable pub is_spent : ByteBudget → Bool
is_spent b = b.remaining == 0

unfoldable pub claim_or_full : Option ByteBudget → ℕ → Option ByteBudget × Option ℕ
claim_or_full none want = (none, some want)
claim_or_full (some b) want = let (b', granted) = claim b want in (some b', granted)

unfoldable pub refund_unwritten : Option ByteBudget → ℕ → ℕ → Option ByteBudget
refund_unwritten none claimed written = none
refund_unwritten (some b) claimed written = some (refund b (claimed - written))

-- src/udp.rs, `claim_datagram`: a claim too small for a packet header ends the stream
abbrev pub whole_datagram : Option ℕ → Option ℕ
whole_datagram none = none
whole_datagram (some n) = if leb 16 n then some n else none

unfoldable pub claim_datagram : Option ByteBudget → ℕ → Option ByteBudget × Option ℕ
claim_datagram budget packet_size =
    let (budget', n) = claim_or_full budget packet_size in (budget', whole_datagram n)
