-- ===== src/Udp/Pacing.antt =====
-- src/udp.rs, `pacing_schedule`: how many packets a sender sends on each tick of its timer.
use native.Mathlib.Nat.{div-add-mod, mod-lt, mul-le-mul}
use xfr.Prelude.{
  ℕ, ◌+◌, ◌-◌, ◌*◌, ◌/◌, ◌≤◌, ◌≡◌, ◌⊎◌, inl, inr, min, max, arith, subst, Bool-cases, leb,
}
use xfr.Prelude.Words.{u64_max, saturating_mul}

abbrev pub max_pacing_ticks_per_sec : ℕ
max_pacing_ticks_per_sec = 10_000

abbrev pub max_paced_packets_per_tick : ℕ
max_paced_packets_per_tick = 1024

abbrev pub nanos_per_sec : ℕ
nanos_per_sec = 1_000_000_000

pub record PacingSchedule : Type 0 where
  pub interval : ℕ  -- nanoseconds
  pub packets_per_tick : ℕ

unfoldable pub div_ceil : ℕ → ℕ → ℕ
div_ceil a b = (a + b - 1) / b

-- Ord::clamp
abbrev clamp : ℕ → ℕ → ℕ → ℕ
clamp low high n = min (max n low) high

-- saturating_mul of u128
abbrev saturating_mul128 : ℕ → ℕ → ℕ
saturating_mul128 a b = min (a * b) 340282366920938463463374607431768211455

unfoldable pub pacing_schedule : ℕ → ℕ → PacingSchedule
pacing_schedule target_bitrate packet_size =
    let bits_per_packet = saturating_mul packet_size 8 in
    let bitrate_per_tick = saturating_mul bits_per_packet max_pacing_ticks_per_sec in
    let packets_per_tick =
      clamp 1 max_paced_packets_per_tick (div_ceil target_bitrate bitrate_per_tick) in
    let interval_nanos = clamp 1 u64_max (
      div_ceil
        (saturating_mul128 (saturating_mul128 packets_per_tick bits_per_packet) nanos_per_sec)
        target_bitrate) in
    record { interval = interval_nanos; packets_per_tick = packets_per_tick }

div_ceil-covers : (a b : ℕ) → 1 ≤ b → a ≤ b * div_ceil a b
unfolding div_ceil
div_ceil-covers a b h = omega (arith, div-add-mod (a + b - 1) b, mod-lt (a + b - 1) {m = b} h)

-- the interval of a batch of so many bits, without saturation
interval_lem :
    (target load : ℕ)
    → 1 ≤ target
    → let q = div_ceil load target in
      let i = clamp 1 u64_max q in (load ≤ target * i) ⊎ (i ≡ u64_max)
interval_lem target load positive =
    let q = div_ceil load target in
    elim (Bool-cases (leb q u64_max)) [
      | inl fits ↦ elim (Bool-cases (leb 1 q)) [
        | inl some ↦
            let same : clamp 1 u64_max q ≡ q = ground arith in
            inl (rw same (div_ceil-covers load target positive))
        | inr none_due ↦
            let nothing : q ≡ 0 = ground arith in
            let covered : load ≤ target * 0 =
              subst (λ k. load ≤ target * k) nothing (div_ceil-covers load target positive) in
            inl (omega (arith, covered))
      ]
      | inr over ↦ inr (ground arith)
    ]

batch_bits :
    (n bits : ℕ)
    → n ≤ max_paced_packets_per_tick
    → bits ≤ 524056
    → saturating_mul128 (saturating_mul128 n bits) nanos_per_sec ≡ n * bits * nanos_per_sec
batch_bits n bits few small =
    let load : n * bits ≤ 1024 * 524056 = mul-le-mul few small in omega arith

-- What a schedule promises for a bitrate and a packet of so many bits.
pub record IsPaced (target_bitrate bits : ℕ) (s : PacingSchedule) : Type 0 where
  pub batch : (1 ≤ s.packets_per_tick) × (s.packets_per_tick ≤ max_paced_packets_per_tick)
  pub ticking : (1 ≤ s.interval) × (s.interval ≤ u64_max)
  pub not_faster :
      (s.packets_per_tick * bits * nanos_per_sec ≤ target_bitrate * s.interval)
      ⊎ (s.interval ≡ u64_max)

-- For a positive bitrate and a datagram of 1 to 65507 bytes the batch of a tick is between 1 and
-- 1024 packets, the interval is a positive u64, and the bits of a batch per interval stay within
-- the bitrate, unless the interval is the longest there is.
pub pacing_schedule-IsPaced :
    (target_bitrate packet_size : ℕ)
    → 1 ≤ target_bitrate
    → 1 ≤ packet_size
    → packet_size ≤ 65507
    → IsPaced target_bitrate (packet_size * 8) (pacing_schedule target_bitrate packet_size)
unfolding pacing_schedule
pacing_schedule-IsPaced target_bitrate packet_size positive some_bytes fits =
    let bits = packet_size * 8 in
    let word : saturating_mul packet_size 8 ≡ bits = omega arith in
    let n =
      clamp 1 max_paced_packets_per_tick
        (div_ceil target_bitrate (saturating_mul bits max_pacing_ticks_per_sec)) in
    let few : n ≤ max_paced_packets_per_tick = omega arith in
    let load = batch_bits n bits few (omega arith) in
    rw word (record {
      batch = (omega arith, few);
      ticking = (omega arith, omega arith);
      not_faster = rw load (interval_lem target_bitrate (n * bits * nanos_per_sec) positive);
    })
