-- ===== src/Stats/Final.antt =====
-- src/stats.rs: the final figures of a test, over all its streams. The means that are rounded in
-- floating point are the parameter `average`; the jitter and the percentage of loss are left out.
use xfr.Prelude.{
  ℕ, ◌+◌, ◌%◌, ◌≤◌, ◌≡◌, refl, ◌∙◌, min, max, Bool, true, false, not, ◌&&◌, ◌||◌, Option, none,
  some, List, [], ◌∷◌, map, ltb, ◌==◌, if◌then◌else◌, arith, inl, inr, ◌⊎◌, Bool-cases,
}
use xfr.Prelude.Words.{u64_max, u64_mod, saturating_add, saturating_add32}
use xfr.Budget.Sequential.{sum_of}
use xfr.Tcp.Teardown.{TcpInfoSnapshot}
use xfr.Stats.Stream.{StreamStats, poll_tcp_info, read_final_tcp_info}

-- `UdpStats` without its floating-point fields
pub record UdpStats : Type 0 where
  pub packets_sent : ℕ
  pub packets_received : ℕ
  pub lost : ℕ
  pub out_of_order : ℕ
  pub packet_size : Option ℕ  -- u32

abbrev pub no_stats : UdpStats
no_stats = record {
  packets_sent = 0;
  packets_received = 0;
  lost = 0;
  out_of_order = 0;
  packet_size = none;
}

-- the order of an Option: none is below all
abbrev pub max_option : Option ℕ → Option ℕ → Option ℕ
max_option none b = b
max_option (some a) none = some a
max_option (some a) (some b) = some (max a b)

abbrev pub was_observed : UdpStats → Bool
was_observed s = ltb 0 s.packets_received || ltb 0 s.lost

abbrev pub any_observed : List UdpStats → Bool
any_observed [] = false
any_observed (s ∷ stats) = was_observed s || any_observed stats

abbrev pub is_none_recorded : List UdpStats → Bool
is_none_recorded [] = true
is_none_recorded (s ∷ stats) = false

abbrev add_stats : Bool → UdpStats → UdpStats → UdpStats
add_stats receiver_only total s = record {
  packets_sent = saturating_add total.packets_sent s.packets_sent;
  packets_received = saturating_add total.packets_received s.packets_received;
  lost = saturating_add total.lost s.lost;
  out_of_order = saturating_add total.out_of_order s.out_of_order;
  packet_size =
      if not receiver_only || ltb 0 s.packets_received
      then max_option total.packet_size s.packet_size
      else total.packet_size;
}

unfoldable pub add_all : Bool → UdpStats → List UdpStats → UdpStats
add_all receiver_only total [] = total
add_all receiver_only total (s ∷ stats) =
    add_all receiver_only (add_stats receiver_only total s) stats

unfoldable pub aggregate_udp_stats_inner : Bool → List UdpStats → Option UdpStats
unfolding add_all
aggregate_udp_stats_inner receiver_only stats =
    if is_none_recorded stats || (receiver_only && not (any_observed stats))
    then none
    else some (add_all receiver_only no_stats stats)

-- the counters of the loops over the streams' snapshots
pub record TcpTotals : Type 0 where
  pub rtt_sum : ℕ
  pub rtt_var_sum : ℕ
  pub retransmits : ℕ
  pub cwnd : ℕ
  pub count : ℕ
  pub bytes_acked : Option ℕ

abbrev add_acked : Option ℕ → Option ℕ → Option ℕ
add_acked none acked = acked
add_acked (some sum) none = some sum
add_acked (some sum) (some acked) = some ((sum + acked) % u64_mod)

abbrev add_info : TcpTotals → Option TcpInfoSnapshot → TcpTotals
add_info t none = t
add_info t (some info) = record {
  rtt_sum = (t.rtt_sum + info.rtt_us) % u64_mod;
  rtt_var_sum = (t.rtt_var_sum + info.rtt_var_us) % u64_mod;
  retransmits = (t.retransmits + info.retransmits) % u64_mod;
  cwnd = saturating_add32 t.cwnd info.cwnd;
  count = t.count + 1;
  bytes_acked = add_acked t.bytes_acked info.bytes_acked;
}

abbrev no_infos : TcpTotals
no_infos = record {
  rtt_sum = 0;
  rtt_var_sum = 0;
  retransmits = 0;
  cwnd = 0;
  count = 0;
  bytes_acked = none;
}

unfoldable pub total_infos : TcpTotals → List (Option TcpInfoSnapshot) → TcpTotals
total_infos t [] = t
total_infos t (info ∷ infos) = total_infos (add_info t info) infos

module _ (average : ℕ → ℕ → ℕ) (get_tcp_info_from_fd : ℕ → Option TcpInfoSnapshot) where
  abbrev snapshot_of : TcpTotals → Option TcpInfoSnapshot
  snapshot_of t =
      if t.count == 0
      then none
      else some (record {
        retransmits = t.retransmits;
        rtt_us = average t.rtt_sum t.count;
        rtt_var_us = average t.rtt_var_sum t.count;
        cwnd = t.cwnd;
        bytes_acked = t.bytes_acked;
      })

  unfoldable pub final_local_tcp_info : List StreamStats → Option TcpInfoSnapshot
  unfolding total_infos
  final_local_tcp_info streams =
      snapshot_of (total_infos no_infos (map (read_final_tcp_info get_tcp_info_from_fd) streams))

  abbrev live_of : TcpTotals → Option (ℕ × ℕ × ℕ)
  live_of t = if t.count == 0 then none else some (average t.rtt_sum t.count, t.retransmits, t.cwnd)

  unfoldable pub poll_local_tcp_info : List StreamStats → Option (ℕ × ℕ × ℕ)
  unfolding total_infos
  poll_local_tcp_info streams =
      live_of (total_infos no_infos (map (poll_tcp_info get_tcp_info_from_fd) streams))

add_all_totals :
    (receiver_only : Bool) (total : UdpStats) (stats : List UdpStats)
    → total.packets_received ≤ u64_max
    → total.lost ≤ u64_max
    → let t = add_all receiver_only total stats in
      (t.packets_received
        ≡ min
            (total.packets_received + sum_of (map (λ (s : UdpStats). s.packets_received) stats))
            u64_max)
      × (t.lost ≡ min (total.lost + sum_of (map (λ (s : UdpStats). s.lost) stats)) u64_max)
unfolding add_all sum_of
add_all_totals receiver_only total [] small few = (omega arith, omega arith)
add_all_totals receiver_only total (s ∷ stats) small few =
    let (received, lost) =
      add_all_totals receiver_only (add_stats receiver_only total s) stats (omega arith)
        (omega arith) in
    (received ∙ omega arith, lost ∙ omega arith)

abbrev pub received_in : List UdpStats → ℕ
received_in stats = sum_of (map (λ (s : UdpStats). s.packets_received) stats)

abbrev pub lost_in : List UdpStats → ℕ
lost_in stats = sum_of (map (λ (s : UdpStats). s.lost) stats)

unobserved_lem :
    (stats : List UdpStats)
    → any_observed stats ≡ false
    → (received_in stats ≡ 0) × (lost_in stats ≡ 0)
unfolding sum_of
unobserved_lem [] h = (refl, refl)
unobserved_lem (s ∷ stats) h =
    let (received, lost) = unobserved_lem stats (ground arith) in
    (ground (arith, received), ground (arith, lost))

reported_when :
    (observed : Bool) (stats : List UdpStats)
    → any_observed stats ≡ observed
    → aggregate_udp_stats_inner true stats
      ≡ (if observed then some (add_all true no_stats stats) else none)
unfolding aggregate_udp_stats_inner
reported_when observed [] h = ground arith
reported_when observed (s ∷ stats) h = ground arith

-- The measurements of the receiving streams are left out only when no stream has seen a packet or a
-- loss; else they are the packets and the losses of all, which stop at the largest number.
pub aggregate_udp_stats_inner_lem :
    (stats : List UdpStats)
    → ((aggregate_udp_stats_inner true stats ≡ none)
        × (received_in stats ≡ 0)
        × (lost_in stats ≡ 0))
      ⊎ ((t : UdpStats) × (aggregate_udp_stats_inner true stats ≡ some t)
          × (t.packets_received ≡ min (received_in stats) u64_max)
          × (t.lost ≡ min (lost_in stats) u64_max))
aggregate_udp_stats_inner_lem stats = elim (Bool-cases (any_observed stats)) [
  | inl seen ↦
      let (received, lost) = add_all_totals true no_stats stats (omega arith) (omega arith) in
      inr (
        add_all true no_stats stats,
        reported_when true stats seen,
        received ∙ omega arith,
        lost ∙ omega arith,
      )
  | inr unseen ↦
      let (received, lost) = unobserved_lem stats unseen in
      inl (reported_when false stats unseen, received, lost)
]
