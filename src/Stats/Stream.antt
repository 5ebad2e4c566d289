-- ===== src/Stats/Stream.antt =====
-- src/stats.rs, `StreamStats`: the counters of one stream and the snapshots taken of them. Rates and
-- milliseconds, which are floating point, and the times of the snapshots are left out; the jitter is
-- kept in the microseconds it is stored in. An operation has the counters for itself.
use xfr.Prelude.{
  ℕ, ◌+◌, ◌-◌, ◌%◌, Bool, ◌&&◌, ◌||◌, Option, none, some, List, [], ◌∷◌, ◌++◌, length, take, drop,
  ltb, leb, ◌==◌, if◌then◌else◌,
}
use xfr.Prelude.Words.{u64_mod, saturating_add}
use xfr.Tcp.Teardown.{TcpInfoSnapshot}
use xfr.Udp.Feedback.{UdpIntervalProgress}

pub record UdpSendErrors : Type 0 where
  pub count : ℕ  -- u64
  pub last_error : List ℕ  -- the characters' code points

pub record IntervalStats : Type 0 where
  pub bytes : ℕ  -- u64
  pub retransmits : ℕ  -- u64
  pub jitter_us : ℕ  -- u64
  pub lost : ℕ  -- u64
  pub rtt_us : Option ℕ
  pub cwnd : Option ℕ
  pub bytes_sent : ℕ  -- u64
  pub bytes_received : ℕ  -- u64
  pub cumulative_packets_received : ℕ  -- u64
  pub cumulative_packets_lost : ℕ  -- u64

pub record StreamStats : Type 0 where
  pub stream_id : ℕ  -- u8
  pub bytes_sent : ℕ  -- u64
  pub bytes_received : ℕ  -- u64
  pub intervals : List IntervalStats  -- the latest last
  pub retransmits : ℕ  -- u64
  pub interval_retransmits_total : ℕ  -- u64
  pub last_bytes : ℕ  -- u64
  pub last_bytes_sent : ℕ  -- u64
  pub last_bytes_received : ℕ  -- u64
  pub last_tcp_retransmits : ℕ  -- u64
  pub udp_jitter_us : ℕ  -- u64
  pub last_udp_lost : ℕ  -- u64
  pub udp_progress : UdpIntervalProgress
  pub udp_send_errors : Option UdpSendErrors
  pub tcp_info_fd : Option ℕ  -- i32, -1 where it is not set
  pub final_tcp_info : Option TcpInfoSnapshot

abbrev pub max_interval_history : ℕ
max_interval_history = 60

abbrev pub new : ℕ → StreamStats
new stream_id = record {
  stream_id = stream_id;
  bytes_sent = 0;
  bytes_received = 0;
  intervals = [];
  retransmits = 0;
  interval_retransmits_total = 0;
  last_bytes = 0;
  last_bytes_sent = 0;
  last_bytes_received = 0;
  last_tcp_retransmits = 0;
  udp_jitter_us = 0;
  last_udp_lost = 0;
  udp_progress = record { packets_received = 0; packets_lost = 0 };
  udp_send_errors = none;
  tcp_info_fd = none;
  final_tcp_info = none;
}

abbrev pub set_tcp_info_fd : ℕ → StreamStats → StreamStats
set_tcp_info_fd fd s = record s { final_tcp_info = none; tcp_info_fd = some fd }

abbrev pub clear_tcp_info_fd : StreamStats → StreamStats
clear_tcp_info_fd s = record s { tcp_info_fd = none }

abbrev pub set_final_tcp_info : TcpInfoSnapshot → StreamStats → StreamStats
set_final_tcp_info info s = record s { final_tcp_info = some info }

abbrev pub add_bytes_sent : ℕ → StreamStats → StreamStats
add_bytes_sent n s = record s { bytes_sent = (s.bytes_sent + n) % u64_mod }

abbrev pub add_bytes_received : ℕ → StreamStats → StreamStats
add_bytes_received n s = record s { bytes_received = (s.bytes_received + n) % u64_mod }

abbrev pub add_retransmits : ℕ → StreamStats → StreamStats
add_retransmits n s = record s { retransmits = (s.retransmits + n) % u64_mod }

-- a slot's count, and its message once there is one
abbrev pub failures : Option UdpSendErrors → ℕ
failures none = 0
failures (some e) = e.count

-- `char::is_control`
abbrev pub is_control : ℕ → Bool
is_control c = ltb c 32 || (leb 127 c && ltb c 160)

unfoldable pub without_controls : List ℕ → List ℕ
without_controls [] = []
without_controls (c ∷ cs) =
    let rest = without_controls cs in if is_control c then rest else c ∷ rest

abbrev pub max_error_len : ℕ
max_error_len = 128

unfoldable pub sanitize_message : List ℕ → List ℕ
unfolding without_controls
sanitize_message raw = take max_error_len (without_controls raw)

-- the Boolean: this was the stream's first failure
unfoldable pub record_udp_send_error : List ℕ → StreamStats → StreamStats × Bool
unfolding sanitize_message
record_udp_send_error message s =
    let count = failures s.udp_send_errors + 1 in
    (
      record s {
        udp_send_errors = some (record { count = count; last_error = sanitize_message message });
      },
      count == 1,
    )

abbrev pub set_udp_jitter_us : ℕ → StreamStats → StreamStats
set_udp_jitter_us jitter_us s = record s { udp_jitter_us = jitter_us }

abbrev pub set_udp_progress : ℕ → ℕ → StreamStats → StreamStats
set_udp_progress received lost s = record s {
  udp_progress = record { packets_received = received; packets_lost = lost };
}

abbrev pub total_bytes : StreamStats → ℕ
total_bytes s = (s.bytes_sent + s.bytes_received) % u64_mod

abbrev pub rtt_of : Option TcpInfoSnapshot → Option ℕ
rtt_of none = none
rtt_of (some t) = some t.rtt_us

abbrev pub cwnd_of : Option TcpInfoSnapshot → Option ℕ
cwnd_of none = none
cwnd_of (some t) = some t.cwnd

abbrev retransmits_since : ℕ → Option TcpInfoSnapshot → ℕ
retransmits_since last none = 0
retransmits_since last (some info) = info.retransmits - last

abbrev last_retransmits : ℕ → Option TcpInfoSnapshot → ℕ
last_retransmits last none = last
last_retransmits last (some info) = info.retransmits

-- only the last `max_interval_history` are kept
unfoldable pub push_interval : IntervalStats → List IntervalStats → List IntervalStats
push_interval x intervals =
    let pushed = intervals ++ x ∷ [] in
    if ltb max_interval_history (length pushed) then drop 1 pushed else pushed

-- the kernel's answer on a socket, which is code of the system
module _ (get_tcp_info_from_fd : ℕ → Option TcpInfoSnapshot) where
  abbrev poll_fd : Option ℕ → Option TcpInfoSnapshot
  poll_fd none = none
  poll_fd (some fd) = get_tcp_info_from_fd fd

  abbrev pub poll_tcp_info : StreamStats → Option TcpInfoSnapshot
  poll_tcp_info s = poll_fd s.tcp_info_fd

  abbrev or_poll : Option TcpInfoSnapshot → Option TcpInfoSnapshot → Option TcpInfoSnapshot
  or_poll (some info) polled = some info
  or_poll none polled = polled

  abbrev pub read_final_tcp_info : StreamStats → Option TcpInfoSnapshot
  read_final_tcp_info s = or_poll s.final_tcp_info (poll_tcp_info s)

  abbrev pub interval_of : Option TcpInfoSnapshot → StreamStats → IntervalStats
  interval_of tcp_info s = record {
    bytes = total_bytes s - s.last_bytes;
    retransmits = retransmits_since s.last_tcp_retransmits tcp_info;
    jitter_us = s.udp_jitter_us;
    lost = s.udp_progress.packets_lost - s.last_udp_lost;
    rtt_us = rtt_of tcp_info;
    cwnd = cwnd_of tcp_info;
    bytes_sent = s.bytes_sent - s.last_bytes_sent;
    bytes_received = s.bytes_received - s.last_bytes_received;
    cumulative_packets_received = s.udp_progress.packets_received;
    cumulative_packets_lost = s.udp_progress.packets_lost;
  }

  unfoldable pub record_interval : StreamStats → StreamStats × IntervalStats
  unfolding push_interval
  record_interval s =
      let tcp_info = poll_tcp_info s in
      let stats = interval_of tcp_info s in
      (
        record s {
          last_bytes = total_bytes s;
          last_bytes_sent = s.bytes_sent;
          last_bytes_received = s.bytes_received;
          last_udp_lost = s.udp_progress.packets_lost;
          last_tcp_retransmits = last_retransmits s.last_tcp_retransmits tcp_info;
          interval_retransmits_total =
              if ltb 0 stats.retransmits
              then saturating_add s.interval_retransmits_total stats.retransmits
              else s.interval_retransmits_total;
          intervals = push_interval stats s.intervals;
        },
        stats,
      )
