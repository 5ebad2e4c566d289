-- ===== src/Lib.antt =====
-- xfr measures network throughput between a client and a server: a control channel negotiates a
-- test, whose streams then move data over TCP, UDP or QUIC. This library models the parts that
-- decide, count and encode. Sockets, timers and tasks are left out; where one of them matters, it
-- is an argument, a step or an event.
--
-- Prelude: the native numbers, lists, bytes, 64-bit words and their bits, which all parts share.
--
-- Udp (src/udp.rs): Wire has the packets of the data plane (UdpPacketHeader, UdpFeedbackPacket,
-- UdpHelloPacket: encode and decode) and classify_shared_datagram, which splits a shared socket's
-- datagrams between QUIC and the hellos; Token is encode_hello_token and parse_hello_token. Tracker
-- is PacketTracker: its bitmap of 1024 words of 64 bits is a list of numbers (a read past its end
-- gives 0 and a write changes nothing, where the source would panic), and record, record_unique,
-- record_tracked, confirm_jump, record_straggler, advance_window and clear_range are functions of
-- the same names (record is record_packet, record being a word of the language), and Tracker/Spec
-- is the abstract ledger of sequence numbers. Pacing is pacing_schedule, Feedback is
-- store_udp_feedback with UdpIntervalProgress of src/protocol.rs.
--
-- Budget (src/budget.rs, and claim_datagram of src/udp.rs): ByteBudget. Budget is each call run
-- alone, on a claim loop that succeeds at its first exchange; Budget/Shared has the senders of a
-- test interleave their loads and exchanges as a step relation.
--
-- Probe (src/probe.rs): Packet is ProbePacket, Search is size_ladder and SizeSearch. The verdicts
-- of the network are a function of the size. The search runs on fuel, and as many rounds as
-- Probe/Search/Ladder names are enough.
--
-- RateLimit (src/rate_limit.rs): RateLimiter, with the concurrent map as a function from addresses;
-- RateLimit/Admission runs checks, guards' drops and cleanup ticks in any order.
--
-- Acl (src/acl.rs): Acl and AclConfig over the networks of a library, which are a parameter with
-- their containment and their parser. Reading a file and splitting its lines into words is a
-- parameter too.
--
-- Auth (src/auth.rs): responses to a challenge, the constant-time comparison, the key file's checks
-- on Linux. HMAC is a parameter.
--
-- Control (src/control_crypto.rs, read_bounded_line of src/serve.rs): Codec is ControlCodec, with
-- the AEAD cipher as a parameter and its documented laws as the record IsAead; Keys derives the
-- keys and the server's proof; Reader is the line reader over the chunks of a buffered stream, 64
-- KiB a line before the handshake is over and 1 MiB on the plain text channel; Transport frames,
-- writes and reads messages. It uses Auth for the comparison of proofs. String::from_utf8_lossy is
-- a parameter.
--
-- Serve (src/serve.rs): Hello is check_udp_hello and the dispatcher of single-port UDP hellos,
-- beside which tests register and remove their routes; it uses Udp/Wire and the addresses of Acl;
-- Timeouts is initial_read_timeout_for_peer and the completion of byte-budget tests; Reporting is
-- run_inner of src/serve/reporting.rs, over the events that its select waits for, with Stats for
-- what it samples.
--
-- Protocol (src/protocol.rs): versions_compatible, capability_advertised,
-- supported_capabilities_without, the formats of timestamps, count_zero_byte_streams and the
-- validation of a TestAck.
--
-- Tcp (src/tcp.rs and src/pause.rs): Teardown says which errors end a stream quietly and what is
-- counted once it has ended; Send is the loop of send_data and Receive that of receive_data, each
-- over a list of what its iterations observe: the watch channels, the clock, and the arm of the
-- select that is ready first. Send uses Budget. Acked is wait_for_send_queue_acked, Pause is
-- wait_while_paused.
--
-- Stats (src/stats.rs): Stream is StreamStats, whose record_interval takes the kernel's answer as a
-- parameter; Aggregate and Final are the reports of a stream and of a test. The means that the
-- source rounds in floating point are a parameter; rates, mean jitter and percentages are left out.
--
-- Settings (src/tui/settings.rs): State is SettingsState with an operation for each of its methods,
-- Cycles are the values that the keys step through, and press is handle_tui_settings_key of
-- src/main.rs.
--
-- Cli (src/main.rs): Numbers is str::parse on unsigned numbers, Sizes parse_bitrate, parse_size and
-- parse_byte_budget, Address split_host_port, parse_bind_address and the address family (with
-- src/net.rs), Options the durations, the resolution of options from several sources and
-- ClientConfig::validate of src/client.rs, with Udp/Wire for payload sizes and Auth for keys. Text
-- is ASCII; humantime and the reading of an address literal are parameters.
--
-- Client (src/client.rs): Ports is sequential_bind_base, stream_bind_addr, tcp_data_port_range and
-- validate_tcp_control_port; Progress is UdpProgressFilter, udp_recv_interval_deltas and the
-- deadlines. It uses Udp/Feedback and Cli/Address.
--
-- A machine integer is a number whose bounds are hypotheses or kept by saturation as in the source;
-- where the source wraps or overflows, the remainder is written out. Loops are structural
-- recursion, except the probe's search.
--
-- Not modelled: the asynchronous loops of src/client.rs, src/serve.rs, src/udp.rs and src/quic.rs,
-- socket options, floating-point statistics, serialisation by serde, the drawing of the terminal
-- interface, the output formats and discovery.
pub mod Prelude
pub mod Udp
pub mod Budget
pub mod Probe
pub mod RateLimit
pub mod Acl
pub mod Auth
pub mod Control
pub mod Tcp
pub mod Stats
pub mod Settings
pub mod Cli
pub mod Client
pub mod Serve
pub mod Protocol
