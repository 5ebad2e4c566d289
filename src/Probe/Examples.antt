-- ===== src/Probe/Examples.antt =====
-- A probe packet at concrete values.
use xfr.Prelude.{ℕ, List, replicate}
use xfr.Probe.Packet.{ProbePacket}

abbrev probe : ProbePacket
probe = record { kind = 1; seq = 7; declared_size = 40 }

abbrev buffer : List ℕ
buffer = replicate 48 0
