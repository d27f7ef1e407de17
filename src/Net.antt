-- ===== src/Net.antt =====
-- What the program's network calls do, as far as it can see: `pollCall` of
-- udpCode_spring26_v3/pollLib.c followed by `safeRecvfrom` of safeUtil.c.
pub mod Wait
use cpe_networking_rejective.Prelude.{ℕ, List, take}
use cpe_networking_rejective.Packet.{srej_max_packet}

-- Nothing in the time that was allowed, or a datagram with the address of its sender. An address is
-- a number.
pub data Event : Type 0 where
  timeout : Event
  arrives : ℕ → List ℕ → Event

-- `recvfrom` with room for SREJ_MAX_PACKET bytes cuts a longer datagram.
abbrev pub received : List ℕ → List ℕ
received bytes = take srej_max_packet bytes
