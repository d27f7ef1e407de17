-- ===== src/Pdu.antt =====
-- udpCode_spring26_v3/PDU.c: `createPDU`, the older form of `make_packet`, and `printPDU`.
mod Tests
use cpe_networking_rejective.Prelude.{
  ℕ, ◌+◌, ◌-◌, ◌*◌, ◌^◌, ◌≤◌, ◌<◌, ◌≡◌, refl, true, List, ◌∷◌, ◌++◌, ltb, if◌then◌else◌, get_or,
  take, Bytes,
}
use cpe_networking_rejective.Prelude.Int.{ℤ, pos, negsuc}
use cpe_networking_rejective.Checksum.{Checksum}
use cpe_networking_rejective.Packet.{
  read_u32, write_u32, make_packet, store_checksum, check_packet, srej_max_data,
}
use cpe_networking_rejective.Packet.RoundTrip.{check_packet-make_packet}

-- The first `payload_len + header_len` bytes of `pduBuffer` after the call. It leaves two bytes of the
-- buffer as they were, `old_4` and `old_5`, until the checksum is stored over them.
unfoldable pub create_pdu : ⦃ck : Checksum⦄ → ℕ → ℕ → ℕ → ℕ → List ℕ → ℕ → List ℕ
unfolding write_u32
create_pdu ⦃ck = ck⦄ old_4 old_5 sequence_number flag payload payload_len =
    let pdu = write_u32 sequence_number ++ (old_4 ∷ old_5 ∷ flag ∷ take payload_len payload) in
    store_checksum (ck.in_cksum pdu) pdu

-- A number as an `int` or an `int16_t`, of a machine in two's complement.
unfoldable pub signed_of : ℕ → ℕ → ℤ
signed_of bits n = if ltb n (2 ^ bits) then pos n else negsuc (2 * 2 ^ bits - 1 - n)

-- The three numbers that `printPDU` prints. The checksum is read as it lies in memory, the low byte
-- first, and as a number with a sign.
unfoldable pub print_pdu : List ℕ → ℤ × ℤ × ℕ
unfolding read_u32 signed_of
print_pdu buffer = (
  signed_of 31 (read_u32 buffer),
  signed_of 15 (get_or buffer 4 0 + 256 * get_or buffer 5 0),
  get_or buffer 6 0,
)

-- In a buffer whose two checksum bytes are zero, `createPDU` builds, of a one byte flag, a payload
-- of bytes and a length of at most 1400, the same packet as `make_packet`, and `check_packet`
-- accepts it.
pub create_pdu-make_packet :
    ⦃ck : Checksum⦄ (sequence_number flag : ℕ) (payload : List ℕ) (payload_len : ℕ)
    → flag < 256
    → Bytes payload
    → payload_len ≤ srej_max_data
    → let pdu = create_pdu 0 0 sequence_number flag payload payload_len in
      (pdu ≡ make_packet sequence_number flag payload payload_len) × (check_packet pdu ≡ true)
unfolding create_pdu make_packet
create_pdu-make_packet sequence_number flag payload payload_len h k small =
    (refl, check_packet-make_packet sequence_number flag payload payload_len h k small)
