-- ===== src/Packet.antt =====
-- udpCode_spring26_v3/Packet.h and Packet.c: the 7 byte header (sequence number in network order,
-- checksum, flag), its fields and its checksum.
-- A packet and the `packet_len` that goes with it are one list of bytes, whose length is
-- `packet_len`; `packet + n` is `drop n packet`.
pub mod Fields
pub mod RoundTrip
mod Tests
use cpe_networking_rejective.Prelude.{
  ℕ, ◌+◌, ◌*◌, ◌/◌, ◌%◌, ◌^◌, Bool, true, false, List, [], ◌∷◌, ◌++◌, length, get_or, set, take,
  ltb, ◌==◌, if◌then◌else◌,
}
use cpe_networking_rejective.Checksum.{Checksum}

abbrev pub srej_header_len : ℕ
srej_header_len = 7

abbrev pub srej_max_data : ℕ
srej_max_data = 1400

abbrev pub srej_max_packet : ℕ
srej_max_packet = 1407

abbrev pub srej_max_name : ℕ
srej_max_name = 100

abbrev pub flag_data : ℕ
flag_data = 3

abbrev pub flag_rr : ℕ
flag_rr = 5

abbrev pub flag_srej : ℕ
flag_srej = 6

abbrev pub flag_filename : ℕ
flag_filename = 7

abbrev pub flag_filename_resp : ℕ
flag_filename_resp = 8

abbrev pub flag_eof : ℕ
flag_eof = 32

abbrev pub flag_eof_ack : ℕ
flag_eof_ack = 33

abbrev pub flag_done : ℕ
flag_done = 34

-- The four bytes that `htonl` and `memcpy` leave at `place`, most significant first.
unfoldable pub write_u32 : ℕ → List ℕ
write_u32 value =
    (value / 2 ^ 24 % 256) ∷ (value / 2 ^ 16 % 256) ∷ (value / 2 ^ 8 % 256) ∷ (value % 256) ∷ []

unfoldable pub read_u32 : List ℕ → ℕ
read_u32 place =
    get_or place 0 0 * 2 ^ 24
    + get_or place 1 0 * 2 ^ 16
    + get_or place 2 0 * 2 ^ 8
    + get_or place 3 0

unfoldable pub get_seq : List ℕ → ℕ
get_seq packet = read_u32 packet

unfoldable pub get_flag : List ℕ → ℕ
get_flag packet = get_or packet 6 0

-- `memcpy(packet + 4, &checksum, sizeof(unsigned short))`, low byte first.
abbrev pub store_checksum : ℕ → List ℕ → List ℕ
store_checksum checksum packet = set (set packet 4 (checksum % 256)) 5 (checksum / 256 % 256)

module _ ⦃ck : Checksum⦄ where
  -- `make_packet(packet, seq, flag, data, data_len)`: the first `packet_len` bytes of `packet`.
  unfoldable pub make_packet : ℕ → ℕ → List ℕ → ℕ → List ℕ
  unfolding write_u32
  make_packet seq flag payload data_len =
      let packet = write_u32 seq ++ (0 ∷ 0 ∷ flag ∷ take data_len payload) in
      store_checksum (ck.in_cksum packet) packet

  -- `check_packet(packet, packet_len)`; true is the result 1.
  unfoldable pub check_packet : List ℕ → Bool
  check_packet packet =
      if ltb (length packet) srej_header_len
      then false
      else if ck.in_cksum packet == 0
      then true
      else false
