-- ===== src/Packet/Tests.antt =====
-- Packet.c and checksum.c on concrete packets.
use cpe_networking_rejective.Prelude.{
  ℕ, ◌≡◌, refl, true, false, List, [], ◌∷◌, ◌++◌, arith, length, set, drop, Bytes,
}
use cpe_networking_rejective.Checksum.{internet_checksum}
use cpe_networking_rejective.Checksum.InCksum.{
  sum_words, fold_sum, linked, in_cksum, in_cksum-internet_checksum,
}
use cpe_networking_rejective.Packet.{
  srej_header_len, flag_data, write_u32, get_seq, get_flag, make_packet, check_packet,
}
use cpe_networking_rejective.Packet.RoundTrip.{check_packet-make_packet, packet_fields}

-- The bytes of "hello".
abbrev hello : List ℕ
hello = 104 ∷ 101 ∷ 108 ∷ 108 ∷ 111 ∷ []

hello-Bytes : Bytes hello
hello-Bytes = (omega arith, (omega arith, (omega arith, (omega arith, (omega arith, tt)))))

-- The byte behind the five bytes is not zero.
abbrev memory : List ℕ
memory = hello ++ 255 ∷ 1 ∷ []

in_cksum-internet_checksum_example : in_cksum memory 5 ≡ internet_checksum hello
in_cksum-internet_checksum_example =
    in_cksum-internet_checksum memory 5 hello-Bytes (omega arith) (omega arith)

check_packet-make_packet_example : check_packet (make_packet 2 flag_data hello 5) ≡ true
check_packet-make_packet_example =
    check_packet-make_packet 2 flag_data hello 5 (omega arith) hello-Bytes (omega arith)

packet_fields_example :
    (get_seq (make_packet 70000 flag_data hello 5) ≡ 70000)
    × (get_flag (make_packet 70000 flag_data hello 5) ≡ flag_data)
    × (drop srej_header_len (make_packet 70000 flag_data hello 5) ≡ hello)
    × (length (make_packet 70000 flag_data hello 5) ≡ 12)
packet_fields_example = packet_fields 70000 flag_data hello 5 (omega arith) (omega arith)

-- A packet with one bit turned over is not accepted.
damaged : check_packet (set (make_packet 2 flag_data hello 5) 8 100) ≡ false
unfolding check_packet make_packet write_u32 in_cksum sum_words fold_sum
damaged = refl
