-- ===== src/Pdu/Tests.antt =====
-- PDU.c on a cleared and on a used buffer.
use cpe_networking_rejective.Prelude.{ℕ, ◌≡◌, refl, true, false, [], ◌∷◌, arith}
use cpe_networking_rejective.Prelude.Int.{ℤ, pos, negsuc}
use cpe_networking_rejective.Checksum.InCksum.{sum_words, fold_sum, in_cksum, linked}
use cpe_networking_rejective.Packet.{flag_data, write_u32, make_packet, check_packet, read_u32}
use cpe_networking_rejective.Pdu.{print_pdu, signed_of, create_pdu, create_pdu-make_packet}

create_pdu-make_packet_example :
    (create_pdu 0 0 2 flag_data (104 ∷ 105 ∷ []) 2 ≡ make_packet 2 flag_data (104 ∷ 105 ∷ []) 2)
    × (check_packet (create_pdu 0 0 2 flag_data (104 ∷ 105 ∷ []) 2) ≡ true)
create_pdu-make_packet_example =
    create_pdu-make_packet 2 flag_data (104 ∷ 105 ∷ []) 2 (omega arith)
      (omega arith, (omega arith, tt)) (omega arith)

-- In a buffer with an old checksum the new one is wrong.
stale_checksum : check_packet (create_pdu 1 0 2 flag_data (104 ∷ 105 ∷ []) 2) ≡ false
unfolding create_pdu check_packet write_u32 sum_words fold_sum in_cksum
stale_checksum = refl

abbrev printed_numbers : ℤ × ℤ × ℕ
printed_numbers = (pos 2, negsuc 32766, 3)

-- The checksum 0x8001 comes out negative.
print_test : print_pdu (0 ∷ 0 ∷ 0 ∷ 2 ∷ 1 ∷ 128 ∷ 3 ∷ []) ≡ printed_numbers
unfolding print_pdu signed_of read_u32
print_test = refl
