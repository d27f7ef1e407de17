-- ===== src/Server/Complete/Tests.antt =====
-- server.c on a file of two pieces, of which the network repeats and damages packets.
use cpe_networking_rejective.Prelude.{
  ℕ, ◌≤◌, ◌≡◌, refl, true, ◌||◌, List, [], ◌∷◌, ◌++◌, arith, leb, replicate, All,
}
use cpe_networking_rejective.Checksum.InCksum.{sum_words, fold_sum, in_cksum, linked}
use cpe_networking_rejective.Net.{Event, arrives, timeout, received}
use cpe_networking_rejective.Upload.{IsGenuine}
use cpe_networking_rejective.Packet.{
  flag_eof, write_u32, read_u32, get_seq, get_flag, make_packet, check_packet,
}
use cpe_networking_rejective.Server.{max_tries, process_client}
use cpe_networking_rejective.Server.Farewell.{has_farewell, timeouts}
use cpe_networking_rejective.Server.Process.{AreGenuine}
use cpe_networking_rejective.Server.Tests.{
  disk, disk-IsFull, two_pieces, setup, piece_2, piece_3, setup_pos, setup_room, piece_2-IsGenuine,
  piece_3-IsGenuine,
}
use cpe_networking_rejective.Server.Catch.{is_calm, next_missing}
use cpe_networking_rejective.Server.Complete.{Completes, process_client-Completes}

-- A packet of one byte has lost its header.
abbrev needed : List Event
needed =
    arrives 7 piece_3
    ∷ arrives 7 piece_2
    ∷ arrives 7 (9 ∷ [])
    ∷ arrives 7 piece_2
    ∷ arrives 7 piece_3
    ∷ []

abbrev eof : List ℕ
eof = make_packet 4 flag_eof [] 0

-- The DONE packet is lost, and the EOF comes again: ten quiet periods end the wait.
abbrev quiet : List Event
quiet = arrives 7 eof ∷ replicate 10 timeout

damaged-IsGenuine : IsGenuine two_pieces (9 ∷ [])
unfolding check_packet
damaged-IsGenuine good flag = absurd (ground (arith, good))

needed-AreGenuine : AreGenuine two_pieces needed
unfolding make_packet write_u32 sum_words fold_sum in_cksum
needed-AreGenuine = (
  piece_3-IsGenuine,
  (piece_2-IsGenuine, (damaged-IsGenuine, (piece_2-IsGenuine, (piece_3-IsGenuine, tt)))),
)

needed_calm : All (λ e. is_calm e ≡ true) needed
unfolding check_packet make_packet write_u32 sum_words fold_sum in_cksum get_flag
needed_calm = (refl, (refl, (refl, (refl, (refl, tt)))))

needed_all : two_pieces.limit ≤ next_missing two_pieces.first needed
unfolding check_packet make_packet write_u32 read_u32 sum_words fold_sum in_cksum get_flag get_seq
needed_all = omega arith

eof_good : check_packet (received eof) ≡ true
unfolding check_packet make_packet write_u32 sum_words fold_sum in_cksum
eof_good = refl

eof_flag : get_flag (received eof) ≡ flag_eof
unfolding make_packet write_u32 sum_words fold_sum in_cksum get_flag
eof_flag = refl

quiet_ends : has_farewell quiet || leb max_tries (timeouts quiet) ≡ true
unfolding check_packet make_packet write_u32 sum_words fold_sum in_cksum get_flag
quiet_ends = refl

process_client-Completes_example :
    Completes disk disk-IsFull two_pieces
      (process_client disk setup 7 (needed ++ arrives 7 eof ∷ quiet))
process_client-Completes_example =
    process_client-Completes disk disk-IsFull two_pieces setup 7 6 needed 7 eof quiet refl
      (omega arith) setup_pos setup_room refl refl needed-AreGenuine needed_calm needed_all eof_good
      eof_flag quiet_ends
