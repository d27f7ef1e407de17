-- ===== src/Server/Tests.antt =====
-- server.c on a file of two pieces.
use cpe_networking_rejective.Prelude.{
  ℕ, zero, suc, ◌+◌, ◌%◌, ◌^◌, ◌≤◌, ◌<◌, ◌≡◌, refl, true, false, ◌&&◌, Option, none, some, List, [],
  ◌∷◌, arith, ◌==◌, if◌then◌else◌, length, get_or, drop,
}
use cpe_networking_rejective.Checksum.InCksum.{sum_words, fold_sum, in_cksum, linked}
use cpe_networking_rejective.Net.{Event, arrives}
use cpe_networking_rejective.Upload.{Upload, IsGenuine}
use cpe_networking_rejective.Packet.{
  srej_header_len, flag_data, flag_filename, flag_eof, flag_done, write_u32, read_u32, get_seq,
  get_flag, make_packet, check_packet,
}
use cpe_networking_rejective.Buffer.{
  zeroed, buffer_init, buffer_expected, buffer_in_window, buffer_has, buffer_has_later,
  has_later_from, buffer_save, data_at, written, write_from, buffer_write_ready, buffer_need_reject,
  buffer_clear_reject,
}
use cpe_networking_rejective.Buffer.Ready.{IsFull}
use cpe_networking_rejective.Server.{
  ServerInfo, State, System, start_state, new_client, send_rr, send_reject, send_filename_response,
  resend_last_ack, send_eof_ack, handle_eof_packet, request_missing, acknowledge,
  handle_data_packet, filename_state, recv_data_state, wait_on_done_state, process_loop,
  process_client,
}
use cpe_networking_rejective.Server.Progress.{handle_data_packet_advances}
use cpe_networking_rejective.Server.{done}
use cpe_networking_rejective.Server.Honest.{IsHonest}
use cpe_networking_rejective.Server.Promise.{process_client-IsHonest}
use cpe_networking_rejective.Server.Delivery.{IsDelivering}
use cpe_networking_rejective.Server.Receive.{handle_data_packet-Continues}
use cpe_networking_rejective.Server.Handle.{Continues}
use cpe_networking_rejective.Server.Process.{AreGenuine}
use cpe_networking_rejective.Server.Transfer.{setup_payload, Uploads, process_client-Uploads}

abbrev pub disk : System
disk = record {
  socket = 3;
  open_file = λ name. some 6;
  calloc = λ n. true;
  write = λ out xs. some (length xs);
}

pub disk-IsFull : IsFull disk.write
disk-IsFull out xs n h = ground (arith, h)

-- Packet 2 carries 10 20 and packet 3 carries 30.
abbrev pub two_pieces : Upload
two_pieces = record { chunk = λ s. if s == 2 then 10 ∷ 20 ∷ [] else 30 ∷ []; first = 2; limit = 4 }

abbrev pub setup : List ℕ
setup = make_packet 1 flag_filename (0 ∷ 0 ∷ 0 ∷ 2 ∷ 0 ∷ 0 ∷ 0 ∷ 2 ∷ 97 ∷ 0 ∷ []) 10

abbrev pub piece_2 : List ℕ
piece_2 = make_packet 2 flag_data (10 ∷ 20 ∷ []) 2

abbrev pub piece_3 : List ℕ
piece_3 = make_packet 3 flag_data (30 ∷ []) 1

-- The second piece comes first, and the first twice.
abbrev brought : List Event
brought =
    arrives 7 piece_3
    ∷ arrives 7 piece_2
    ∷ arrives 7 piece_2
    ∷ arrives 7 (make_packet 4 flag_eof [] 0)
    ∷ arrives 7 (make_packet 5 flag_done [] 0)
    ∷ []

pub setup_pos : 0 < read_u32 (setup_payload setup)
unfolding read_u32 make_packet write_u32 sum_words fold_sum in_cksum
setup_pos = omega arith

pub setup_room : two_pieces.limit + read_u32 (setup_payload setup) < 2 ^ 32
unfolding read_u32 make_packet write_u32 sum_words fold_sum in_cksum
setup_room = omega arith

pub piece_2-IsGenuine : IsGenuine two_pieces piece_2
unfolding read_u32 get_seq get_flag make_packet write_u32 sum_words fold_sum in_cksum
piece_2-IsGenuine good flag = (omega arith, refl)

pub piece_3-IsGenuine : IsGenuine two_pieces piece_3
unfolding read_u32 get_seq get_flag make_packet write_u32 sum_words fold_sum in_cksum
piece_3-IsGenuine good flag = (omega arith, refl)

eof-IsGenuine : IsGenuine two_pieces (make_packet 4 flag_eof [] 0)
unfolding get_flag make_packet write_u32 sum_words fold_sum in_cksum
eof-IsGenuine good flag = absurd (omega (arith, flag))

done-IsGenuine : IsGenuine two_pieces (make_packet 5 flag_done [] 0)
unfolding get_flag make_packet write_u32 sum_words fold_sum in_cksum
done-IsGenuine good flag = absurd (omega (arith, flag))

brought-AreGenuine : AreGenuine two_pieces brought
unfolding make_packet write_u32 sum_words fold_sum in_cksum
brought-AreGenuine = (
  piece_3-IsGenuine,
  (piece_2-IsGenuine, (piece_2-IsGenuine, (eof-IsGenuine, (done-IsGenuine, tt)))),
)

process_client-Uploads_example :
    Uploads disk disk-IsFull two_pieces (process_client disk setup 7 brought)
process_client-Uploads_example =
    process_client-Uploads disk disk-IsFull two_pieces setup 7 6 brought refl (omega arith)
      setup_pos setup_room refl refl brought-AreGenuine

-- A server that expects packet 2.
abbrev waiting : ServerInfo
waiting = record {
  socket_num = 3;
  output_file = some 6;
  window_size = 2;
  buffer_size = 2;
  retry_count = 0;
  control_seq = 2;
  first_packet = [];
  last_ack = [];
  client = 7;
  buffer = record {
    entry = zeroed ∷ zeroed ∷ [];
    size = 2;
    output_file = [];
    expected = 2;
    missing_seq = 0;
    missing_active = 0;
  };
  sent = [];
}

waiting_empty : (s : ℕ) → buffer_has waiting.buffer s ≡ false
unfolding buffer_has
waiting_empty s = none_used (s % 2)
  where
    none_used :
        (i : ℕ)
        → (if (get_or waiting.buffer.entry i zeroed).used == 1
              && (get_or waiting.buffer.entry i zeroed).seq == s
            then true
            else false)
          ≡ false
    none_used zero = refl
    none_used (suc zero) = refl
    none_used (suc (suc i)) = refl

waiting-IsDelivering : IsDelivering two_pieces waiting.buffer
waiting-IsDelivering = record {
  array = record { pos = omega arith; len = refl };
  room = omega arith;
  taken = 0;
  expects = refl;
  within = omega arith;
  output = refl;
  ahead = λ s h. ground (arith, h, waiting_empty s);
  genuine = λ s h. ground (arith, h, waiting_empty s);
}

piece_3_fields :
    (srej_header_len ≤ length piece_3)
    × (get_seq piece_3 < two_pieces.limit)
    × (drop srej_header_len piece_3 ≡ two_pieces.chunk (get_seq piece_3))
unfolding read_u32 get_seq make_packet write_u32 sum_words fold_sum in_cksum
piece_3_fields = (omega arith, omega arith, refl)

handle_data_packet-Continues_example :
    Continues disk two_pieces waiting (handle_data_packet disk waiting piece_3)
handle_data_packet-Continues_example =
    handle_data_packet-Continues disk disk-IsFull two_pieces waiting piece_3 waiting-IsDelivering
      piece_3_fields.0 piece_3_fields.1 piece_3_fields.2

piece_2_fields :
    (srej_header_len ≤ length piece_2)
    × (get_seq piece_2 ≡ waiting.buffer.expected)
    × (get_seq piece_2 < two_pieces.limit)
    × (drop srej_header_len piece_2 ≡ two_pieces.chunk (get_seq piece_2))
unfolding read_u32 get_seq make_packet write_u32 sum_words fold_sum in_cksum
piece_2_fields = (omega arith, refl, omega arith, refl)

handled : Option ServerInfo → ServerInfo
handled none = waiting
handled (some info) = info

after_piece_2 : ServerInfo
unfolding handled
after_piece_2 = handled (handle_data_packet disk waiting piece_2)

piece_2_handled : handle_data_packet disk waiting piece_2 ≡ some after_piece_2
unfolding after_piece_2 handled process_client process_loop start_state new_client filename_state
    recv_data_state wait_on_done_state handle_data_packet handle_eof_packet request_missing
    acknowledge send_rr send_reject send_filename_response resend_last_ack send_eof_ack buffer_init
    buffer_expected buffer_in_window buffer_has buffer_has_later has_later_from buffer_save data_at
    written write_from buffer_write_ready buffer_need_reject buffer_clear_reject read_u32 get_seq
    get_flag make_packet check_packet write_u32 sum_words fold_sum in_cksum
piece_2_handled = refl

handle_data_packet_advances_example : waiting.buffer.expected < after_piece_2.buffer.expected
handle_data_packet_advances_example =
    handle_data_packet_advances disk disk-IsFull two_pieces waiting piece_2 after_piece_2
      waiting-IsDelivering piece_2_fields.0 piece_2_fields.1 piece_2_fields.2 piece_2_fields.3
      piece_2_handled

-- What a run writes, where it stops, and how many packets it sends.
summary : Option (ServerInfo × (State × List Event)) → List ℕ × (List Event × ℕ)
summary none = ([], ([], 0))
summary (some (info, (s, rest))) = (info.buffer.output_file, (rest, length info.sent))

-- One response, a reject, an RR and another for the repeated packet, and the answer to EOF.
whole_file : summary (process_client disk setup 7 brought) ≡ (10 ∷ 20 ∷ 30 ∷ [], ([], 5))
unfolding summary process_client process_loop start_state new_client filename_state recv_data_state
    wait_on_done_state handle_data_packet handle_eof_packet request_missing acknowledge send_rr
    send_reject send_filename_response resend_last_ack send_eof_ack buffer_init buffer_expected
    buffer_in_window buffer_has buffer_has_later has_later_from buffer_save data_at written
    write_from buffer_write_ready buffer_need_reject buffer_clear_reject read_u32 get_seq get_flag
    make_packet check_packet write_u32 sum_words fold_sum in_cksum
whole_file = refl

info_of : Option (ServerInfo × (State × List Event)) → ServerInfo
info_of none = new_client [] 0
info_of (some (info, r)) = info

server_end : ServerInfo
unfolding info_of
server_end = info_of (process_client disk setup 7 brought)

server_run : process_client disk setup 7 brought ≡ some (server_end, (done, []))
unfolding server_end info_of process_client process_loop start_state new_client filename_state
    recv_data_state wait_on_done_state handle_data_packet handle_eof_packet request_missing
    acknowledge send_rr send_reject send_filename_response resend_last_ack send_eof_ack buffer_init
    buffer_expected buffer_in_window buffer_has buffer_has_later has_later_from buffer_save data_at
    written write_from buffer_write_ready buffer_need_reject buffer_clear_reject read_u32 get_seq
    get_flag make_packet check_packet write_u32 sum_words fold_sum in_cksum
server_run = refl

process_client-IsHonest_example : IsHonest server_end
process_client-IsHonest_example =
    process_client-IsHonest disk disk-IsFull two_pieces setup 7 6 brought [] server_end done refl
      (omega arith) setup_pos setup_room refl refl brought-AreGenuine server_run
