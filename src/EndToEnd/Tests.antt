-- ===== src/EndToEnd/Tests.antt =====
-- A transfer of three bytes from end to end.
use cpe_networking_rejective.Prelude.{
  ℕ, ◌+◌, ◌^◌, ◌<◌, ◌≡◌, refl, ◌≢◌, inl, inr, true, Option, none, some, List, [], ◌∷◌, arith,
  length, set,
}
use cpe_networking_rejective.Checksum.InCksum.{sum_words, fold_sum, in_cksum, linked}
use cpe_networking_rejective.Net.{Event, timeout, arrives}
use cpe_networking_rejective.Packet.{
  flag_rr, flag_filename_resp, flag_eof_ack, write_u32, read_u32, get_seq, get_flag, make_packet,
  check_packet,
}
use cpe_networking_rejective.Window.{
  window_init, window_open, window_empty, window_add, window_find, window_lowest, window_rr,
  lowest_from, release, release_from, advance,
}
use cpe_networking_rejective.Rcopy
use cpe_networking_rejective.Rcopy.{
  RcopyInfo, Read, bytes, failed, zeroed_info, run_start_state, Args, process_file, poll_call,
  resend_packet, handle_rr, handle_reject, handle_control, is_control, controls_from,
  process_controls, send_one, after_data, send_from, send_data_state, wait_on_ack_state,
  send_final_done, eof_from, send_eof_state, filename_from, send_filename_packet, filename_state,
  process_loop,
}
use cpe_networking_rejective.Server
use cpe_networking_rejective.Server.{
  System, ServerInfo, new_client, send_rr, send_reject, send_filename_response, resend_last_ack,
  send_eof_ack, handle_eof_packet, request_missing, acknowledge, handle_data_packet,
  recv_data_state, wait_on_done_state, process_client,
}
use cpe_networking_rejective.Buffer.{
  buffer_init, buffer_expected, buffer_in_window, buffer_has, buffer_has_later, has_later_from,
  buffer_save, data_at, written, write_from, buffer_write_ready, buffer_need_reject,
  buffer_clear_reject,
}
use cpe_networking_rejective.EndToEnd.Complete.{success_means_delivered}
use cpe_networking_rejective.Server.Transfer.{setup_payload}
use cpe_networking_rejective.Buffer.Ready.{IsFull}
use cpe_networking_rejective.EndToEnd.Pieces.{pieces, file_of, flat}
use cpe_networking_rejective.EndToEnd.Client.{
  ClientRun, client-AllSendable, Returns, process_file-Returns,
}
use cpe_networking_rejective.EndToEnd.Delivery.{CameFrom, Delivered, server_writes_prefix}
use cpe_networking_rejective.Rcopy.Handshake.{AllSendable}

-- The server accepts, acknowledges packet 2 and, after a pause, the EOF packet.
abbrev answers : List Event
answers =
    arrives 9 (make_packet 1 flag_filename_resp (0 ∷ []) 1)
    ∷ arrives 9 (make_packet 2 flag_rr (write_u32 3) 4)
    ∷ timeout
    ∷ arrives 9 (make_packet 3 flag_eof_ack [] 0)
    ∷ []

abbrev copy : Args
copy = record {
  calloc = λ n. true;
  out_name = 97 ∷ [];
  window_size = 2;
  buffer_size = 3;
  input_file = 4;
  socket_num = 5;
  server = 9;
}

abbrev file : List Read
file = bytes (10 ∷ 20 ∷ 30 ∷ []) ∷ bytes [] ∷ []

run : Option (RcopyInfo × Rcopy.State)
unfolding process_loop zeroed_info run_start_state poll_call resend_packet handle_rr handle_reject
    handle_control is_control controls_from process_controls send_one after_data send_from
    send_data_state wait_on_ack_state send_final_done eof_from send_eof_state filename_from
    send_filename_packet filename_state window_init window_open window_empty window_add window_find
    window_lowest window_rr lowest_from release release_from advance sum_words fold_sum in_cksum
    write_u32 read_u32 get_seq get_flag make_packet check_packet
run = process_loop 6 copy Rcopy.State.start_state (zeroed_info file answers)

-- What the client is left with.
last_of : Option (RcopyInfo × Rcopy.State) → RcopyInfo
unfolding zeroed_info
last_of none = zeroed_info [] []
last_of (some (i, s)) = i

client_end : RcopyInfo
unfolding run last_of
client_end = last_of run

transfer : ClientRun 3 file client_end
unfolding run last_of client_end process_loop zeroed_info run_start_state poll_call resend_packet
    handle_rr handle_reject handle_control is_control controls_from process_controls send_one
    after_data send_from send_data_state wait_on_ack_state send_final_done eof_from send_eof_state
    filename_from send_filename_packet filename_state window_init window_open window_empty
    window_add window_find window_lowest window_rr lowest_from release release_from advance
    sum_words fold_sum in_cksum write_u32 read_u32 get_seq get_flag make_packet check_packet
transfer = record {
  fuel = 6;
  args = copy;
  events = answers;
  state = Rcopy.State.done;
  payload_size = refl;
  short_name = omega arith;
  pos = omega arith;
  small = omega arith;
  room = omega arith;
  runs = refl;
}

client-AllSendable_example : AllSendable (file_of 3 file) client_end
client-AllSendable_example = client-AllSendable 3 file client_end transfer

process_file-Returns_example : Returns (file_of 3 file) copy (process_file copy file answers)
process_file-Returns_example =
    process_file-Returns copy file answers (omega arith) (omega arith) (omega arith) (omega arith)

-- The first packet of the client starts the server process; the second arrives twice, with a damaged
-- one between.
abbrev setup : List ℕ
setup = 0 ∷ 0 ∷ 0 ∷ 1 ∷ 243 ∷ 157 ∷ 7 ∷ 0 ∷ 0 ∷ 0 ∷ 2 ∷ 0 ∷ 0 ∷ 0 ∷ 3 ∷ 97 ∷ 0 ∷ []

abbrev piece : List ℕ
piece = 0 ∷ 0 ∷ 0 ∷ 2 ∷ 232 ∷ 213 ∷ 3 ∷ 10 ∷ 20 ∷ 30 ∷ []

abbrev brought : List Event
brought = arrives 7 piece ∷ arrives 7 (set piece 8 21) ∷ arrives 7 piece ∷ timeout ∷ []

abbrev disk : System
disk = record {
  socket = 3;
  open_file = λ name. some 6;
  calloc = λ n. true;
  write = λ out xs. some (length xs);
}

disk-IsFull : IsFull disk.write
disk-IsFull out xs n h = ground (arith, h)

brought-CameFrom : CameFrom client_end.sent brought
unfolding client_end run last_of process_loop zeroed_info run_start_state poll_call resend_packet
    handle_rr handle_reject handle_control is_control controls_from process_controls send_one
    after_data send_from send_data_state wait_on_ack_state send_final_done eof_from send_eof_state
    filename_from send_filename_packet filename_state window_init window_open window_empty
    window_add window_find window_lowest window_rr lowest_from release release_from advance
    sum_words fold_sum in_cksum write_u32 read_u32 get_seq get_flag make_packet check_packet
brought-CameFrom = (inr (1, omega arith, refl), (inl refl, (inr (1, omega arith, refl), tt)))

setup_pos : 0 < read_u32 (setup_payload setup)
unfolding read_u32
setup_pos = omega arith

setup_room : (file_of 3 file).limit + read_u32 (setup_payload setup) < 2 ^ 32
unfolding read_u32
setup_room = omega arith

server_writes_prefix_example : Delivered disk 3 file (process_client disk setup 7 brought)
server_writes_prefix_example =
    server_writes_prefix 3 file client_end transfer disk setup 7 6 brought disk-IsFull
      brought-CameFrom setup_pos setup_room refl refl

-- The last packets of the client reach the server too.
abbrev brought_all : List Event
brought_all =
    arrives 7 piece
    ∷ arrives 7 (set piece 8 21)
    ∷ arrives 7 (0 ∷ 0 ∷ 0 ∷ 3 ∷ 223 ∷ 252 ∷ 32 ∷ [])
    ∷ arrives 7 (0 ∷ 0 ∷ 0 ∷ 4 ∷ 221 ∷ 251 ∷ 34 ∷ [])
    ∷ []

info_of : Option (ServerInfo × (Server.State × List Event)) → ServerInfo
info_of none = Server.new_client [] 0
info_of (some (info, r)) = info

server_end : ServerInfo
unfolding info_of
server_end = info_of (process_client disk setup 7 brought_all)

server_run : process_client disk setup 7 brought_all ≡ some (server_end, (Server.State.done, []))
unfolding server_end info_of process_client Server.process_loop Server.start_state new_client
    Server.filename_state recv_data_state wait_on_done_state handle_data_packet handle_eof_packet
    request_missing acknowledge send_rr send_reject send_filename_response resend_last_ack
    send_eof_ack buffer_init buffer_expected buffer_in_window buffer_has buffer_has_later
    has_later_from buffer_save data_at written write_from buffer_write_ready buffer_need_reject
    buffer_clear_reject read_u32 get_seq get_flag make_packet check_packet write_u32 sum_words
    fold_sum in_cksum
server_run = refl

transfer_done : transfer.state ≡ Rcopy.State.done
unfolding transfer
transfer_done = refl

no_error : client_end.had_error ≢ 1
unfolding run last_of client_end process_loop zeroed_info run_start_state poll_call resend_packet
    handle_rr handle_reject handle_control is_control controls_from process_controls send_one
    after_data send_from send_data_state wait_on_ack_state send_final_done eof_from send_eof_state
    filename_from send_filename_packet filename_state window_init window_open window_empty
    window_add window_find window_lowest window_rr lowest_from release release_from advance
    sum_words fold_sum in_cksum write_u32 read_u32 get_seq get_flag make_packet check_packet
no_error = omega arith

brought_all-CameFrom : CameFrom client_end.sent brought_all
unfolding run last_of client_end process_loop zeroed_info run_start_state poll_call resend_packet
    handle_rr handle_reject handle_control is_control controls_from process_controls send_one
    after_data send_from send_data_state wait_on_ack_state send_final_done eof_from send_eof_state
    filename_from send_filename_packet filename_state window_init window_open window_empty
    window_add window_find window_lowest window_rr lowest_from release release_from advance
    sum_words fold_sum in_cksum write_u32 read_u32 get_seq get_flag make_packet check_packet
brought_all-CameFrom = (
  inr (1, omega arith, refl),
  (inl refl, (inr (2, omega arith, refl), (inr (3, omega arith, refl), tt))),
)

answers-CameFrom : CameFrom server_end.sent transfer.events
unfolding transfer server_end info_of process_client Server.process_loop Server.start_state
    new_client Server.filename_state recv_data_state wait_on_done_state handle_data_packet
    handle_eof_packet request_missing acknowledge send_rr send_reject send_filename_response
    resend_last_ack send_eof_ack buffer_init buffer_expected buffer_in_window buffer_has
    buffer_has_later has_later_from buffer_save data_at written write_from buffer_write_ready
    buffer_need_reject buffer_clear_reject read_u32 get_seq get_flag make_packet check_packet
    write_u32 sum_words fold_sum in_cksum
answers-CameFrom =
    (inr (0, omega arith, refl), (inr (1, omega arith, refl), (inr (2, omega arith, refl), tt)))

success_means_delivered_example : server_end.buffer.output_file ≡ flat (pieces 3 file)
success_means_delivered_example =
    success_means_delivered 3 file client_end transfer transfer_done no_error disk setup 7 6
      brought_all [] server_end Server.State.done disk-IsFull server_run brought_all-CameFrom
      answers-CameFrom setup_pos setup_room refl refl
