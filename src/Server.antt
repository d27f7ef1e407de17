-- ===== src/Server.antt =====
-- udpCode_spring26_v3/server.h and server.c: the child process that receives one file.
-- A function that updates `*info` returns the new record. What the process sends is the field
-- `sent`: the address and the bytes of each packet that `safeSendto` handed over, oldest first. An
-- address is a number. `none` stands for an `exit(-1)`.
pub mod Delivery
pub mod Handle
pub mod Receive
pub mod Process
pub mod Transfer
pub mod Honest
pub mod Branches
pub mod Promise
pub mod Progress
pub mod Parent
pub mod Farewell
pub mod Catch
pub mod Complete
mod Tests
use cpe_networking_rejective.Prelude.{
  ℕ, zero, suc, ◌+◌, ◌-◌, Bool, not, Option, none, some, List, [], ◌∷◌, ◌++◌, ltb, leb, ◌==◌,
  if◌then◌else◌, length, drop, replicate, u32,
}
use cpe_networking_rejective.Checksum.{Checksum}
use cpe_networking_rejective.Net.{Event, timeout, arrives, received}
use cpe_networking_rejective.Packet.{
  srej_header_len, srej_max_packet, flag_data, flag_rr, flag_srej, flag_filename_resp, flag_eof,
  flag_eof_ack, flag_done, write_u32, read_u32, get_seq, get_flag, make_packet, check_packet,
}
use cpe_networking_rejective.Buffer.{
  Buffer, buffer_init, buffer_expected, buffer_in_window, buffer_has_later, buffer_save,
  buffer_write_ready, buffer_need_reject, buffer_clear_reject,
}

abbrev pub max_tries : ℕ
max_tries = 10

abbrev pub first_data_seq : ℕ
first_data_seq = 2

pub data State : Type 0 where
  start filename recv_data wait_on_done done : State

-- `last_ack_len` and `first_packet_len` are the lengths of the lists beside them.
pub record ServerInfo : Type 0 where
  pub socket_num : ℕ
  pub output_file : Option ℕ
  pub window_size : ℕ
  pub buffer_size : ℕ
  pub retry_count : ℕ
  pub control_seq : ℕ
  pub first_packet : List ℕ
  pub last_ack : List ℕ
  pub client : ℕ
  pub buffer : Buffer
  pub sent : List (ℕ × List ℕ)

-- The system calls, as far as their results matter. `open_file` gives a descriptor for a file that is
-- created or emptied; `write` and `calloc` are as in Buffer.
pub record System : Type 0 where
  pub socket : ℕ
  pub open_file : List ℕ → Option ℕ
  pub calloc : ℕ → Bool
  pub write : List ℕ → List ℕ → Option ℕ

abbrev pub safe_sendto : ServerInfo → List ℕ → ServerInfo
safe_sendto info packet = record info { sent = info.sent ++ ((info.client, packet) ∷ []) }

abbrev pub with_buffer : ServerInfo → Buffer → ServerInfo
with_buffer info b = record info { buffer = b }

-- The bytes of a C string.
abbrev pub c_string : List ℕ → List ℕ
c_string [] = []
c_string (c ∷ cs) = if c == 0 then [] else c ∷ c_string cs

-- `setupPollSet` and `addToPollSet` only prepare `pollCall`, whose results are the events.
unfoldable pub start_state : System → ServerInfo → ServerInfo × State
start_state os info = (record info { socket_num = os.socket }, filename)

-- `memset(&info, 0, sizeof(ServerInfo)); memcpy(info.first_packet, packet, packet_len)`: the rest of
-- the array is zero.
abbrev pub zero_padded : List ℕ → List ℕ
zero_padded packet = packet ++ replicate (srej_max_packet - length packet) 0

unfoldable pub new_client : List ℕ → ℕ → ServerInfo
new_client packet from = record {
  socket_num = 0;
  output_file = some 0;
  window_size = 0;
  buffer_size = 0;
  retry_count = 0;
  control_seq = 1;
  first_packet = zero_padded packet;
  last_ack = [];
  client = from;
  buffer = record {
    entry = [];
    size = 0;
    output_file = [];
    expected = 0;
    missing_seq = 0;
    missing_active = 0;
  };
  sent = [];
}

module _ ⦃ck : Checksum⦄ where
  -- `make_packet` with the next control number, which is then used up.
  abbrev pub send_control : ServerInfo → ℕ → List ℕ → ℕ → ServerInfo
  send_control info flag payload len =
      safe_sendto (record info { control_seq = u32 (info.control_seq + 1) })
        (make_packet info.control_seq flag payload len)

  unfoldable pub send_rr : ServerInfo → ServerInfo
  send_rr info = send_control info flag_rr (write_u32 (buffer_expected info.buffer)) 4

  unfoldable pub send_reject : ServerInfo → ℕ → ServerInfo
  send_reject info seq = send_control info flag_srej (write_u32 seq) 4

  unfoldable pub send_filename_response : ServerInfo → ℕ → ServerInfo
  send_filename_response info value = send_control info flag_filename_resp (value ∷ []) 1

  unfoldable pub resend_last_ack : ServerInfo → ServerInfo
  resend_last_ack info = safe_sendto info info.last_ack

  unfoldable pub send_eof_ack : ServerInfo → ServerInfo
  unfolding resend_last_ack
  send_eof_ack info = resend_last_ack (record info {
    last_ack = make_packet info.control_seq flag_eof_ack [] 0;
    control_seq = u32 (info.control_seq + 1);
  })

  unfoldable pub handle_eof_packet : ServerInfo → ServerInfo
  unfolding send_eof_ack
  handle_eof_packet info = record (send_eof_ack info) { retry_count = 0 }

  -- `if (buffer_need_reject(...) == 1) send_reject(info, buffer_expected(...))`
  unfoldable pub request_missing : ServerInfo → ServerInfo
  request_missing info =
      let (b, need) = buffer_need_reject info.buffer in
      let asked = with_buffer info b in
      if need then send_reject asked (buffer_expected b) else asked

  -- The branch of `handle_data_packet` for the expected packet, after the files' bytes are written.
  unfoldable pub acknowledge : ServerInfo → Buffer → ServerInfo
  acknowledge info b =
      let acked = send_rr (with_buffer info b) in
      if buffer_has_later acked.buffer then request_missing acked else acked

  module _ (os : System) where
    unfoldable pub handle_data_packet : ServerInfo → List ℕ → Option ServerInfo
    handle_data_packet info packet =
        let seq = get_seq packet in
        let data_len = length packet - srej_header_len in
        let bytes = drop srej_header_len packet in
        if ltb seq (buffer_expected info.buffer)
        then some (send_rr info)
        else if not (buffer_in_window info.buffer seq)
        then some (send_rr info)
        else let b = buffer_save info.buffer seq bytes data_len in
          if seq == buffer_expected b
          then elim (buffer_write_ready os.write (buffer_clear_reject b seq)) [
            | none ↦ none
            | some b' ↦ some (acknowledge info b')
          ]
          else some (request_missing (with_buffer info b))

    unfoldable pub filename_state : ServerInfo → Option (ServerInfo × State)
    filename_state info =
        let payload = drop srej_header_len info.first_packet in
        let sized : ServerInfo = record info {
          window_size = read_u32 payload;
          buffer_size = read_u32 (drop 4 payload);
        } in
        elim (os.open_file (c_string (drop 8 payload))) [
          | none ↦ some (send_filename_response (record sized { output_file = none }) 1, done)
          | some fd ↦
              let opened = send_filename_response (record sized { output_file = some fd }) 0 in
              elim (buffer_init os.calloc opened.window_size first_data_seq []) [
                | none ↦ none
                | some b ↦ some (with_buffer opened b, recv_data)
              ]
        ]

    unfoldable pub recv_data_state : ServerInfo → Event → Option (ServerInfo × State)
    recv_data_state info timeout = some (info, done)
    recv_data_state info (arrives from bytes) =
        let packet = received bytes in
        let heard : ServerInfo = record info { client = from } in
        if not (check_packet packet)
        then some (heard, recv_data)
        else if get_flag packet == flag_data
        then elim (handle_data_packet heard packet) [
          | none ↦ none
          | some handled ↦ some (handled, recv_data)
        ]
        else if get_flag packet == flag_eof
        then some (handle_eof_packet heard, wait_on_done)
        else some (heard, recv_data)

  unfoldable pub wait_on_done_state : ServerInfo → Event → ServerInfo × State
  wait_on_done_state info timeout =
      let tried : ServerInfo = record info { retry_count = info.retry_count + 1 } in
      if leb max_tries tried.retry_count
      then (tried, done)
      else (resend_last_ack tried, wait_on_done)
  wait_on_done_state info (arrives from bytes) =
      let packet = received bytes in
      let heard : ServerInfo = record info { client = from } in
      if not (check_packet packet)
      then (heard, wait_on_done)
      else if get_flag packet == flag_done
      then (heard, done)
      else if get_flag packet == flag_eof
      then (resend_last_ack heard, wait_on_done)
      else (heard, wait_on_done)

  module _ (os : System) where
    -- The `while (state != DONE)` loop of `process_client`: one round for each unit of fuel. The two
    -- receiving states take an event each; without one the process waits where it is.
    unfoldable pub process_loop :
        ℕ → State → ServerInfo → List Event → Option (ServerInfo × (State × List Event))
    process_loop zero state info events = some (info, (state, events))
    process_loop (suc fuel) done info events = some (info, (done, events))
    process_loop (suc fuel) start info events =
        let (i, s) = start_state os info in process_loop fuel s i events
    process_loop (suc fuel) filename info events = elim (filename_state os info) [
      | none ↦ none
      | some (i, s) ↦ process_loop fuel s i events
    ]
    process_loop (suc fuel) recv_data info [] = some (info, (recv_data, []))
    process_loop (suc fuel) recv_data info (e ∷ events) = elim (recv_data_state os info e) [
      | none ↦ none
      | some (i, s) ↦ process_loop fuel s i events
    ]
    process_loop (suc fuel) wait_on_done info [] = some (info, (wait_on_done, []))
    process_loop (suc fuel) wait_on_done info (e ∷ events) =
        let (i, s) = wait_on_done_state info e in process_loop fuel s i events

    -- Two rounds start the process, each event takes one, and one sees DONE: see `Process`.
    unfoldable pub process_client :
        List ℕ → ℕ → List Event → Option (ServerInfo × (State × List Event))
    process_client packet from events =
        process_loop (length events + 3) start (new_client packet from) events
