-- ===== src/Rcopy.antt =====
-- udpCode_spring26_v3/rcopy.c: the states of the client that sends one file, and its loop. The state
-- itself is in ClientState. `none` stands for an `exit(-1)`.
pub mod Controls
pub mod Sending
pub mod SendData
pub mod WaitOnAck
pub mod Handshake
pub mod Answered
pub mod Refused
pub mod Setup
pub mod Rounds
pub mod Greeting
pub mod Pace
pub mod Process
pub mod Ends
pub mod Reported
pub mod Believed
mod Tests
pub use cpe_networking_rejective.ClientState.{
  max_tries, first_seq, State, start_state, filename, send_data, wait_on_ack, send_eof, done, Read,
  bytes, failed, RcopyInfo, safe_sendto, Args,
}
unfoldable pub use cpe_networking_rejective.ClientState.{
  poll_call, resend_packet, handle_rr, handle_reject, zeroed_info, run_start_state, handle_control,
  is_control, controls_from, process_controls,
}
use cpe_networking_rejective.Prelude.{
  ℕ, zero, suc, ◌+◌, ◌*◌, Bool, true, false, not, ◌&&◌, ◌||◌, Option, none, some, List, [], ◌∷◌,
  ◌++◌, ltb, leb, ◌==◌, if◌then◌else◌, length, get_or, take, u32,
}
use cpe_networking_rejective.Checksum.{Checksum}
use cpe_networking_rejective.Net.{Event, timeout, arrives, received}
use cpe_networking_rejective.Packet.{
  srej_header_len, flag_data, flag_filename, flag_filename_resp, flag_eof, flag_eof_ack, flag_done,
  write_u32, get_flag, make_packet, check_packet,
}
use cpe_networking_rejective.Window.{
  window_init, window_open, window_empty, window_add, window_lowest,
}

module _ ⦃ck : Checksum⦄ where
  -- One round of the loop of `send_data_state` after a `read` that gave bytes.
  unfoldable pub send_one : RcopyInfo → List ℕ → RcopyInfo
  send_one info data_read =
      let send_seq = info.window.current in
      let packet = make_packet send_seq flag_data data_read (length data_read) in
      let gone = safe_sendto info packet in
      let kept : RcopyInfo = record gone {
        window = window_add gone.window send_seq packet (length packet);
        retry_count = 0;
      } in
      (process_controls kept).0

  -- After the loop of `send_data_state`.
  unfoldable pub after_data : RcopyInfo → RcopyInfo × State
  after_data info =
      if info.file_done == 1 && window_empty info.window
      then (info, send_eof)
      else (info, wait_on_ack)

  -- `while (window_open(&info->window) == 1 && info->file_done == 0)`, over the reads to come.
  unfoldable pub send_from : List Read → RcopyInfo → RcopyInfo × State
  send_from [] info =
      if window_open info.window && info.file_done == 0
      then after_data (record info { file_done = 1; reads = [] })
      else after_data (record info { reads = [] })
  send_from (failed ∷ rs) info =
      if window_open info.window && info.file_done == 0
      then (record info { had_error = 1; reads = rs }, done)
      else after_data (record info { reads = failed ∷ rs })
  send_from (bytes ds ∷ rs) info = elim (window_open info.window && info.file_done == 0) [
    | false ↦ after_data (record info { reads = bytes ds ∷ rs })
    | true ↦ elim (take info.buffer_size ds) [
      | [] ↦ after_data (record info { file_done = 1; reads = rs })
      | c ∷ cs ↦ send_from rs (send_one (record info { reads = rs }) (c ∷ cs))
    ]
  ]

  unfoldable pub send_data_state : RcopyInfo → RcopyInfo × State
  send_data_state info = send_from info.reads info

  unfoldable pub wait_on_ack_state : RcopyInfo → RcopyInfo × State
  wait_on_ack_state info =
      let (heard, got_control) = process_controls info in
      if ltb 0 got_control
      then (record heard { retry_count = 0 }, send_data)
      else elim (window_lowest heard.window) [
        | none ↦ (heard, send_data)
        | some entry ↦
            let tried : RcopyInfo = record heard { retry_count = heard.retry_count + 1 } in
            if leb max_tries tried.retry_count
            then (record tried { had_error = 1 }, done)
            else (resend_packet tried entry, wait_on_ack)
      ]

  unfoldable pub send_final_done : RcopyInfo → RcopyInfo
  send_final_done info =
      safe_sendto info (make_packet (u32 (info.window.current + 1)) flag_done [] 0)

  -- `check_packet(in_packet, in_len) == 1 && get_flag(in_packet) == flag`
  abbrev pub is_reply : ℕ → List ℕ → Bool
  is_reply flag packet = check_packet packet && get_flag packet == flag

  -- `while (tries < MAX_TRIES)` of `send_eof_state`; the first argument is the tries that are left.
  unfoldable pub eof_from : ℕ → RcopyInfo → List ℕ → RcopyInfo × State
  eof_from zero info packet = (record info { had_error = 1 }, done)
  eof_from (suc left) info packet =
      let (e, polled) = poll_call (safe_sendto info packet) in
      elim e [
        | timeout ↦ eof_from left polled packet
        | arrives from data_in ↦
            let heard : RcopyInfo = record polled { server = from } in
            elim (is_reply flag_eof_ack (received data_in)) [
              | true ↦ (send_final_done heard, done)
              | false ↦ eof_from left heard packet
            ]
      ]

  unfoldable pub send_eof_state : RcopyInfo → RcopyInfo × State
  send_eof_state info = eof_from max_tries info (make_packet info.window.current flag_eof [] 0)

  -- The loop of `send_filename_packet`; true is the result 1.
  unfoldable pub filename_from : ℕ → RcopyInfo → List ℕ → RcopyInfo × Bool
  filename_from zero info packet = (info, false)
  filename_from (suc left) info packet =
      let (e, polled) = poll_call (safe_sendto info packet) in
      elim e [
        | timeout ↦ filename_from left polled packet
        | arrives from data_in ↦
            let heard : RcopyInfo = record polled { server = from } in
            let in_packet = received data_in in
            elim (is_reply flag_filename_resp in_packet) [
              | true ↦
                  if ltb (length in_packet) (srej_header_len + 1)
                    || not (get_or in_packet srej_header_len 0 == 0)
                  then (heard, false)
                  else (record heard { control_seq = u32 (heard.control_seq + 1) }, true)
              | false ↦ filename_from left heard packet
            ]
      ]

  -- The payload is the two sizes and the name with its NUL.
  abbrev pub setup_packet : List ℕ → RcopyInfo → List ℕ
  setup_packet out_name info =
      let name_len = length out_name + 1 in
      let payload =
        write_u32 info.window_size ++ (write_u32 info.buffer_size ++ (out_name ++ (0 ∷ []))) in
      make_packet info.control_seq flag_filename payload (name_len + 8)

  unfoldable pub send_filename_packet : List ℕ → RcopyInfo → RcopyInfo × Bool
  send_filename_packet out_name info = filename_from max_tries info (setup_packet out_name info)

  unfoldable pub filename_state : (ℕ → Bool) → List ℕ → RcopyInfo → Option (RcopyInfo × State)
  filename_state calloc out_name info =
      let (answered, accepted) = send_filename_packet out_name info in
      if accepted
      then elim (window_init calloc answered.window_size answered.control_seq) [
        | none ↦ none
        | some w ↦ some (record answered { window = w }, send_data)
      ]
      else some (record answered { had_error = 1 }, done)

  -- The `while (state != DONE)` loop of `process_file`, one round for each unit of fuel.
  unfoldable pub process_loop : ℕ → Args → State → RcopyInfo → Option (RcopyInfo × State)
  process_loop zero args state info = some (info, state)
  process_loop (suc fuel) args start_state info =
      let (i, s) = run_start_state args info in process_loop fuel args s i
  process_loop (suc fuel) args filename info =
      elim (filename_state args.calloc args.out_name info) [
        | none ↦ none
        | some (i, s) ↦ process_loop fuel args s i
      ]
  process_loop (suc fuel) args send_data info =
      let (i, s) = send_data_state info in process_loop fuel args s i
  process_loop (suc fuel) args wait_on_ack info =
      let (i, s) = wait_on_ack_state info in process_loop fuel args s i
  process_loop (suc fuel) args send_eof info =
      let (i, s) = send_eof_state info in process_loop fuel args s i
  process_loop (suc fuel) args done info = some (info, done)

-- The result of `process_file`: 0, or -1 as `none`.
unfoldable pub exit_code : RcopyInfo → Option ℕ
exit_code info = if info.had_error == 1 then none else some 0

-- As many rounds as the loop can take: see `Ends`.
abbrev pub rounds : List Read → List Event → ℕ
rounds reads events = 14 * (length events + length reads + 1) + 16

-- How `process_file` stands after its rounds: it has left the loop and returned, or it is still in it.
pub data Ending : Type 0 where
  finished : Option ℕ → Ending
  unfinished : Ending

-- Only DONE ends the loop.
unfoldable pub ending : State → RcopyInfo → Ending
unfolding exit_code
ending done info = finished (exit_code info)
ending start_state info = unfinished
ending filename info = unfinished
ending send_data info = unfinished
ending wait_on_ack info = unfinished
ending send_eof info = unfinished

-- What the process leaves, and how it stands.
unfoldable pub process_file :
    ⦃ck : Checksum⦄ → Args → List Read → List Event → Option (RcopyInfo × Ending)
unfolding ending
process_file args reads events =
    elim (process_loop (rounds reads events) args start_state (zeroed_info reads events)) [
      | none ↦ none
      | some (info, s) ↦ some (info, ending s info)
    ]
