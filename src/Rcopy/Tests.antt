-- ===== src/Rcopy/Tests.antt =====
-- rcopy.c on a client with a window of two packets.
use cpe_networking_rejective.Prelude.{
  ℕ, ◌+◌, ◌^◌, ◌<◌, ◌≡◌, refl, inl, inr, true, Option, none, some, [], ◌∷◌, arith, ◌==◌,
  if◌then◌else◌,
}
use cpe_networking_rejective.Checksum.InCksum.{sum_words, fold_sum, in_cksum, linked}
use cpe_networking_rejective.Net.{timeout, arrives}
use cpe_networking_rejective.Upload.{Upload}
use cpe_networking_rejective.Packet.{
  flag_rr, flag_eof_ack, write_u32, get_flag, make_packet, check_packet,
}
use cpe_networking_rejective.Window.{Window, window_init, window_find}
use cpe_networking_rejective.Window.Invariant.{IsWindow, window_init-IsWindow}
use cpe_networking_rejective.Rcopy.{
  RcopyInfo, bytes, max_tries, process_controls, send_data_state, wait_on_ack_state, send_eof_state,
}
use cpe_networking_rejective.Rcopy.Controls.{Heard, process_controls-Heard}
use cpe_networking_rejective.Rcopy.Sending.{IsSending}
use cpe_networking_rejective.Rcopy.SendData.{IsNext, Sends, send_data_state-Sends}
use cpe_networking_rejective.Rcopy.WaitOnAck.{wait_on_ack_state-Sends}
use cpe_networking_rejective.Rcopy.Answered.{answered, had_error-send_eof_state}

abbrev no_window : Window
no_window = record { entry = []; size = 0; lower = 0; current = 0; upper = 0 }

fresh : Window
unfolding window_init
fresh = get_or_none (window_init (λ n. true) 2 2)
  where
    get_or_none : Option Window → Window
    get_or_none none = no_window
    get_or_none (some w) = w

fresh_sound :
    IsWindow fresh × (fresh.current ≡ 2) × (fresh.size ≡ 2) × ((s : ℕ) → window_find fresh s ≡ none)
unfolding window_init fresh
fresh_sound =
    let sound = window_init-IsWindow (λ n. true) 2 2 {w = fresh} (omega arith) (omega arith) refl in
    (sound.0, sound.3, sound.4, sound.5)

-- A file of two pieces.
abbrev letters : Upload
letters = record { chunk = λ s. if s == 2 then 97 ∷ [] else 98 ∷ []; first = 2; limit = 4 }

-- A client that has just been accepted, with an RR on the way.
abbrev sender : RcopyInfo
sender = record {
  socket_num = 5;
  input_file = 4;
  window_size = 2;
  buffer_size = 1;
  file_done = 0;
  had_error = 0;
  retry_count = 0;
  control_seq = 2;
  server = 9;
  window = fresh;
  reads = bytes (97 ∷ []) ∷ bytes (98 ∷ []) ∷ bytes [] ∷ [];
  events = arrives 9 (make_packet 2 flag_rr (write_u32 3) 4) ∷ [];
  sent = [];
}

sender_room : sender.window.current + sender.window.size < 2 ^ 32
sender_room = omega (arith, fresh_sound.1, fresh_sound.2)

sender-IsSending : IsSending letters sender
sender-IsSending = record {
  sound = fresh_sound.0;
  room = omega (arith, fresh_sound.2);
  from_first = omega (arith, fresh_sound.1);
  within = omega (arith, fresh_sound.1);
  small = omega arith;
  held = λ s e h. absurd (ground (arith, h, fresh_sound.3 s));
  sendable = tt;
}

sender-IsNext : IsNext letters sender
unfolding window_init fresh
sender-IsNext = (
  λ e. inr (omega arith, refl, λ q. cc, inr (omega arith, refl, λ q. cc, inl (refl, refl))),
  λ ne. absurd (ne refl),
)

process_controls-Heard_example : Heard sender (process_controls sender).0
process_controls-Heard_example = process_controls-Heard sender fresh_sound.0 sender_room

send_data_state-Sends_example : Sends letters (send_data_state sender)
send_data_state-Sends_example = send_data_state-Sends letters sender sender-IsSending sender-IsNext

wait_on_ack_state-Sends_example : Sends letters (wait_on_ack_state sender)
wait_on_ack_state-Sends_example =
    wait_on_ack_state-Sends letters sender sender-IsSending sender-IsNext

-- The acknowledgement comes at the third try.
abbrev closing : RcopyInfo
closing = record sender {
  events = timeout ∷ timeout ∷ arrives 9 (make_packet 3 flag_eof_ack [] 0) ∷ [];
}

had_error-send_eof_state_example :
    (send_eof_state closing).0.had_error
    ≡ (if answered flag_eof_ack max_tries closing.events then closing.had_error else 1)
had_error-send_eof_state_example = had_error-send_eof_state closing

answered_in_time : answered flag_eof_ack max_tries closing.events ≡ true
unfolding check_packet get_flag make_packet write_u32 sum_words fold_sum in_cksum
answered_in_time = refl
