-- ===== src/ClientState.antt =====
-- udpCode_spring26_v3/rcopy.h and the parts of rcopy.c that its states share: the client's state, its
-- start, and the control packets that it hears.
-- A function that updates `*info` returns the new record. What the outside does stands in it as
-- queues: `reads` are the results of the `read` calls to come, `events` what `pollCall` and
-- `safeRecvfrom` will bring. What the process sends is the field `sent`, oldest first, each packet
-- with its address.
use cpe_networking_rejective.Prelude.{
  ℕ, ◌+◌, Bool, not, ◌&&◌, ◌||◌, none, some, List, [], ◌∷◌, ◌++◌, ltb, ◌==◌, if◌then◌else◌, length,
  take, drop,
}
use cpe_networking_rejective.Checksum.{Checksum}
use cpe_networking_rejective.Net.{Event, timeout, arrives, received}
use cpe_networking_rejective.Packet.{
  srej_header_len, flag_rr, flag_srej, read_u32, get_flag, check_packet,
}
use cpe_networking_rejective.Window.{Window, WindowEntry, window_find, window_rr}

abbrev pub max_tries : ℕ
max_tries = 10

abbrev pub first_seq : ℕ
first_seq = 1

pub data State : Type 0 where
  start_state filename send_data wait_on_ack send_eof done : State

-- The result of a `read`: some bytes (none at the end of the file), or an error.
pub data Read : Type 0 where
  bytes : List ℕ → Read
  failed : Read

pub record RcopyInfo : Type 0 where
  pub socket_num : ℕ
  pub input_file : ℕ
  pub window_size : ℕ
  pub buffer_size : ℕ
  pub file_done : ℕ
  pub had_error : ℕ
  pub retry_count : ℕ
  pub control_seq : ℕ
  pub server : ℕ
  pub window : Window
  pub reads : List Read
  pub events : List Event
  pub sent : List (ℕ × List ℕ)

abbrev pub safe_sendto : RcopyInfo → List ℕ → RcopyInfo
safe_sendto info packet = record info { sent = info.sent ++ ((info.server, packet) ∷ []) }

-- `pollCall` and, if something is ready, `safeRecvfrom`. With no event left nothing ever comes.
unfoldable pub poll_call : RcopyInfo → Event × RcopyInfo
poll_call info = elim info.events [
  | [] ↦ (timeout, info)
  | e ∷ es ↦ (e, record info { events = es })
]

unfoldable pub resend_packet : RcopyInfo → WindowEntry → RcopyInfo
resend_packet info entry = safe_sendto info (take entry.packet_len entry.packet)

unfoldable pub handle_rr : RcopyInfo → List ℕ → RcopyInfo
handle_rr info packet =
    if ltb (length packet) (srej_header_len + 4)
    then info
    else record info { window = window_rr info.window (read_u32 (drop srej_header_len packet)) }

unfoldable pub handle_reject : RcopyInfo → List ℕ → RcopyInfo
handle_reject info packet =
    if ltb (length packet) (srej_header_len + 4)
    then info
    else elim (window_find info.window (read_u32 (drop srej_header_len packet))) [
      | none ↦ info
      | some entry ↦ resend_packet info entry
    ]

-- The command line and what the system makes of it. The sizes are what `atoi` gives for argv[3] and
-- argv[4], `out_name` is argv[2] without its NUL; `open_input_file` and `setupUdpClientToServer` gave
-- the descriptors and the address (the process exits if one of them fails). `calloc n` tells if the
-- allocation of `n` entries succeeds.
pub record Args : Type 0 where
  pub calloc : ℕ → Bool
  pub out_name : List ℕ
  pub window_size : ℕ
  pub buffer_size : ℕ
  pub input_file : ℕ
  pub socket_num : ℕ
  pub server : ℕ

-- `memset(&info, 0, sizeof(RcopyInfo))`, with what the outside will do.
unfoldable pub zeroed_info : List Read → List Event → RcopyInfo
zeroed_info reads events = record {
  socket_num = 0;
  input_file = 0;
  window_size = 0;
  buffer_size = 0;
  file_done = 0;
  had_error = 0;
  retry_count = 0;
  control_seq = 0;
  server = 0;
  window = record { entry = []; size = 0; lower = 0; current = 0; upper = 0 };
  reads = reads;
  events = events;
  sent = [];
}

-- The function `start_state`. `setupPollSet` and `addToPollSet` only prepare `pollCall`.
unfoldable pub run_start_state : Args → RcopyInfo → RcopyInfo × State
run_start_state args info = (
  record info {
    window_size = args.window_size;
    buffer_size = args.buffer_size;
    input_file = args.input_file;
    socket_num = args.socket_num;
    server = args.server;
    control_seq = first_seq;
  },
  filename,
)

module _ ⦃ck : Checksum⦄ where
  -- The body of the loop of `process_controls`, and whether `count` goes up.
  unfoldable pub handle_control : RcopyInfo → List ℕ → RcopyInfo
  handle_control info packet =
      if not (check_packet packet)
      then info
      else if get_flag packet == flag_rr
      then handle_rr info packet
      else if get_flag packet == flag_srej
      then handle_reject info packet
      else info

  unfoldable pub is_control : List ℕ → Bool
  is_control packet =
      check_packet packet && (get_flag packet == flag_rr || get_flag packet == flag_srej)

  -- `while (ready_socket >= 0)`, over the events to come.
  unfoldable pub controls_from : List Event → RcopyInfo → ℕ → RcopyInfo × ℕ
  controls_from [] info count = (record info { events = [] }, count)
  controls_from (timeout ∷ es) info count = (record info { events = es }, count)
  controls_from (arrives from data_in ∷ es) info count =
      let packet = received data_in in
      controls_from es (handle_control (record info { server = from }) packet)
        (if is_control packet then count + 1 else count)

  unfoldable pub process_controls : RcopyInfo → RcopyInfo × ℕ
  process_controls info = controls_from info.events info 0
