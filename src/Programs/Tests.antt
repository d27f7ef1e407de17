-- ===== src/Programs/Tests.antt =====
-- Evaluations of the definitions of Programs.antt, and the theorems on them at concrete inputs.
use cpe_networking_rejective.Prelude.{
  ℕ, ◌≡◌, refl, true, Option, none, some, List, [], ◌∷◌, ◌++◌, arith, replicate,
}
use cpe_networking_rejective.Prelude.Int.{ℤ, pos, negsuc}
use cpe_networking_rejective.Checksum.InCksum.{linked, sum_words, fold_sum, in_cksum}
use cpe_networking_rejective.Net.{Event, timeout, arrives}
use cpe_networking_rejective.Packet.{
  flag_filename_resp, flag_rr, flag_eof_ack, write_u32, read_u32, get_seq, get_flag, make_packet,
  check_packet,
}
use cpe_networking_rejective.Window.{
  window_init, window_open, window_empty, window_add, window_find, window_lowest, window_rr,
  lowest_from, release, release_from, advance,
}
use cpe_networking_rejective.Rcopy.{
  process_file, Ending, finished, unfinished, ending, exit_code, process_loop, RcopyInfo, Read,
  bytes, zeroed_info, run_start_state, poll_call, resend_packet, handle_rr, handle_reject,
  handle_control, is_control, controls_from, process_controls, send_one, after_data, send_from,
  send_data_state, wait_on_ack_state, send_final_done, eof_from, send_eof_state, filename_from,
  send_filename_packet, filename_state,
}
use cpe_networking_rejective.Programs.Client.{Obstacle, Exits, file_for, client_main-Exits}
use cpe_networking_rejective.Outcome.{returns, exits, minus_one, Outcome}
use cpe_networking_rejective.System.{
  Process, SockAddr, af_inet6, zero_address, sock_dgram, Call, socket, bind, getsockname, listen,
  accept, connect, getaddrinfo, recvfrom, sendto, recv, send, Host, started, go_on, checked,
}
use cpe_networking_rejective.HostName.{
  htons, hints_for, copy_address, store_ip, get_ip_address46, gethostbyname6,
}
use cpe_networking_rejective.Networks.{
  to_u16, any_address, port_address, create_udp_socket, udp_server_setup,
  setup_udp_client_to_server,
}
use cpe_networking_rejective.Networks.Phases.{opened}
use cpe_networking_rejective.Networks.Calls.{In}
use cpe_networking_rejective.Poll.{
  PollFd, Memory, no_fd, setup_poll_set, add_to_poll_set, s_calloc, enter, grow_poll_set, s_realloc,
}
use cpe_networking_rejective.Poll.Grow.{IsMemory, Denies}
use cpe_networking_rejective.Poll.Watched.{Watches}
use cpe_networking_rejective.CommandLine.{
  check_args, check_number_args, is_positive, is_below, args_of, atoi, arg, to_nat, signed, digits,
  negative, process_args,
}
use cpe_networking_rejective.Programs.{
  client_main, open_input_file, client_start, child_start, server_main,
}
use cpe_networking_rejective.Programs.Start.{only, Starts, Ready, Cause, start-Starts}
use cpe_networking_rejective.Server.Parent.{process_server}

-- Memory for the first array only: `realloc` fails.
abbrev one_array : Memory PollFd
one_array = record { calloc = λ n a. some (replicate n a); realloc = λ xs n. none }

some_injective : {A : Type 0} {a b : A} → some a ≡ some b → b ≡ a
some_injective e = cc

one_array-IsMemory : IsMemory one_array
one_array-IsMemory = record {
  calloc_zeros = λ n a block e. some_injective e;
  realloc_length = λ xs n moved e. cc;
  realloc_keeps = λ xs n moved i e. cc;
}

abbrev value_of : ℕ → Call → ℤ
value_of n (socket kind) = pos n
value_of n (bind f address) = pos 0
value_of n (getsockname f) = pos 0
value_of n (listen f backlog) = pos 0
value_of n (accept f) = pos n
value_of n (connect f address) = pos 0
value_of n (getaddrinfo name hints) = pos 0
value_of n (recvfrom f len flags) = pos 0
value_of n (sendto f buf flags address m) = pos 0
value_of n (recv f len flags) = pos 0
value_of n (send f buf flags) = pos 0

-- The next socket is `n`.
abbrev with_socket : ℕ → Host
with_socket n = record {
  answer = λ history call. record {
    value = value_of n call;
    written = [];
    address = record zero_address { addr = replicate 16 9 };
  };
  inet_ntop = λ family ip. ip;
}

abbrev nine : SockAddr
nine = record { family = af_inet6; port = 20480; addr = replicate 16 9 }

-- rcopy in out 10 1000 0 9 80, with one letter for the name of the program.
abbrev client_argv : List (List ℕ)
client_argv =
    (114 ∷ [])
    ∷ (105 ∷ [])
    ∷ (111 ∷ [])
    ∷ (49 ∷ 48 ∷ [])
    ∷ (49 ∷ 48 ∷ 48 ∷ 48 ∷ [])
    ∷ (48 ∷ [])
    ∷ (57 ∷ [])
    ∷ (56 ∷ 48 ∷ [])
    ∷ []

abbrev opens : List ℕ → ℤ
opens name = pos 3

client_start_test :
    (client_start (with_socket 4) one_array opens client_argv started).0
    ≡ returns (record {
      input_file = pos 3;
      socket_num = pos 4;
      server = nine;
      poll_set = record {
        file_descriptors = replicate 4 no_fd ++ (record { fd = 4; events = 1 } ∷ replicate 5 no_fd);
        max_file_descriptor = 5;
        current_poll_set_size = 10;
      };
    })
unfolding client_start open_input_file setup_udp_client_to_server create_udp_socket checked
    port_address to_u16 htons gethostbyname6 get_ip_address46 hints_for copy_address store_ip
    setup_poll_set s_calloc add_to_poll_set enter to_nat atoi signed digits negative go_on
client_start_test = refl

-- Socket 12 needs a larger array, which is not to be had.
child_start_test : (child_start (with_socket 12) one_array started).0 ≡ exits minus_one
unfolding child_start create_udp_socket checked setup_poll_set s_calloc add_to_poll_set
    grow_poll_set s_realloc to_nat go_on
child_start_test = refl

missing_file_test :
    (client_start (with_socket 4) one_array (λ name. negsuc 1) client_argv started).0
    ≡ exits minus_one
unfolding client_start open_input_file go_on
missing_file_test = refl

-- Server 0.1 80: no datagram comes.
server_main_test :
    (server_main
      (with_socket 4)
      (λ rate. true)
      (λ n. true)
      ((115 ∷ []) ∷ (48 ∷ []) ∷ (56 ∷ 48 ∷ []) ∷ [])
      []
      started).0
    ≡ returns []
unfolding server_main process_args process_server udp_server_setup create_udp_socket checked
    any_address to_u16 htons atoi signed digits negative go_on
server_main_test = refl

start-Starts_example :
    Starts
      (Cause one_array (opens (arg client_argv 1)))
      (Ready (atoi (arg client_argv 7)))
      (client_start (with_socket 4) one_array opens client_argv started)
    × Starts
        (Denies one_array)
        (λ r history. In (opened sock_dgram) r.0 history × Watches (only r.0) r.1)
        (child_start (with_socket 4) one_array started)
start-Starts_example =
    start-Starts (with_socket 4) one_array one_array-IsMemory opens client_argv started tt

-- rcopy in out 10 3 0 9 80: a file of three bytes, which the server accepts and acknowledges.
abbrev copy_argv : List (List ℕ)
copy_argv =
    (114 ∷ [])
    ∷ (105 ∷ [])
    ∷ (111 ∷ [])
    ∷ (49 ∷ 48 ∷ [])
    ∷ (51 ∷ [])
    ∷ (48 ∷ [])
    ∷ (57 ∷ [])
    ∷ (56 ∷ 48 ∷ [])
    ∷ []

abbrev three_bytes : List Read
three_bytes = bytes (10 ∷ 20 ∷ 30 ∷ []) ∷ bytes [] ∷ []

abbrev answers : List Event
answers =
    arrives 9 (make_packet 1 flag_filename_resp (0 ∷ []) 1)
    ∷ arrives 9 (make_packet 2 flag_rr (write_u32 3) 4)
    ∷ timeout
    ∷ arrives 9 (make_packet 3 flag_eof_ack [] 0)
    ∷ []

abbrev copied : Outcome (RcopyInfo × Ending) × Process
copied =
    client_main (with_socket 4) one_array (λ a. a.port) (λ rate. true) opens (λ n. true) copy_argv
      three_bytes answers started

-- `none` for an exit, or a client that is still in its loop.
abbrev result_of : Outcome (RcopyInfo × Ending) → Option (Option ℕ)
result_of (returns (last, finished code)) = some code
result_of (returns (last, unfinished)) = none
result_of (exits code) = none

client_main_test : result_of copied.0 ≡ some (some 0)
unfolding client_main check_args check_number_args is_positive is_below args_of process_file ending
    exit_code client_start open_input_file setup_udp_client_to_server create_udp_socket checked
    port_address to_u16 htons gethostbyname6 get_ip_address46 hints_for copy_address store_ip
    setup_poll_set s_calloc add_to_poll_set enter to_nat atoi signed digits negative go_on
    process_loop zeroed_info run_start_state poll_call resend_packet handle_rr handle_reject
    handle_control is_control controls_from process_controls send_one after_data send_from
    send_data_state wait_on_ack_state send_final_done eof_from send_eof_state filename_from
    send_filename_packet filename_state window_init window_open window_empty window_add window_find
    window_lowest window_rr lowest_from release release_from advance sum_words fold_sum in_cksum
    write_u32 read_u32 get_seq get_flag make_packet check_packet
client_main_test = refl

client_main-Exits_example :
    Exits
      (Obstacle one_array (λ rate. true) opens (λ n. true) copy_argv)
      (file_for copy_argv three_bytes)
      copied
unfolding atoi signed digits negative to_nat
client_main-Exits_example =
    client_main-Exits (with_socket 4) one_array (λ a. a.port) (λ rate. true) opens (λ n. true)
      copy_argv three_bytes answers started one_array-IsMemory tt (omega arith)
