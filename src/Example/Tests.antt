-- ===== src/Example/Tests.antt =====
-- Evaluations of the loops of the examples, and the theorems on them at concrete inputs.
use cpe_networking_rejective.Prelude.{
  ℕ, zero, suc, ◌+◌, ◌≡◌, refl, Bool, true, false, none, some, List, [], ◌∷◌, ◌==◌, length, take,
}
use cpe_networking_rejective.Prelude.Int.{ℤ, pos, negsuc}
use cpe_networking_rejective.Example.Client.{
  Functions, State, done, filename, recv_data, file_ok, other, switch, loop, process_file, main,
  process_file-other,
}
use cpe_networking_rejective.Example.Server as ExampleServer
use cpe_networking_rejective.Example.Server.{Request, Parent, process_server, intact, forks_from}
use cpe_networking_rejective.CommandLine.{atoi}

-- Functions that note the states they serve; the start leads to `first_state`.
abbrev noting : State → Functions (List ℕ)
noting first_state = record {
  check_args = λ argv. true;
  sendto_err_init = λ rate w. w;
  calloc = λ w. w;
  run_start_state = λ argv seq_num w. (first_state, seq_num + 1, 1 ∷ w);
  run_filename = λ name size w. (file_ok, 2 ∷ w);
  run_file_ok = λ fd name w. (recv_data, pos 5, 3 ∷ w);
  run_recv_data = λ fd seq_num w. (done, seq_num + 1, 4 ∷ w);
}

client_test :
    main (noting filename) [] 4 []
    ≡ some (record {
      state = done;
      client_seq_num = 2;
      output_file_fd = pos 5;
      world = 4 ∷ 3 ∷ 2 ∷ 1 ∷ [];
    })
unfolding main process_file loop switch atoi
client_test = refl

-- A state outside of the cases: the message is printed again and again.
process_file-other_example : process_file (noting (other 9)) [] 1000 [] ≡ none
unfolding switch
process_file-other_example = process_file-other (noting (other 9)) [] 1 9 [] refl 1000

abbrev request_of : ℤ → Request
request_of n = record { recv_len = n; buf = []; client = 1 }

-- CRC_ERROR is -1 here.
abbrev minus_one_only : ℤ → Bool
minus_one_only (pos n) = false
minus_one_only (negsuc zero) = true
minus_one_only (negsuc (suc n)) = false

abbrev two_processes : ℕ → ℤ
two_processes zero = pos 100
two_processes (suc zero) = pos 101
two_processes (suc (suc n)) = negsuc 0

abbrev requests : List Request
requests =
    request_of (pos 10) ∷ request_of (negsuc 0) ∷ request_of (pos 20) ∷ request_of (pos 30) ∷ []

fork_test :
    process_server minus_one_only two_processes 0 requests
    ≡ record { children = request_of (pos 10) ∷ request_of (pos 20) ∷ []; waits = false }
unfolding process_server
fork_test = refl

abbrev serving : ExampleServer.Functions (List ℕ)
serving = record {
  start_seq_num = 1;
  run_filename = λ buf len file size w. (ExampleServer.send_data, pos 6, pos 512, 1 ∷ w);
  run_send_data = λ packet len file size seq_num w.
      (ExampleServer.wait_on_ack, 42 ∷ [], size, seq_num + 1, 2 ∷ w);
  run_wait_on_ack = λ w. (ExampleServer.timeout_on_ack, 3 ∷ w);
  run_timeout_on_ack = λ packet len w. (ExampleServer.wait_on_eof_ack, 4 ∷ w);
  run_wait_on_eof_ack = λ w. (ExampleServer.timeout_on_eof_ack, 5 ∷ w);
  run_timeout_on_eof_ack = λ packet len w. (ExampleServer.other 77, 6 ∷ w);
}

-- Here a state outside of the cases ends the loop.
server_test :
    ExampleServer.process_client serving (request_of (pos 10)) [] 8 []
    ≡ some (record {
      state = ExampleServer.done;
      data_file = pos 6;
      packet_len = pos 512;
      packet = 42 ∷ [];
      buf_size = pos 512;
      seq_num = 2;
      world = 6 ∷ 5 ∷ 4 ∷ 3 ∷ 2 ∷ 1 ∷ [];
    })
unfolding ExampleServer.process_client ExampleServer.loop ExampleServer.switch
server_test = refl

process_server-intact_example :
    let sound = intact minus_one_only two_processes requests in
    let n = forks_from minus_one_only two_processes 0 (length sound) in
    let parent = process_server minus_one_only two_processes 0 requests in
    (parent.children ≡ take n sound) × (parent.waits ≡ (n == length sound))
process_server-intact_example =
    ExampleServer.process_server-intact minus_one_only two_processes 0 requests
