-- ===== src/Server/Farewell/Tests.antt =====
-- wait_on_done of server.c where nobody answers.
use cpe_networking_rejective.Prelude.{
  ℕ, ◌+◌, ◌≡◌, refl, true, ◌||◌, Option, none, some, List, [], arith, leb, length, replicate,
}
use cpe_networking_rejective.Checksum.InCksum.{linked}
use cpe_networking_rejective.Net.{timeout, Event}
use cpe_networking_rejective.Server.{
  max_tries, ServerInfo, State, System, new_client, resend_last_ack, wait_on_done_state,
  process_loop, wait_on_done,
}
use cpe_networking_rejective.Server.Farewell.{has_farewell, timeouts, Leaves, wait_on_done-Leaves}

abbrev silent_disk : System
silent_disk = record {
  socket = 5;
  open_file = λ name. some 4;
  calloc = λ n. true;
  write = λ file new_bytes. none;
}

packets_sent : Option (ServerInfo × (State × List Event)) → ℕ
packets_sent none = 0
packets_sent (some r) = length r.0.sent

-- Nobody answers: after ten timeouts the process has left, with the acknowledgement sent nine times.
leaves_test :
    packets_sent (process_loop silent_disk 11 wait_on_done (new_client [] 7) (replicate 10 timeout))
    ≡ 9
unfolding packets_sent process_loop wait_on_done_state resend_last_ack new_client
leaves_test = refl

wait_on_done-Leaves_example :
    Leaves
      (has_farewell (replicate 10 timeout) || leb max_tries (0 + timeouts (replicate 10 timeout)))
      (process_loop silent_disk 11 wait_on_done (new_client [] 7) (replicate 10 timeout))
unfolding new_client
wait_on_done-Leaves_example =
    wait_on_done-Leaves silent_disk 11 (new_client [] 7) (replicate 10 timeout) (omega arith)
      (omega arith)
