-- ===== src/Programs.antt =====
-- udpCode_spring26_v3/rcopy.c and server.c: how the two programs come to their sockets, `main` and the
-- two `start_state`, over the models of networks.c and pollLib.c.
pub mod Start
pub mod Client
mod Tests
use cpe_networking_rejective.Prelude.{ℕ, Bool, Option, none, some, List, if◌then◌else◌}
use cpe_networking_rejective.Prelude.Int.{ℤ}
use cpe_networking_rejective.Checksum.{Checksum}
use cpe_networking_rejective.Outcome.{Outcome, returns, exits, minus_one}
use cpe_networking_rejective.System.{SockAddr, Host, Sys, pure, ◌>>=◌, ◌>>◌, exit_with, is_negative}
use cpe_networking_rejective.HostName.{htons}
use cpe_networking_rejective.Networks.{
  to_u16, create_udp_socket, udp_server_setup, setup_udp_client_to_server,
}
use cpe_networking_rejective.Poll.{
  PollFd, PollSet, Memory, no_poll_set, setup_poll_set, add_to_poll_set,
}
use cpe_networking_rejective.CommandLine.{atoi, arg, to_nat, process_args}
use cpe_networking_rejective.Net.{Event}
use cpe_networking_rejective.ClientState.{RcopyInfo, Args, Read}
use cpe_networking_rejective.Rcopy.{Ending, process_file}
use cpe_networking_rejective.CommandLine.{args_of, check_args}
use cpe_networking_rejective.Server.Parent.{process_server}

-- A call that does not reach the system calls of System.antt.
abbrev pub lift : {A : Type 0} → Outcome A → Sys A
lift r p = (r, p)

-- What `start_state` of the client leaves in `*info` and in the poll set.
pub record ClientStart : Type 0 where
  pub input_file : ℤ
  pub socket_num : ℤ
  pub server : SockAddr
  pub poll_set : PollSet

-- `open name` is what open(2) returns for reading.
unfoldable pub open_input_file : (List ℕ → ℤ) → List ℕ → Outcome ℤ
open_input_file open_for_reading file_name =
    if is_negative (open_for_reading file_name)
    then exits minus_one
    else returns (open_for_reading file_name)

module _ (host : Host) (memory : Memory PollFd) where
  -- `setupPollSet` and `addToPollSet` of a socket.
  abbrev pub watch : ℤ → Sys PollSet
  watch socket_num = do
    fresh ← lift (setup_poll_set memory no_poll_set)
    lift (add_to_poll_set memory (to_nat socket_num) fresh)

  unfoldable pub client_start : (List ℕ → ℤ) → List (List ℕ) → Sys ClientStart
  unfolding open_input_file
  client_start open_for_reading argv = do
    let port_number = atoi (arg argv 7)
    file ← lift (open_input_file open_for_reading (arg argv 1))
    (s, address) ← setup_udp_client_to_server host (arg argv 6) port_number
    set_of_one ← watch s
    pure (record {
      input_file = file;
      socket_num = s;
      server = record address { port = htons (to_u16 port_number) };
      poll_set = set_of_one;
    })

  -- `start_state` of the server's child: the socket and the poll set.
  unfoldable pub child_start : Sys (ℤ × PollSet)
  child_start = do s ← create_udp_socket host; set_of_one ← watch s; pure (s, set_of_one)

-- `main` of the server, for the datagrams that arrive: the children, each by its first packet and its
-- client.
module _ ⦃ck : Checksum⦄ (host : Host) where
  unfoldable pub server_main :
      (List ℕ → Bool) → (ℕ → Bool) → List (List ℕ) → List (ℕ × List ℕ) → Sys (List (List ℕ × ℕ))
  server_main rate_ok fork argv datagrams = elim (process_args rate_ok argv) [
    | none ↦ exit_with minus_one
    | some port_number ↦ do
      socket_num ← udp_server_setup host port_number
      pure (process_server fork 0 datagrams)
  ]

-- How the process goes on after `process_file`: `none` is an exit in it.
abbrev pub finish : Option (RcopyInfo × Ending) → Outcome (RcopyInfo × Ending)
finish none = exits minus_one
finish (some r) = returns r

-- What `process_file` takes of the command line and of its `start_state`. An address is known to it by
-- a number.
abbrev pub client_args : (SockAddr → ℕ) → List (List ℕ) → (ℕ → Bool) → ClientStart → Args
client_args number argv calloc c =
    args_of argv calloc (to_nat c.input_file) (to_nat c.socket_num) (number c.server)

-- `main` of the client, with the reads of its file and the events of its socket: what `process_file`
-- leaves, and its result.
module _ ⦃ck : Checksum⦄ (host : Host) (memory : Memory PollFd) (number : SockAddr → ℕ) where
  unfoldable pub client_main :
      (List ℕ → Bool)
      → (List ℕ → ℤ)
      → (ℕ → Bool)
      → List (List ℕ)
      → List Read
      → List Event
      → Sys (RcopyInfo × Ending)
  client_main rate_ok open_for_reading calloc argv reads events =
      if check_args rate_ok argv
      then (do
        c ← client_start host memory open_for_reading argv
        lift (finish (process_file (client_args number argv calloc c) reads events)))
      else exit_with minus_one
