-- ===== src/EndToEnd/Refused/Tests.antt =====
-- A server that cannot open the file "a"; a timeout and a damaged packet come before its refusal.
use cpe_networking_rejective.Prelude.{
  ◌≡◌, refl, true, none, some, List, [], ◌∷◌, ◌++◌, arith, length, All,
}
use cpe_networking_rejective.Checksum.InCksum.{linked}
use cpe_networking_rejective.Net.{Event, arrives, timeout}
use cpe_networking_rejective.Packet.{check_packet}
use cpe_networking_rejective.Server
use cpe_networking_rejective.Server.{ServerInfo, System, process_client}
use cpe_networking_rejective.Rcopy.{finished, RcopyInfo, Args, bytes, process_file}
use cpe_networking_rejective.Rcopy.Refused.{refusal, is_noise, setup_of}
use cpe_networking_rejective.EndToEnd.Refused.{setup-refused}

abbrev full_disk : System
full_disk = record {
  socket = 3;
  open_file = λ name. none;
  calloc = λ n. true;
  write = λ out xs. none;
}

abbrev command : Args
command = record {
  calloc = λ n. true;
  out_name = 97 ∷ [];
  window_size = 2;
  buffer_size = 3;
  input_file = 4;
  socket_num = 5;
  server = 9;
}

abbrev lost : List Event
lost = timeout ∷ arrives 7 (9 ∷ []) ∷ []

lost_noise : All (λ e. is_noise e ≡ true) lost
unfolding check_packet
lost_noise = (refl, (refl, tt))

setup-refused_example :
    ((i : ServerInfo) × (process_client full_disk (setup_of command) 7 []
        ≡ some (i, (Server.done, [])))
      × (i.sent ≡ (7, refusal) ∷ []))
    × ((j : RcopyInfo) × (process_file command
            (bytes (1 ∷ []) ∷ [])
            (lost ++ arrives 9 refusal ∷ [])
          ≡ some (j, finished none))
        × (j.reads ≡ bytes (1 ∷ []) ∷ [])
        × (length j.sent ≡ 3)
        × All (λ s. s.1 ≡ setup_of command) j.sent)
setup-refused_example =
    setup-refused command full_disk (bytes (1 ∷ []) ∷ []) 7 [] lost 9 [] (omega arith, tt)
      (omega arith) (omega arith) refl lost_noise (omega arith)
