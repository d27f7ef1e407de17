-- ===== src/Server/Parent/Tests.antt =====
-- The parent of server.c on the setup packet of a client that is to write the file "a".
use cpe_networking_rejective.Prelude.{◌≡◌, refl, true, [], ◌∷◌, arith, drop}
use cpe_networking_rejective.Prelude.Int.{pos}
use cpe_networking_rejective.Checksum.InCksum.{linked}
use cpe_networking_rejective.Packet.{read_u32}
use cpe_networking_rejective.Server.{c_string}
use cpe_networking_rejective.Server.Parent.{
  handle_zombies, process_server, setup_packet-read, process_server-setup_packet,
}
use cpe_networking_rejective.Rcopy.{RcopyInfo, setup_packet}
use cpe_networking_rejective.Server.Transfer.{setup_payload}

-- A client that is to write the file "a".
abbrev asking : RcopyInfo
asking = record {
  socket_num = 5;
  input_file = 4;
  window_size = 2;
  buffer_size = 3;
  file_done = 0;
  had_error = 0;
  retry_count = 0;
  control_seq = 1;
  server = 9;
  window = record { entry = []; size = 0; lower = 0; current = 0; upper = 0 };
  reads = [];
  events = [];
  sent = [];
}

setup_packet-read_example :
    (read_u32 (setup_payload (setup_packet (97 ∷ []) asking)) ≡ 2)
    × (read_u32 (drop 4 (setup_payload (setup_packet (97 ∷ []) asking))) ≡ 3)
    × (c_string (drop 8 (setup_payload (setup_packet (97 ∷ []) asking))) ≡ 97 ∷ [])
setup_packet-read_example =
    setup_packet-read (97 ∷ []) asking (omega arith, tt) (omega arith) (omega arith)

process_server-setup_packet_example :
    process_server (λ n. true) 0 ((7, setup_packet (97 ∷ []) asking) ∷ [])
    ≡ (setup_packet (97 ∷ []) asking, 7) ∷ process_server (λ n. true) 1 []
process_server-setup_packet_example =
    process_server-setup_packet (λ n. true) 0 (97 ∷ []) asking 7 [] (omega arith, tt) (omega arith)
      refl

-- Two children have ended, a third one runs.
zombies_test : handle_zombies (pos 100 ∷ pos 101 ∷ pos 0 ∷ []) ≡ 100 ∷ 101 ∷ []
unfolding handle_zombies
zombies_test = refl
