-- ===== src/EndToEnd/Refused.antt =====
-- rcopy.c and server.c together: the server cannot open the file that the client names.
mod Tests
use cpe_networking_rejective.Prelude.{
  ℕ, suc, ◌+◌, ◌^◌, ◌<◌, ◌≡◌, refl, ap, ◌∙◌, true, none, some, List, [], ◌∷◌, ◌++◌, arith, length,
  drop, All,
}
use cpe_networking_rejective.Checksum.{Checksum}
use cpe_networking_rejective.Net.{Event, arrives}
use cpe_networking_rejective.Packet.{srej_header_len, read_u32}
use cpe_networking_rejective.Server
use cpe_networking_rejective.Server.{
  ServerInfo, System, done, c_string, new_client, send_filename_response, process_client,
}
use cpe_networking_rejective.Server.Parent.{setup_packet-read}
use cpe_networking_rejective.Server.Transfer.{setup_payload, loop_start}
use cpe_networking_rejective.Server.Process.{loop_done}
use cpe_networking_rejective.Rcopy
use cpe_networking_rejective.Rcopy.{
  finished, RcopyInfo, Read, Args, max_tries, zeroed_info, run_start_state, process_file,
}
use cpe_networking_rejective.Rcopy.Rounds
use cpe_networking_rejective.Rcopy.Refused.{refusal, is_noise, setup_of, process_file_refused}

module _ ⦃ck : Checksum⦄ where
  process_client_refuses :
      (os : System) (packet : List ℕ) (from : ℕ) (events : List Event)
      → os.open_file (c_string (drop 8 (setup_payload packet))) ≡ none
      → (i : ServerInfo) × (process_client os packet from events ≡ some (i, (done, events)))
        × (i.sent ≡ (from, refusal) ∷ [])
  unfolding process_client new_client Server.start_state Server.filename_state
      send_filename_response
  process_client_refuses os packet from events closed =
      let info = (Server.start_state os (new_client packet from)).0 in
      let payload = drop srej_header_len info.first_packet in
      let i : ServerInfo =
        send_filename_response
          (record info {
            window_size = read_u32 payload;
            buffer_size = read_u32 (drop 4 payload);
            output_file = none;
          })
          1 in
      let q : Server.filename_state os info ≡ some (i, done) = ground (arith, closed) in
      let rounds : length events + 3 ≡ suc (suc (length events + 1)) = omega arith in
      (
        i,
        rw (rounds, loop_start os (length events + 1) (new_client packet from) i done events q)
            (loop_done os (length events + 1) i events),
        refl,
      )

  -- When the server cannot open the file that a client names (a name without NUL, sizes below
  -- 2^32), `process_client` on the client's setup packet sends one response, a refusal, to the
  -- packet's sender and is done, having taken no event; and when fewer than ten events without a
  -- filename response and then this refusal come to the client, its `process_file` returns -1,
  -- having read nothing and sent only the setup packet, once for each of these events.
  pub setup-refused :
      (a : Args) (os : System) (reads : List Read) (from : ℕ) (events lost : List Event)
      (server : ℕ) (later : List Event)
      → All (λ c. 0 < c) a.out_name
      → a.window_size < 2 ^ 32
      → a.buffer_size < 2 ^ 32
      → os.open_file a.out_name ≡ none
      → All (λ e. is_noise e ≡ true) lost
      → length lost < max_tries
      → ((i : ServerInfo) × (process_client os (setup_of a) from events ≡ some (i, (done, events)))
          × (i.sent ≡ (from, refusal) ∷ []))
        × ((j : RcopyInfo) × (process_file a reads (lost ++ arrives server refusal ∷ later)
              ≡ some (j, finished none))
            × (j.reads ≡ reads)
            × (length j.sent ≡ suc (length lost))
            × All (λ s. s.1 ≡ setup_of a) j.sent)
  unfolding run_start_state zeroed_info
  setup-refused a os reads from events lost server later name window buffer closed noise few =
      let started = (run_start_state a (zeroed_info [] [])).0 in
      let named = (setup_packet-read a.out_name started name window buffer).2 in
      (
        process_client_refuses os (setup_of a) from events (ap os.open_file named ∙ closed),
        process_file_refused a reads lost server later noise few,
      )
