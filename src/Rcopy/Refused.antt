-- ===== src/Rcopy/Refused.antt =====
-- rcopy.c: what the client does when the server cannot open the output file.
use cpe_networking_rejective.Prelude.{
  ℕ, zero, suc, ◌+◌, ◌*◌, ◌<◌, ◌≡◌, refl, sym, subst, ap, ◌∙◌, Bool, true, false, not, none, some,
  List, [], ◌∷◌, ◌++◌, arith, length, All, length-append, take-all, All-append,
}
use cpe_networking_rejective.Checksum.{Checksum}
use cpe_networking_rejective.Net.{Event, timeout, arrives, received}
use cpe_networking_rejective.Packet.{srej_max_packet, flag_filename_resp, make_packet}
use cpe_networking_rejective.Packet.RoundTrip.{
  check_packet-make_packet, get_flag-make_packet, length_bounds,
}
use cpe_networking_rejective.Rcopy
use cpe_networking_rejective.Rcopy.{
  finished, RcopyInfo, Read, Args, filename, max_tries, zeroed_info, run_start_state, safe_sendto,
  poll_call, is_reply, filename_from, send_filename_packet, setup_packet, exit_code, process_file,
}
use cpe_networking_rejective.Rcopy.Handshake.{polled}
use cpe_networking_rejective.Rcopy.Rounds
use cpe_networking_rejective.Rcopy.Setup.{
  accepts, filename_timeout, filename_noise, filename_refused,
}

module _ ⦃ck : Checksum⦄ where
  -- The response that the file does not open.
  abbrev pub refusal : List ℕ
  refusal = make_packet 1 flag_filename_resp (1 ∷ []) 1

  -- No response at all.
  abbrev pub is_noise : Event → Bool
  is_noise timeout = true
  is_noise (arrives from bytes) = not (is_reply flag_filename_resp (received bytes))

  refusal_whole : received refusal ≡ refusal
  refusal_whole =
      take-all srej_max_packet refusal
        (omega (arith, length_bounds 1 flag_filename_resp (1 ∷ []) 1))

  refusal_answers : is_reply flag_filename_resp refusal ≡ true
  refusal_answers = ground (
    arith,
    check_packet-make_packet 1 flag_filename_resp (1 ∷ []) 1 (omega arith) (omega arith, tt)
        (omega arith),
    get_flag-make_packet 1 flag_filename_resp (1 ∷ []) 1,
  )

  refusal_refuses : accepts refusal ≡ false
  unfolding make_packet
  refusal_refuses = ground arith

  -- The client gives up: it has sent the packet `count` times, and read nothing.
  abbrev GivesUp : List ℕ → ℕ → RcopyInfo → RcopyInfo × Bool → Type 0
  GivesUp packet count i r =
      (r.1 ≡ false)
      × (r.0.reads ≡ i.reads)
      × (length r.0.sent ≡ length i.sent + count)
      × (All (λ s. s.1 ≡ packet) i.sent → All (λ s. s.1 ≡ packet) r.0.sent)

  -- One try: the packet is sent, and the next event is taken.
  tried_fields :
      (i : RcopyInfo) (packet : List ℕ) (e : Event) (later : List Event)
      → i.events ≡ e ∷ later
      → ((poll_call (safe_sendto i packet)).0 ≡ e)
        × ((polled i packet).events ≡ later)
        × GivesUp packet 1 i (polled i packet, false)
  unfolding poll_call
  tried_fields i packet e later h =
      let sent : (polled i packet).sent ≡ i.sent ++ (i.server, packet) ∷ [] = ground (arith, h) in
      (
        ground (arith, h),
        ground (arith, h),
        (
          refl,
          ground (arith, h),
          ap length sent ∙ length-append i.sent ((i.server, packet) ∷ []),
          λ k.
              subst (All (λ s. s.1 ≡ packet)) (sym sent)
                (All-append (λ s. s.1 ≡ packet) i.sent ((i.server, packet) ∷ []) k (refl, tt)),
        ),
      )

  GivesUp-after :
      (packet : List ℕ) (count : ℕ) (i j : RcopyInfo) (r : RcopyInfo × Bool)
      → GivesUp packet 1 i (j, false)
      → GivesUp packet count j r
      → GivesUp packet (suc count) i r
  GivesUp-after packet count i j r t h = (h.0, h.1 ∙ t.1, omega (arith, h.2, t.2), λ k. h.3 (t.3 k))

  filename_from-GivesUp :
      (left : ℕ) (i : RcopyInfo) (packet : List ℕ) (lost : List Event) (server : ℕ)
      (later : List Event)
      → i.events ≡ lost ++ arrives server refusal ∷ later
      → All (λ e. is_noise e ≡ true) lost
      → length lost < left
      → GivesUp packet (suc (length lost)) i (filename_from left i packet)
  filename_from-GivesUp zero i packet lost server later e noise few = absurd (omega arith)
  filename_from-GivesUp (suc left) i packet [] server later e noise few =
      let t = tried_fields i packet (arrives server refusal) later e in
      rw
        (filename_refused left i packet server refusal t.0
          (ap (is_reply flag_filename_resp) refusal_whole ∙ refusal_answers)
          (ap accepts refusal_whole ∙ refusal_refuses))
        t.2
  filename_from-GivesUp (suc left) i packet (timeout ∷ lost) server later e noise few =
      let t = tried_fields i packet timeout (lost ++ arrives server refusal ∷ later) e in
      rw (filename_timeout left i packet t.0) (
        GivesUp-after packet (suc (length lost)) i (polled i packet)
          (filename_from left (polled i packet) packet) t.2
          (filename_from-GivesUp left (polled i packet) packet lost server later t.1 noise.1
            (omega arith)))
  filename_from-GivesUp (suc left) i packet (arrives from bytes ∷ lost) server later e noise few =
      let t =
        tried_fields i packet (arrives from bytes) (lost ++ arrives server refusal ∷ later) e in
      let heard : RcopyInfo = record (polled i packet) { server = from } in
      let quiet : is_reply flag_filename_resp (received bytes) ≡ false = ground (arith, noise.0) in
      rw (filename_noise left i packet from bytes t.0 quiet) (
        GivesUp-after packet (suc (length lost)) i heard (filename_from left heard packet) t.2
          (filename_from-GivesUp left heard packet lost server later t.1 noise.1 (omega arith)))

  filename_state_refused :
      (calloc : ℕ → Bool) (out_name : List ℕ) (i : RcopyInfo)
      → (send_filename_packet out_name i).1 ≡ false
      → Rcopy.filename_state calloc out_name i
        ≡ some (record (send_filename_packet out_name i).0 { had_error = 1 }, Rcopy.done)
  unfolding Rcopy.filename_state
  filename_state_refused calloc out_name i h = ground (arith, h)

  -- The setup packet of a client, which does not depend on what comes later.
  abbrev pub setup_of : Args → List ℕ
  setup_of a = setup_packet a.out_name (run_start_state a (zeroed_info [] [])).0

  process_file_end :
      (a : Args) (reads : List Read) (events : List Event) (j : RcopyInfo)
      → Rcopy.process_loop
          (Rcopy.rounds reads events)
          a
          Rcopy.start_state
          (zeroed_info reads events)
        ≡ some (j, Rcopy.done)
      → process_file a reads events ≡ some (j, finished (exit_code j))
  unfolding process_file
  process_file_end a reads events j h = ground (arith, h)

  pub process_file_refused :
      (a : Args) (reads : List Read) (lost : List Event) (server : ℕ) (later : List Event)
      → All (λ e. is_noise e ≡ true) lost
      → length lost < max_tries
      → (j : RcopyInfo) × (process_file a reads (lost ++ arrives server refusal ∷ later)
          ≡ some (j, finished none))
        × (j.reads ≡ reads)
        × (length j.sent ≡ suc (length lost))
        × All (λ s. s.1 ≡ setup_of a) j.sent
  unfolding send_filename_packet run_start_state zeroed_info exit_code
  process_file_refused a reads lost server later noise few =
      let events = lost ++ arrives server refusal ∷ later in
      let i = (run_start_state a (zeroed_info reads events)).0 in
      let n = 14 * (length events + length reads + 1) + 13 in
      let enough : 14 * (length events + length reads + 1) + 16 ≡ suc (suc (suc n)) = omega arith in
      let h = filename_from-GivesUp max_tries i (setup_of a) lost server later refl noise few in
      let j : RcopyInfo = record (filename_from max_tries i (setup_of a)).0 { had_error = 1 } in
      let q = filename_state_refused a.calloc a.out_name i h.0 in
      let run : Rcopy.process_loop (Rcopy.rounds reads events) a Rcopy.start_state
            (zeroed_info reads events)
          ≡ some (j, Rcopy.done) =
        ap (λ m. Rcopy.process_loop m a Rcopy.start_state (zeroed_info reads events)) enough
        ∙ Rounds.loop_start a (suc (suc n)) (zeroed_info reads events)
        ∙ Rounds.loop_filename_some a (suc n) i j Rcopy.done q
        ∙ Rounds.loop_done a (suc n) j in
      (j, process_file_end a reads events j run, h.1, omega (arith, h.2), h.3 tt)
