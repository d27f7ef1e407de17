-- ===== src/Server/Complete.antt =====
-- server.c: a server that the whole file reaches writes the whole file.
mod Tests
use cpe_networking_rejective.Prelude.{
  ℕ, zero, suc, ◌+◌, ◌-◌, ◌*◌, ◌/◌, ◌%◌, ◌^◌, ◌≤◌, ◌<◌, min, max, ◌≡◌, refl, sym, subst, ap, ap₂,
  ◌∙◌, ◌≢◌, ◌↔◌, ◌⊎◌, inl, inr, Bool, true, false, not, ◌&&◌, ◌||◌, Option, none, some, List, [],
  ◌∷◌, ◌++◌, append_assoc, append-nil, arith, mod-lt, mod-eq_of_lt, dec_lt, ℕ_discrete, ltb, leb,
  ◌==◌, if◌then◌else◌, ltb→lt, lt→ltb, leb→le, ==_iff, ==_true, Bool-cases, Option-cases, length,
  get_or, set, take, drop, replicate, All, length-append, length-set, length-replicate, length-take,
  length-drop, take-all, drop-all, take-append, drop-append, get_or-set_self, get_or-set_ne,
  get_or-replicate, All-append, All-take, All-imp, u32, Bytes, mod_window,
}
use cpe_networking_rejective.Checksum.{Checksum}
use cpe_networking_rejective.Net.{Event, timeout, arrives, received}
use cpe_networking_rejective.Packet.{flag_eof, get_flag, check_packet, read_u32}
use cpe_networking_rejective.Upload.{Upload, chunks}
use cpe_networking_rejective.Buffer.{Buffer}
use cpe_networking_rejective.Buffer.Ready.{IsFull}
use cpe_networking_rejective.Server.{
  ServerInfo, State, start, filename, recv_data, wait_on_done, done, max_tries, System,
  handle_eof_packet, wait_on_done_state, process_loop, process_client, new_client, first_data_seq,
  c_string, start_state, send_eof_ack, resend_last_ack,
}
use cpe_networking_rejective.Server.Delivery.{IsDelivering}
use cpe_networking_rejective.Server.Branches.{recv_eof}
use cpe_networking_rejective.Server.Process.{
  AreGenuine, buffer-wait_on_done_state, loop_recv_some, loop_wait, loop_done, loop_zero,
  loop_still,
}
use cpe_networking_rejective.Server.Farewell.{has_farewell, timeouts, Leaves, wait_on_done-Leaves}
use cpe_networking_rejective.Server.Transfer.{
  setup_payload, buffer_init-IsDelivering, buffer_init_made, filename_state_opened, loop_start,
}
use cpe_networking_rejective.Server.Catch.{is_calm, next_missing, HasFailed, loop-Catches}

module _ ⦃ck : Checksum⦄ where
  wait_stays :
      (info : ServerInfo) (e : Event)
      → ((wait_on_done_state info e).1 ≡ wait_on_done) ⊎ ((wait_on_done_state info e).1 ≡ done)
  unfolding wait_on_done_state
  wait_stays info timeout = ground arith
  wait_stays info (arrives from bytes) = ground arith

  module _ (os : System) where
    -- Taking leave does not touch the buffer.
    wait_keeps :
        (fuel : ℕ) (s : State) (info : ServerInfo) (events : List Event)
        → (s ≡ wait_on_done) ⊎ (s ≡ done)
        → (i : ServerInfo) × (s' : State) × (rest : List Event) × (process_loop os fuel s info
              events
            ≡ some (i, (s', rest)))
          × (i.buffer ≡ info.buffer)
    wait_keeps fuel start info events h = absurd (ground arith)
    wait_keeps fuel filename info events h = absurd (ground arith)
    wait_keeps fuel recv_data info events h = absurd (ground arith)
    wait_keeps fuel done info events h = (info, done, events, loop_done os fuel info events, refl)
    wait_keeps zero wait_on_done info events h =
        (info, wait_on_done, events, loop_zero os wait_on_done info events, refl)
    wait_keeps (suc fuel) wait_on_done info [] h =
        (info, wait_on_done, [], loop_still os (suc fuel) wait_on_done info (inr (inl refl)), refl)
    wait_keeps (suc fuel) wait_on_done info (e ∷ events) h =
        let (heard, s) = wait_on_done_state info e in
        let (i, s', rest, q, b) = wait_keeps fuel s heard events (wait_stays info e) in
        (i, s', rest, loop_wait os fuel info e events ∙ q, b ∙ buffer-wait_on_done_state info e)

  module _ (os : System) (full : IsFull os.write) (f : Upload) where
    -- A failed `write` and no process, or a process that is done and has written the whole file.
    abbrev pub Completes : Option (ServerInfo × (State × List Event)) → Type 0
    Completes r =
        HasFailed os f r
        ⊎ ((info : ServerInfo) × (rest : List Event) × (r ≡ some (info, (done, rest)))
            × (info.buffer.output_file ≡ chunks f.chunk f.first (f.limit - f.first)))

    whole_file :
        (info : ServerInfo)
        → IsDelivering f info.buffer
        → f.limit ≤ info.buffer.expected
        → info.buffer.output_file ≡ chunks f.chunk f.first (f.limit - f.first)
    whole_file info d all =
        let taken : d.taken ≡ f.limit - f.first = omega (arith, d.expects, d.within) in
        d.output ∙ ap (chunks f.chunk f.first) taken

    farewell_Completes :
        (fuel : ℕ) (info : ServerInfo) (events : List Event)
        → length events < fuel
        → info.retry_count ≡ 0
        → has_farewell events || leb max_tries (timeouts events) ≡ true
        → info.buffer.output_file ≡ chunks f.chunk f.first (f.limit - f.first)
        → Completes (process_loop os fuel wait_on_done info events)
    farewell_Completes fuel info events enough fresh leaves file =
        let (i, s, rest, q, b) = wait_keeps os fuel wait_on_done info events (inl refl) in
        let tries : has_farewell events || leb max_tries (info.retry_count + timeouts events)
            ≡ true =
          let none_used : info.retry_count + timeouts events ≡ timeouts events =
            omega (arith, fresh) in
          rw none_used leaves in
        let left : Leaves true (process_loop os fuel wait_on_done info events) =
          subst (λ x. Leaves x (process_loop os fuel wait_on_done info events)) tries
            (wait_on_done-Leaves os fuel info events (omega (arith, fresh)) enough) in
        let at_end : Leaves true (some (i, (s, rest))) = subst (Leaves true) q left in
        inr (
          i,
          rest,
          q ∙ ap (λ t. some (i, (t, rest))) at_end.0,
          ap (λ (c : Buffer). c.output_file) b ∙ file,
        )

    eof_Completes :
        (fuel : ℕ) (info : ServerInfo) (from : ℕ) (eof : List ℕ) (events : List Event)
        → length events < fuel
        → check_packet (received eof) ≡ true
        → get_flag (received eof) ≡ flag_eof
        → has_farewell events || leb max_tries (timeouts events) ≡ true
        → info.buffer.output_file ≡ chunks f.chunk f.first (f.limit - f.first)
        → Completes (process_loop os (suc fuel) recv_data info (arrives from eof ∷ events))
    unfolding handle_eof_packet send_eof_ack resend_last_ack
    eof_Completes fuel info from eof events enough good flag leaves file =
        let heard : ServerInfo = record info { client = from } in
        rw
          (loop_recv_some os fuel info (handle_eof_packet heard) (arrives from eof) events
            wait_on_done (recv_eof os info from eof good flag))
          (farewell_Completes fuel (handle_eof_packet heard) events enough refl leaves file)

    -- For a file whose pieces are numbered from 2, sequence numbers that do not wrap, a setup
    -- packet with a positive window size, an output file that opens, a `calloc` that succeeds and a
    -- `write` that never takes part of the bytes: when the events first bring each piece of the
    -- file after its predecessor, among damaged, repeated, early and other packets but without a
    -- timeout or an intact EOF, where every intact data packet carries the piece of its number,
    -- then an intact EOF, and then an intact DONE or ten timeouts, with anything else,
    -- `process_client` exits because `write` failed for a piece of the file, with the pieces before
    -- it in the output file, or it is done and its output file is the whole file.
    pub process_client-Completes :
        (packet : List ℕ) (from fd : ℕ) (needed : List Event) (client : ℕ) (eof : List ℕ)
        (events : List Event)
        → f.first ≡ first_data_seq
        → f.first ≤ f.limit
        → 0 < read_u32 (setup_payload packet)
        → f.limit + read_u32 (setup_payload packet) < 2 ^ 32
        → os.open_file (c_string (drop 8 (setup_payload packet))) ≡ some fd
        → os.calloc (read_u32 (setup_payload packet)) ≡ true
        → AreGenuine f needed
        → All (λ e. is_calm e ≡ true) needed
        → f.limit ≤ next_missing f.first needed
        → check_packet (received eof) ≡ true
        → get_flag (received eof) ≡ flag_eof
        → has_farewell events || leb max_tries (timeouts events) ≡ true
        → Completes (process_client os packet from (needed ++ arrives client eof ∷ events))
    unfolding process_client new_client start_state
    process_client-Completes packet from fd needed client eof events e le some_room room opened
          space genuine calm all good flag leaves =
        let info = new_client packet from in
        let size = read_u32 (setup_payload packet) in
        let (b, made) = buffer_init_made os.calloc size first_data_seq space in
        let (i, q, same) = filename_state_opened os (start_state os info).0 fd b opened made in
        let d' : IsDelivering f b =
          buffer_init-IsDelivering f os.calloc size le some_room room (rw e made) in
        let d : IsDelivering f i.buffer = subst (IsDelivering f) (sym same) d' in
        let fuel = suc (length events) in
        let last = arrives client eof ∷ events in
        let rounds : length (needed ++ last) + 3 ≡ suc (suc (length needed + suc fuel)) =
          omega (arith, length-append needed last) in
        let start_low : f.first ≤ i.buffer.expected = omega (arith, d.expects) in
        rw (rounds, loop_start os (length needed + suc fuel) info i recv_data (needed ++ last) q)
          (elim (loop-Catches os full f f.first (suc fuel) i needed last d genuine calm start_low) [
            | inl failed ↦ inl failed
            | inr (i', q', d2, low) ↦ rw q' (
                eof_Completes fuel i' client eof events (omega arith) good flag leaves
                  (whole_file i' d2 (omega (arith, low, all))))
          ])
