-- ===== src/Server/Transfer.antt =====
-- server.c: one whole run of `process_client`.
use cpe_networking_rejective.Prelude.{
  ℕ, zero, suc, ◌+◌, ◌%◌, ◌^◌, ◌≤◌, ◌<◌, ◌≡◌, refl, sym, subst, ap, ◌∙◌, ◌⊎◌, inl, inr, Bool, true,
  false, Option, none, some, List, [], ◌∷◌, arith, Option-cases, length, get_or, drop, replicate,
  length-replicate, get_or-replicate,
}
use cpe_networking_rejective.Checksum.{Checksum}
use cpe_networking_rejective.Net.{Event}
use cpe_networking_rejective.Packet.{srej_header_len, read_u32}
use cpe_networking_rejective.Buffer.{Buffer, buffer_init, zeroed, buffer_has}
use cpe_networking_rejective.Buffer.Ready.{IsFull}
use cpe_networking_rejective.Server.{
  ServerInfo, State, start, filename, recv_data, wait_on_done, done, System, recv_data_state,
  wait_on_done_state, start_state, filename_state, process_loop, process_client, new_client,
  first_data_seq, zero_padded, with_buffer, send_filename_response, c_string,
}
use cpe_networking_rejective.Server.Delivery.{IsDelivering}
use cpe_networking_rejective.Upload.{RefusesPiece, Upload, chunks}
use cpe_networking_rejective.Server.Process.{
  AreGenuine, Delivers, IsReceiving, process_loop-Delivers, loop_recv_some, loop_recv_none,
  loop_wait, loop_still, loop_done, recv_data_state-IsReceiving, wait_on_done_state-IsReceiving,
}

buffer_has-zeroed : (b : Buffer) (s n : ℕ) → b.entry ≡ replicate n zeroed → buffer_has b s ≡ false
unfolding buffer_has
buffer_has-zeroed b s n e =
    let q : get_or b.entry (s % b.size) zeroed ≡ zeroed =
      ap (λ xs. get_or xs (s % b.size) zeroed) e ∙ get_or-replicate n zeroed (s % b.size) in
    rw q

-- A new buffer has nothing and has written nothing.
pub buffer_init-IsDelivering :
    (f : Upload) (calloc : ℕ → Bool) (size : ℕ) {b : Buffer}
    → f.first ≤ f.limit
    → 0 < size
    → f.limit + size < 2 ^ 32
    → buffer_init calloc size f.first [] ≡ some b
    → IsDelivering f b
unfolding buffer_init
buffer_init-IsDelivering f calloc size {b} le pos room h =
    let q : (b.entry ≡ replicate size zeroed)
        × (b.size ≡ size)
        × (b.expected ≡ f.first)
        × (b.output_file ≡ []) =
      ground arith in
    let empty = λ (s : ℕ). buffer_has-zeroed b s size q.0 in
    record {
      array = record {
        pos = omega (arith, q.1);
        len = ap length q.0 ∙ length-replicate size zeroed ∙ sym q.1;
      };
      room = omega (arith, q.1);
      taken = 0;
      expects = omega (arith, q.2);
      within = omega (arith, q.2);
      output = q.3;
      ahead = λ s k. absurd (ground (arith, empty s));
      genuine = λ s k. absurd (ground (arith, empty s));
    }

pub buffer_init_made :
    (calloc : ℕ → Bool) (size start_seq : ℕ)
    → calloc size ≡ true
    → (b : Buffer) × (buffer_init calloc size start_seq [] ≡ some b)
unfolding buffer_init
buffer_init_made calloc size start_seq h = (
  record {
    entry = replicate size zeroed;
    size = size;
    output_file = [];
    expected = start_seq;
    missing_seq = 0;
    missing_active = 0;
  },
  ground (arith, h),
)

module _ ⦃ck : Checksum⦄ (os : System) where
  pub filename_state_opened :
      (info : ServerInfo) (fd : ℕ) (b : Buffer)
      → let payload = drop srej_header_len info.first_packet in
        os.open_file (c_string (drop 8 payload)) ≡ some fd
        → buffer_init os.calloc (read_u32 payload) first_data_seq [] ≡ some b
        → (i : ServerInfo) × (filename_state os info ≡ some (i, recv_data)) × (i.buffer ≡ b)
  unfolding filename_state send_filename_response
  filename_state_opened info fd b opened made =
      let payload = drop srej_header_len info.first_packet in
      let i : ServerInfo =
        with_buffer
          (send_filename_response
            (record info {
              window_size = read_u32 payload;
              buffer_size = read_u32 (drop 4 payload);
              output_file = some fd;
            })
            0)
          b in
      (i, ground (arith, opened, made), refl)

  pub loop_start :
      (fuel : ℕ) (info i : ServerInfo) (s : State) (es : List Event)
      → filename_state os (start_state os info).0 ≡ some (i, s)
      → process_loop os (suc (suc fuel)) start info es ≡ process_loop os fuel s i es
  unfolding process_loop start_state
  loop_start fuel info i s es h = ground (arith, h)

  -- Where the loop stops when each event has a round.
  process_loop_ends :
      (fuel : ℕ) (s : State) (info info' : ServerInfo) (s' : State) (es es' : List Event)
      → IsReceiving s
      → length es < fuel
      → process_loop os fuel s info es ≡ some (info', (s', es'))
      → (s' ≡ done) ⊎ (es' ≡ [])
  process_loop_ends zero s info info' s' es es' r enough h = absurd (omega arith)
  process_loop_ends (suc fuel) s info info' s' [] es' r enough h =
      ground (arith, h, loop_still os (suc fuel) s info r)
  process_loop_ends (suc fuel) start info info' s' (e ∷ es) es' r enough h = absurd (ground arith)
  process_loop_ends (suc fuel) filename info info' s' (e ∷ es) es' r enough h =
      absurd (ground arith)
  process_loop_ends (suc fuel) done info info' s' (e ∷ es) es' r enough h =
      ground (arith, h, loop_done os (suc fuel) info (e ∷ es))
  process_loop_ends (suc fuel) wait_on_done info info' s' (e ∷ es) es' r enough h =
      process_loop_ends fuel (wait_on_done_state info e).1 (wait_on_done_state info e).0 info' s' es
        es' (wait_on_done_state-IsReceiving info e) (omega arith)
        (sym (loop_wait os fuel info e es) ∙ h)
  process_loop_ends (suc fuel) recv_data info info' s' (e ∷ es) es' r enough h =
      elim (Option-cases (recv_data_state os info e)) [
        | inl q ↦ ground (arith, h, loop_recv_none os fuel info e es q)
        | inr ((i, s), q) ↦
            process_loop_ends fuel s i info' s' es es' (recv_data_state-IsReceiving os info i e s q)
              (omega arith) (sym (loop_recv_some os fuel info i e es s q) ∙ h)
      ]

-- What the server reads of the first packet: the payload after the header.
abbrev pub setup_payload : List ℕ → List ℕ
setup_payload packet = drop srej_header_len (zero_padded packet)

module _ ⦃ck : Checksum⦄ (os : System) (full : IsFull os.write) (f : Upload) where
  -- How a run may come out: `write` failed and the process is gone, or it is done or waits for more,
  -- and the output file is a prefix of the file that is sent.
  abbrev pub Uploads : Option (ServerInfo × (State × List Event)) → Type 0
  Uploads r =
      ((r ≡ none) × RefusesPiece os.write f)
      ⊎ ((info : ServerInfo) × (s : State) × (rest : List Event) × (n : ℕ) × (r
            ≡ some (info, (s, rest)))
          × ((s ≡ done) ⊎ (rest ≡ []))
          × (f.first + n ≤ f.limit)
          × (info.buffer.expected ≡ f.first + n)
          × (info.buffer.output_file ≡ chunks f.chunk f.first n))

  loop-Uploads :
      (fuel : ℕ) (s : State) (info : ServerInfo) (es : List Event)
      → IsReceiving s
      → length es < fuel
      → Delivers os f (process_loop os fuel s info es)
      → Uploads (process_loop os fuel s info es)
  loop-Uploads fuel s info es r enough (inl failed) = inl failed
  loop-Uploads fuel s info es r enough (inr (i, (s', es'), e, d)) = inr (
    i,
    s',
    es',
    d.taken,
    e,
    process_loop_ends os fuel s info i s' es es' r enough e,
    omega (arith, d.expects, d.within),
    d.expects,
    d.output,
  )

  -- For a file whose pieces are numbered from 2, sequence numbers that do not wrap, a setup packet
  -- with a positive window size, an output file that opens, a `calloc` that succeeds and a `write`
  -- that never takes part of the bytes: when every intact data packet that arrives carries the
  -- piece of its number, `process_client` exits because `write` failed for a piece of the file,
  -- with the pieces before it in the output file, or it is done or has read all of its events,
  -- `expected` is 2 + n and the output file is the first n pieces of the file, n at most their
  -- number.
  pub process_client-Uploads :
      (packet : List ℕ) (from fd : ℕ) (events : List Event)
      → f.first ≡ first_data_seq
      → f.first ≤ f.limit
      → 0 < read_u32 (setup_payload packet)
      → f.limit + read_u32 (setup_payload packet) < 2 ^ 32
      → os.open_file (c_string (drop 8 (setup_payload packet))) ≡ some fd
      → os.calloc (read_u32 (setup_payload packet)) ≡ true
      → AreGenuine f events
      → Uploads (process_client os packet from events)
  unfolding process_client new_client start_state
  process_client-Uploads packet from fd events e le pos room opened space genuine =
      let info = new_client packet from in
      let (b, made) =
        buffer_init_made os.calloc (read_u32 (setup_payload packet)) first_data_seq space in
      let (i, q, same) = filename_state_opened os (start_state os info).0 fd b opened made in
      let rounds : length events + 3 ≡ suc (suc (suc (length events))) = omega arith in
      let d =
        buffer_init-IsDelivering f os.calloc (read_u32 (setup_payload packet)) le pos room
          (rw e made) in
      let d' = subst (IsDelivering f) (sym same) d in
      let fuel = suc (length events) in
      rw (rounds, loop_start os fuel info i recv_data events q)
        (loop-Uploads fuel recv_data i events (inl refl) (omega arith)
          (process_loop-Delivers os full f fuel recv_data i events (inl refl) d' genuine))
