-- ===== src/Server/Promise.antt =====
-- server.c: through a whole run no RR claims more than what the output file has.
use cpe_networking_rejective.Prelude.{
  ℕ, zero, suc, ◌+◌, ◌^◌, ◌≤◌, ◌<◌, ◌≡◌, refl, sym, subst, ap, ◌∙◌, inl, inr, true, Option, none,
  some, List, [], ◌∷◌, arith, ℕ_discrete, leb, ◌==◌, Bool-cases, Option-cases, length, drop,
}
use cpe_networking_rejective.Checksum.{Checksum}
use cpe_networking_rejective.Net.{Event, timeout, arrives, received}
use cpe_networking_rejective.Upload.{Upload}
use cpe_networking_rejective.Packet.{
  srej_header_len, flag_data, flag_eof, flag_done, flag_filename_resp, read_u32, get_flag,
  check_packet,
}
use cpe_networking_rejective.Buffer.{Buffer, buffer_init}
use cpe_networking_rejective.Buffer.Ready.{IsFull}
use cpe_networking_rejective.Server
use cpe_networking_rejective.Server.{
  ServerInfo, System, State, start, filename, recv_data, wait_on_done, done, first_data_seq,
  with_buffer, c_string, send_control, send_filename_response, resend_last_ack, handle_eof_packet,
  handle_data_packet, start_state, new_client, filename_state, recv_data_state, wait_on_done_state,
  process_loop, process_client,
}
use cpe_networking_rejective.Server.Delivery.{IsDelivering}
use cpe_networking_rejective.Server.Receive.{handle_data_packet-Continues}
use cpe_networking_rejective.Server.Handle.{Continues}
use cpe_networking_rejective.Server.Process.{
  AreGenuine, Delivers, IsReceiving, check_packet-long, recv_data_state-IsReceiving,
  wait_on_done_state-IsReceiving, recv_data_state-Delivers, buffer-wait_on_done_state,
  loop_recv_some, loop_recv_none, loop_wait, loop_still, loop_done, loop_zero, AreGenuine-head,
  AreGenuine-tail,
}
use cpe_networking_rejective.Server.Transfer.{
  setup_payload, buffer_init_made, filename_state_opened, buffer_init-IsDelivering, loop_start,
}
use cpe_networking_rejective.Server.Honest.{
  IsHonest, NotRr-make_packet, send_control-IsHonest, with_buffer-IsHonest,
  handle_data_packet-IsHonest, resend_last_ack-IsHonest, handle_eof_packet-IsHonest,
}
use cpe_networking_rejective.Server.Branches.{
  after_piece, recv_bad, recv_eof, recv_noise, recv_piece, recv_quiet,
}

module _ ⦃ck : Checksum⦄ where
  wait_on_done_state-IsHonest :
      (info : ServerInfo) (e : Event) → IsHonest info → IsHonest (wait_on_done_state info e).0
  unfolding wait_on_done_state
  wait_on_done_state-IsHonest info timeout h =
      let tried : ServerInfo = record info { retry_count = info.retry_count + 1 } in
      elim (Bool-cases (leb Server.max_tries tried.retry_count)) [
        | inl over ↦ rw over h
        | inr again ↦ rw again (resend_last_ack-IsHonest tried h)
      ]
  wait_on_done_state-IsHonest info (arrives from data_in) h =
      let packet = received data_in in
      let heard : ServerInfo = record info { client = from } in
      elim (Bool-cases (check_packet packet)) [
        | inr bad ↦ rw bad h
        | inl good ↦ elim (Bool-cases (get_flag packet == flag_done)) [
          | inl over ↦ rw (good, over) h
          | inr more ↦ elim (Bool-cases (get_flag packet == flag_eof)) [
            | inl again ↦ rw (good, more, again) (resend_last_ack-IsHonest heard h)
            | inr other ↦ rw (good, more, other) h
          ]
        ]
      ]

  abbrev gives : ServerInfo → State → Option (ServerInfo × State)
  gives i s = some (i, s)

  same_result : (i j : ServerInfo) (s t : State) → gives i s ≡ gives j t → IsHonest i → IsHonest j
  same_result i j s t e h = let same : i ≡ j = ground (arith, e) in subst IsHonest same h

  module _ (os : System) (full : IsFull os.write) (f : Upload) where
    piece-IsHonest :
        (info i : ServerInfo) (packet : List ℕ) (s : State) (r : Option ServerInfo)
        → handle_data_packet os info packet ≡ r
        → after_piece r ≡ gives i s
        → Continues os f info r
        → IsHonest info
        → IsHonest i
    piece-IsHonest info i packet s none e q c h = cc
    piece-IsHonest info i packet s (some j) e q (inl (none_left, broken)) h = cc
    piece-IsHonest info i packet s (some j) e q (inr (k, same, d, le)) h =
        let there : k ≡ j = ground (arith, same) in
        let up = ap (λ (x : ServerInfo). x.buffer.expected) there in
        same_result j i recv_data s q (
          handle_data_packet-IsHonest os info j packet e (omega (arith, le, up))
            (omega (arith, up, d.within, d.room)) h)

    recv_data_state-IsHonest :
        (info i : ServerInfo) (e : Event) (s : State)
        → IsDelivering f info.buffer
        → AreGenuine f (e ∷ [])
        → recv_data_state os info e ≡ some (i, s)
        → IsHonest info
        → IsHonest i
    recv_data_state-IsHonest info i timeout s d g q h =
        same_result info i done s (sym (recv_quiet os info) ∙ q) h
    recv_data_state-IsHonest info i (arrives from data_in) s d g q h =
        let packet = received data_in in
        let heard : ServerInfo = record info { client = from } in
        elim (Bool-cases (check_packet packet)) [
          | inr bad ↦
              same_result heard i recv_data s (sym (recv_bad os info from data_in bad) ∙ q) h
          | inl good ↦ elim (ℕ_discrete (get_flag packet) flag_data) [
            | yes flag ↦
                let v = g.0 good flag in
                piece-IsHonest heard i packet s (handle_data_packet os heard packet) refl
                  (sym (
                      recv_piece os info from data_in (handle_data_packet os heard packet) good flag
                        refl)
                    ∙ q)
                  (handle_data_packet-Continues os full f heard packet d
                    (check_packet-long packet good) v.0 v.1)
                  h
            | no no_data ↦ elim (ℕ_discrete (get_flag packet) flag_eof) [
              | yes eof ↦
                  same_result (handle_eof_packet heard) i wait_on_done s
                    (sym (recv_eof os info from data_in good eof) ∙ q)
                    (handle_eof_packet-IsHonest heard h)
              | no no_eof ↦
                  same_result heard i recv_data s
                    (sym (recv_noise os info from data_in good no_data no_eof) ∙ q) h
            ]
          ]
        ]

    IsDelivering-next :
        (info i : ServerInfo) (s : State) (r : Option (ServerInfo × State))
        → Delivers os f r
        → r ≡ some (i, s)
        → IsDelivering f i.buffer
    IsDelivering-next info i s r (inl (none_left, broken)) e = cc
    IsDelivering-next info i s r (inr (j, a, q, d)) e =
        let same : j ≡ i = ground (arith, q, e) in
        subst (λ (x : ServerInfo). IsDelivering f x.buffer) same d

    process_loop-IsHonest :
        (fuel : ℕ) (s t : State) (info i : ServerInfo) (es rest : List Event)
        → IsReceiving s
        → IsDelivering f info.buffer
        → AreGenuine f es
        → process_loop os fuel s info es ≡ some (i, (t, rest))
        → IsHonest info
        → IsHonest i
    process_loop-IsHonest zero s t info i es rest r d g q h =
        let same : info ≡ i = ground (arith, q, loop_zero os s info es) in subst IsHonest same h
    process_loop-IsHonest (suc fuel) s t info i [] rest r d g q h =
        let same : info ≡ i = ground (arith, q, loop_still os (suc fuel) s info r) in
        subst IsHonest same h
    process_loop-IsHonest (suc fuel) start t info i (e ∷ es) rest r d g q h = absurd (ground arith)
    process_loop-IsHonest (suc fuel) filename t info i (e ∷ es) rest r d g q h =
        absurd (ground arith)
    process_loop-IsHonest (suc fuel) done t info i (e ∷ es) rest r d g q h =
        let same : info ≡ i = ground (arith, q, loop_done os (suc fuel) info (e ∷ es)) in
        subst IsHonest same h
    process_loop-IsHonest (suc fuel) wait_on_done t info i (e ∷ es) rest r d g q h =
        let next = wait_on_done_state info e in
        process_loop-IsHonest fuel next.1 t next.0 i es rest (wait_on_done_state-IsReceiving info e)
          (subst (IsDelivering f) (sym (buffer-wait_on_done_state info e)) d)
          (AreGenuine-tail os full f e es g) (sym (loop_wait os fuel info e es) ∙ q)
          (wait_on_done_state-IsHonest info e h)
    process_loop-IsHonest (suc fuel) recv_data t info i (e ∷ es) rest r d g q h =
        elim (Option-cases (recv_data_state os info e)) [
          | inl gone ↦ absurd (ground (arith, q, loop_recv_none os fuel info e es gone))
          | inr ((j, s), k) ↦
              let head = AreGenuine-head os full f e es g in
              process_loop-IsHonest fuel s t j i es rest
                (recv_data_state-IsReceiving os info j e s k)
                (IsDelivering-next info j s _ (recv_data_state-Delivers os full f info e d head) k)
                (AreGenuine-tail os full f e es g)
                (sym (loop_recv_some os fuel info j e es s k) ∙ q)
                (recv_data_state-IsHonest info j e s d head k h)
        ]

  -- The child before it has done anything, and after it has opened its file.
  new_client-IsHonest : (packet : List ℕ) (from : ℕ) → IsHonest (new_client packet from)
  unfolding new_client check_packet
  new_client-IsHonest packet from = (tt, (λ good e. cc, omega arith))

  opened-IsHonest :
      (os : System) (info i : ServerInfo) (fd : ℕ) (b : Buffer)
      → let payload = drop srej_header_len info.first_packet in
        os.open_file (c_string (drop 8 payload)) ≡ some fd
        → buffer_init os.calloc (read_u32 payload) first_data_seq [] ≡ some b
        → filename_state os info ≡ some (i, recv_data)
        → info.buffer.expected ≤ b.expected
        → IsHonest info
        → IsHonest i
  unfolding filename_state send_filename_response
  opened-IsHonest os info i fd b opened made e le h =
      let payload = drop srej_header_len info.first_packet in
      let sized : ServerInfo = record info {
        window_size = read_u32 payload;
        buffer_size = read_u32 (drop 4 payload);
        output_file = some fd;
      } in
      let other =
        NotRr-make_packet info.control_seq flag_filename_resp (0 ∷ []) 1 (omega arith)
          (omega arith) in
      let answered = send_filename_response sized 0 in
      let same : with_buffer answered b ≡ i = ground (arith, opened, made, e) in
      subst IsHonest same (
        with_buffer-IsHonest answered b le (
          send_control-IsHonest sized flag_filename_resp (0 ∷ []) 1
            (λ good q. absurd (other.0 good q), other.1) h))

  expected-new_client : (packet : List ℕ) (from : ℕ) → (new_client packet from).buffer.expected ≡ 0
  unfolding new_client
  expected-new_client packet from = refl

  start_state-IsHonest :
      (os : System) (info : ServerInfo) → IsHonest info → IsHonest (start_state os info).0
  unfolding start_state
  start_state-IsHonest os info h = h

  module _ (os : System) (full : IsFull os.write) (f : Upload) where
    -- For a file whose pieces are numbered from 2, sequence numbers that do not wrap, a setup
    -- packet with a positive window size, an output file that opens, a `calloc` that succeeds and a
    -- `write` that never takes part of the bytes: when every intact data packet that arrives
    -- carries the piece of its number and a run of `process_client` returns, every packet that it
    -- has sent fits a receive buffer of 1407 bytes, and an intact RR among them is for a number at
    -- most `expected`: the server never acknowledges what it has not written. The acknowledgement
    -- kept in `last_ack` is no RR.
    pub process_client-IsHonest :
        (packet : List ℕ) (from fd : ℕ) (events rest : List Event) (i : ServerInfo) (t : State)
        → f.first ≡ first_data_seq
        → f.first ≤ f.limit
        → 0 < read_u32 (setup_payload packet)
        → f.limit + read_u32 (setup_payload packet) < 2 ^ 32
        → os.open_file (c_string (drop 8 (setup_payload packet))) ≡ some fd
        → os.calloc (read_u32 (setup_payload packet)) ≡ true
        → AreGenuine f events
        → process_client os packet from events ≡ some (i, (t, rest))
        → IsHonest i
    unfolding process_client new_client start_state
    process_client-IsHonest packet from fd events rest i t e le pos room opened space g ran =
        let info = new_client packet from in
        let begun = (start_state os info).0 in
        let (b, made) =
          buffer_init_made os.calloc (read_u32 (setup_payload packet)) first_data_seq space in
        let (j, q, same) = filename_state_opened os begun fd b opened made in
        let rounds : length events + 3 ≡ suc (suc (suc (length events))) = omega arith in
        let low : begun.buffer.expected ≤ b.expected = omega arith in
        let d =
          buffer_init-IsDelivering f os.calloc (read_u32 (setup_payload packet)) le pos room
            (rw e made) in
        let d' = subst (IsDelivering f) (sym same) d in
        let fuel = suc (length events) in
        let h =
          opened-IsHonest os begun j fd b opened made q low
            (start_state-IsHonest os info (new_client-IsHonest packet from)) in
        process_loop-IsHonest os full f fuel recv_data t j i events rest (inl refl) d' g
          (sym (
              ap (λ n. process_loop os n start info events) rounds
              ∙ loop_start os fuel info j recv_data events q)
            ∙ ran)
          h
