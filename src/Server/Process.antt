-- ===== src/Server/Process.antt =====
-- server.c: the child process from its first packet to its end.
use cpe_networking_rejective.Prelude.{
  ℕ, zero, suc, ◌≤◌, ◌≡◌, refl, sym, subst, ◌≢◌, ◌⊎◌, inl, inr, true, false, Option, none, some,
  List, [], ◌∷◌, arith, ℕ_discrete, ◌==◌, ==_true, Bool-cases, length,
}
use cpe_networking_rejective.Checksum.{Checksum}
use cpe_networking_rejective.Net.{Event, timeout, arrives, received}
use cpe_networking_rejective.Packet.{srej_header_len, flag_data, flag_eof, get_flag, check_packet}
use cpe_networking_rejective.Buffer.Ready.{IsFull}
use cpe_networking_rejective.Server.{
  ServerInfo, State, start, filename, recv_data, wait_on_done, done, System, handle_data_packet,
  handle_eof_packet, recv_data_state, wait_on_done_state, process_loop, resend_last_ack,
}
use cpe_networking_rejective.Server.Delivery.{IsDelivering}
use cpe_networking_rejective.Upload.{RefusesPiece, Upload, IsGenuine}
use cpe_networking_rejective.Server.Receive.{handle_data_packet-Continues}
use cpe_networking_rejective.Server.Handle.{Continues}

module _ ⦃ck : Checksum⦄ where
  -- Every datagram that arrives is genuine: intact data packets are of this file, none is cut.
  abbrev pub AreGenuine : Upload → List Event → Type 0
  AreGenuine f [] = Unit {0}
  AreGenuine f (timeout ∷ es) = AreGenuine f es
  AreGenuine f (arrives from bytes ∷ es) = IsGenuine f (received bytes) × AreGenuine f es

  pub check_packet-long :
      (packet : List ℕ) → check_packet packet ≡ true → srej_header_len ≤ length packet
  unfolding check_packet
  check_packet-long packet h = ground arith

  buffer-handle_eof_packet : (info : ServerInfo) → (handle_eof_packet info).buffer ≡ info.buffer
  unfolding handle_eof_packet
  buffer-handle_eof_packet info = refl

  pub buffer-wait_on_done_state :
      (info : ServerInfo) (e : Event) → (wait_on_done_state info e).0.buffer ≡ info.buffer
  unfolding wait_on_done_state resend_last_ack
  buffer-wait_on_done_state info timeout = ground arith
  buffer-wait_on_done_state info (arrives from bytes) = ground arith

  -- A failed `write` and no process, or a server whose buffer holds part of the file.
  abbrev pub Delivers : System → Upload → {A : Type 0} → Option (ServerInfo × A) → Type 0
  Delivers os f r =
      ((r ≡ none) × RefusesPiece os.write f)
      ⊎ ((info : ServerInfo) × (a : _) × (r ≡ some (info, a)) × IsDelivering f info.buffer)

  -- The states after the file is open.
  abbrev pub IsReceiving : State → Type 0
  IsReceiving s = (s ≡ recv_data) ⊎ ((s ≡ wait_on_done) ⊎ (s ≡ done))

  pub wait_on_done_state-IsReceiving :
      (info : ServerInfo) (e : Event) → IsReceiving (wait_on_done_state info e).1
  unfolding wait_on_done_state
  wait_on_done_state-IsReceiving info timeout = ground arith
  wait_on_done_state-IsReceiving info (arrives from bytes) = ground arith

  module _ (os : System) where
    pub recv_data_state-IsReceiving :
        (info i : ServerInfo) (e : Event) (s : State)
        → recv_data_state os info e ≡ some (i, s)
        → IsReceiving s
    unfolding recv_data_state
    recv_data_state-IsReceiving info i timeout s h = ground arith
    recv_data_state-IsReceiving info i (arrives from bytes) s h = ground arith

    -- One round of the loop in each receiving state.
    pub loop_recv_some :
        (fuel : ℕ) (info i : ServerInfo) (e : Event) (es : List Event) (s : State)
        → recv_data_state os info e ≡ some (i, s)
        → process_loop os (suc fuel) recv_data info (e ∷ es) ≡ process_loop os fuel s i es
    unfolding process_loop
    loop_recv_some fuel info i e es s h = ground (arith, h)

    pub loop_recv_none :
        (fuel : ℕ) (info : ServerInfo) (e : Event) (es : List Event)
        → recv_data_state os info e ≡ none
        → process_loop os (suc fuel) recv_data info (e ∷ es) ≡ none
    unfolding process_loop
    loop_recv_none fuel info e es h = ground (arith, h)

    pub loop_wait :
        (fuel : ℕ) (info : ServerInfo) (e : Event) (es : List Event)
        → let (i, s) = wait_on_done_state info e in
          process_loop os (suc fuel) wait_on_done info (e ∷ es) ≡ process_loop os fuel s i es
    unfolding process_loop
    loop_wait fuel info e es = refl

    pub loop_still :
        (fuel : ℕ) (s : State) (info : ServerInfo)
        → IsReceiving s
        → process_loop os fuel s info [] ≡ some (info, (s, []))
    unfolding process_loop
    loop_still zero s info r = refl
    loop_still (suc fuel) recv_data info r = refl
    loop_still (suc fuel) wait_on_done info r = refl
    loop_still (suc fuel) done info r = refl
    loop_still (suc fuel) start info r = ground arith
    loop_still (suc fuel) filename info r = ground arith

    pub loop_done :
        (fuel : ℕ) (info : ServerInfo) (es : List Event)
        → process_loop os fuel done info es ≡ some (info, (done, es))
    unfolding process_loop
    loop_done zero info es = refl
    loop_done (suc fuel) info es = refl

    pub loop_zero :
        (s : State) (info : ServerInfo) (es : List Event)
        → process_loop os 0 s info es ≡ some (info, (s, es))
    unfolding process_loop
    loop_zero s info es = refl

  module _ (os : System) (full : IsFull os.write) (f : Upload) where
    after_data :
        (info : ServerInfo) (r : Option ServerInfo)
        → Continues os f info r
        → Delivers os f (elim r [ none ↦ none | some i ↦ some (i, recv_data) ])
    after_data info none (inl (e, failed)) = inl (refl, failed)
    after_data info none (inr (i, e, d, m)) = cc
    after_data info (some i) (inl (e, failed)) = cc
    after_data info (some i) (inr (j, e, d, m)) =
        let same : j ≡ i = ground (arith, e) in
        inr (i, recv_data, refl, subst (λ (x : ServerInfo). IsDelivering f x.buffer) same d)

    recv_data-Delivers :
        (info : ServerInfo) (from : ℕ) (bytes : List ℕ)
        → IsDelivering f info.buffer
        → IsGenuine f (received bytes)
        → check_packet (received bytes) ≡ true
        → get_flag (received bytes) ≡ flag_data
        → Delivers os f (recv_data_state os info (arrives from bytes))
    unfolding recv_data_state
    recv_data-Delivers info from bytes d g good flag =
        let packet = received bytes in
        let heard : ServerInfo = record info { client = from } in
        let q = g good flag in
        rw (good, ==_true (get_flag packet) flag_data flag)
          (after_data heard (handle_data_packet os heard packet) (
            handle_data_packet-Continues os full f heard packet d (check_packet-long packet good)
              q.0 q.1))

    recv_other :
        (info : ServerInfo) (from : ℕ) (bytes : List ℕ)
        → (check_packet (received bytes) ≡ false) ⊎ (get_flag (received bytes) ≢ flag_data)
        → (i : ServerInfo) × (s : State) × (recv_data_state os info (arrives from bytes)
            ≡ some (i, s))
          × (i.buffer ≡ info.buffer)
    unfolding recv_data_state
    recv_other info from bytes h =
        let packet = received bytes in
        let heard : ServerInfo = record info { client = from } in
        elim (Bool-cases (check_packet packet)) [
          | inr bad ↦ (heard, recv_data, ground arith, refl)
          | inl good ↦ elim (Bool-cases (get_flag packet == flag_eof)) [
            | inl eof ↦ (
              handle_eof_packet heard,
              wait_on_done,
              ground arith,
              buffer-handle_eof_packet heard,
            )
            | inr other ↦ (heard, recv_data, ground arith, refl)
          ]
        ]

    recv_timeout : (info : ServerInfo) → recv_data_state os info timeout ≡ some (info, done)
    unfolding recv_data_state
    recv_timeout info = refl

    recv_kept :
        (info : ServerInfo) (from : ℕ) (bytes : List ℕ)
        → IsDelivering f info.buffer
        → (check_packet (received bytes) ≡ false) ⊎ (get_flag (received bytes) ≢ flag_data)
        → Delivers os f (recv_data_state os info (arrives from bytes))
    recv_kept info from bytes d h =
        let (i, s, e, b) = recv_other info from bytes h in
        inr (i, s, e, subst (IsDelivering f) (sym b) d)

    pub recv_data_state-Delivers :
        (info : ServerInfo) (e : Event)
        → IsDelivering f info.buffer
        → AreGenuine f (e ∷ [])
        → Delivers os f (recv_data_state os info e)
    recv_data_state-Delivers info timeout d g = inr (info, done, recv_timeout info, d)
    recv_data_state-Delivers info (arrives from bytes) d g =
        elim (Bool-cases (check_packet (received bytes))) [
          | inr bad ↦ recv_kept info from bytes d (inl bad)
          | inl good ↦ elim (ℕ_discrete (get_flag (received bytes)) flag_data) [
            | yes flag ↦ recv_data-Delivers info from bytes d g.0 good flag
            | no ne ↦ recv_kept info from bytes d (inr ne)
          ]
        ]

    pub AreGenuine-head :
        (e : Event) (es : List Event) → AreGenuine f (e ∷ es) → AreGenuine f (e ∷ [])
    AreGenuine-head timeout es g = tt
    AreGenuine-head (arrives from bytes) es g = (g.0, tt)

    pub AreGenuine-tail : (e : Event) (es : List Event) → AreGenuine f (e ∷ es) → AreGenuine f es
    AreGenuine-tail timeout es g = g
    AreGenuine-tail (arrives from bytes) es g = g.1

    pub process_loop-Delivers :
        (fuel : ℕ) (s : State) (info : ServerInfo) (es : List Event)
        → IsReceiving s
        → IsDelivering f info.buffer
        → AreGenuine f es
        → Delivers os f (process_loop os fuel s info es)
    process_loop-Delivers zero s info es r d g = inr (info, (s, es), loop_zero os s info es, d)
    process_loop-Delivers (suc fuel) s info [] r d g =
        inr (info, (s, []), loop_still os (suc fuel) s info r, d)
    process_loop-Delivers (suc fuel) start info (e ∷ es) r d g = absurd (ground arith)
    process_loop-Delivers (suc fuel) filename info (e ∷ es) r d g = absurd (ground arith)
    process_loop-Delivers (suc fuel) done info (e ∷ es) r d g =
        inr (info, (done, e ∷ es), loop_done os (suc fuel) info (e ∷ es), d)
    process_loop-Delivers (suc fuel) wait_on_done info (e ∷ es) r d g =
        rw (loop_wait os fuel info e es) (
          process_loop-Delivers fuel (wait_on_done_state info e).1 (wait_on_done_state info e).0 es
            (wait_on_done_state-IsReceiving info e)
            (subst (IsDelivering f) (sym (buffer-wait_on_done_state info e)) d)
            (AreGenuine-tail e es g))
    process_loop-Delivers (suc fuel) recv_data info (e ∷ es) r d g =
        elim (recv_data_state-Delivers info e d (AreGenuine-head e es g)) [
          | inl (q, failed) ↦ inl (loop_recv_none os fuel info e es q, failed)
          | inr (i, s, q, d') ↦ rw (loop_recv_some os fuel info i e es s q) (
              process_loop-Delivers fuel s i es (recv_data_state-IsReceiving os info i e s q) d'
                (AreGenuine-tail e es g))
        ]
