-- ===== src/Rcopy/Handshake.antt =====
-- rcopy.c: the two exchanges that are tried up to MAX_TRIES times, setup and teardown.
use cpe_networking_rejective.Prelude.{
  ℕ, zero, suc, ◌≤◌, ◌≡◌, refl, sym, subst, ◌∙◌, ◌≢◌, ◌⊎◌, inl, inr, true, false, List, [], ◌∷◌,
  ◌++◌, arith, Bool-cases, All, All-append,
}
use cpe_networking_rejective.Checksum.{Checksum}
use cpe_networking_rejective.Net.{Event, timeout, arrives, received}
use cpe_networking_rejective.Upload.{Upload}
use cpe_networking_rejective.Packet.{
  srej_max_data, flag_data, flag_eof, flag_eof_ack, flag_done, make_packet,
}
use cpe_networking_rejective.Packet.RoundTrip.{length_bounds, get_flag-make_packet}
use cpe_networking_rejective.Rcopy.{
  RcopyInfo, State, done, max_tries, safe_sendto, poll_call, is_reply, eof_from, send_eof_state,
  send_final_done,
}
use cpe_networking_rejective.Rcopy.Sending.{IsSendable}

module _ ⦃ck : Checksum⦄ where
  -- A control packet is no data packet.
  pub control_packet-IsSendable :
      (f : Upload) (s flag : ℕ) (payload : List ℕ) (n : ℕ)
      → flag ≢ flag_data
      → n ≤ srej_max_data
      → IsSendable f (make_packet s flag payload n)
  control_packet-IsSendable f s flag payload n ne le = (
    λ good e. absurd (ne (sym (get_flag-make_packet s flag payload n) ∙ e)),
    omega (arith, length_bounds s flag payload n),
  )

  abbrev pub AllSendable : Upload → RcopyInfo → Type 0
  AllSendable f i = All (λ q. IsSendable f q.1) i.sent

  -- What an exchange leaves alone.
  pub record Kept (i j : RcopyInfo) : Type 0 where
    pub window : j.window ≡ i.window
    pub window_size : j.window_size ≡ i.window_size
    pub buffer_size : j.buffer_size ≡ i.buffer_size
    pub file_done : j.file_done ≡ i.file_done
    pub reads : j.reads ≡ i.reads

  pub Kept-trans : {i j k : RcopyInfo} → Kept i j → Kept j k → Kept i k
  Kept-trans h g = record {
    window = g.window ∙ h.window;
    window_size = g.window_size ∙ h.window_size;
    buffer_size = g.buffer_size ∙ h.buffer_size;
    file_done = g.file_done ∙ h.file_done;
    reads = g.reads ∙ h.reads;
  }

  -- One try: the packet goes out and an event is taken.
  pub tried :
      (i : RcopyInfo) (packet : List ℕ)
      → let j = (poll_call (safe_sendto i packet)).1 in
        Kept i j
        × (j.sent ≡ i.sent ++ ((i.server, packet) ∷ []))
        × (j.had_error ≡ i.had_error)
        × (j.control_seq ≡ i.control_seq)
  unfolding poll_call
  tried i packet = (
    record {
      window = ground arith;
      window_size = ground arith;
      buffer_size = ground arith;
      file_done = ground arith;
      reads = ground arith;
    },
    ground arith,
    ground arith,
    ground arith,
  )

  pub tried-AllSendable :
      (f : Upload) (i : RcopyInfo) (packet : List ℕ)
      → AllSendable f i
      → IsSendable f packet
      → AllSendable f (poll_call (safe_sendto i packet)).1
  tried-AllSendable f i packet h ok =
      subst (All (λ q. IsSendable f q.1)) (sym (tried i packet).1)
        (All-append (λ q. IsSendable f q.1) i.sent _ h (ok, tt))

  -- The rounds of `send_eof_state`, by what the poll brings.
  abbrev pub polled : RcopyInfo → List ℕ → RcopyInfo
  polled i packet = (poll_call (safe_sendto i packet)).1

  pub eof_timeout :
      (left : ℕ) (i : RcopyInfo) (packet : List ℕ)
      → (poll_call (safe_sendto i packet)).0 ≡ timeout
      → eof_from (suc left) i packet ≡ eof_from left (polled i packet) packet
  unfolding eof_from
  eof_timeout left i packet h = ground (arith, h)

  pub eof_reply :
      (left : ℕ) (i : RcopyInfo) (packet : List ℕ) (from : ℕ) (bytes : List ℕ)
      → (poll_call (safe_sendto i packet)).0 ≡ arrives from bytes
      → is_reply flag_eof_ack (received bytes) ≡ true
      → eof_from (suc left) i packet
        ≡ (send_final_done (record (polled i packet) { server = from }), done)
  unfolding eof_from
  eof_reply left i packet from bytes h k = ground (arith, h, k)

  pub eof_noise :
      (left : ℕ) (i : RcopyInfo) (packet : List ℕ) (from : ℕ) (bytes : List ℕ)
      → (poll_call (safe_sendto i packet)).0 ≡ arrives from bytes
      → is_reply flag_eof_ack (received bytes) ≡ false
      → eof_from (suc left) i packet
        ≡ eof_from left (record (polled i packet) { server = from }) packet
  unfolding eof_from
  eof_noise left i packet from bytes h k = ground (arith, h, k)

  pub Event-cases :
      (e : Event) → (e ≡ timeout) ⊎ ((from : ℕ) × (bytes : List ℕ) × (e ≡ arrives from bytes))
  Event-cases timeout = inl refl
  Event-cases (arrives from bytes) = inr (from, bytes, refl)

  -- How the teardown comes out: it is over, and nothing that matters to the sender has changed.
  pub record Closed (f : Upload) (i : RcopyInfo) (r : RcopyInfo × State) : Type 0 where
    pub over : r.1 ≡ done
    pub kept : Kept i r.0
    pub sendable : AllSendable f r.0

  Closed-after :
      (f : Upload) (i : RcopyInfo) (packet : List ℕ) (from : ℕ) (r : RcopyInfo × State)
      → Closed f (record (polled i packet) { server = from }) r
      → Closed f i r
  Closed-after f i packet from r c =
      let k = (tried i packet).0 in
      record {
        over = c.over;
        kept = Kept-trans k (record {
          window = c.kept.window;
          window_size = c.kept.window_size;
          buffer_size = c.kept.buffer_size;
          file_done = c.kept.file_done;
          reads = c.kept.reads;
        });
        sendable = c.sendable;
      }

  final_done-Closed :
      (f : Upload) (i : RcopyInfo) → AllSendable f i → Closed f i (send_final_done i, done)
  unfolding send_final_done
  final_done-Closed f i h = record {
    over = refl;
    kept = record {
      window = refl;
      window_size = refl;
      buffer_size = refl;
      file_done = refl;
      reads = refl;
    };
    sendable =
        All-append (λ q. IsSendable f q.1) i.sent _ h
          (control_packet-IsSendable f _ flag_done [] 0 (omega arith) (omega arith), tt);
  }

  eof_from_zero :
      (f : Upload) (i : RcopyInfo) (packet : List ℕ)
      → AllSendable f i
      → Closed f i (eof_from 0 i packet)
  unfolding eof_from
  eof_from_zero f i packet h = record {
    over = refl;
    kept = record {
      window = refl;
      window_size = refl;
      buffer_size = refl;
      file_done = refl;
      reads = refl;
    };
    sendable = h;
  }

  eof_from-Closed :
      (left : ℕ) (f : Upload) (i : RcopyInfo) (packet : List ℕ)
      → AllSendable f i
      → IsSendable f packet
      → Closed f i (eof_from left i packet)
  eof_from-Closed zero f i packet h ok = eof_from_zero f i packet h
  eof_from-Closed (suc left) f i packet h ok =
      let j = polled i packet in
      let h' = tried-AllSendable f i packet h ok in
      elim (Event-cases (poll_call (safe_sendto i packet)).0) [
        | inl quiet ↦
            rw (eof_timeout left i packet quiet)
              (Closed-after f i packet j.server _ (eof_from-Closed left f j packet h' ok))
        | inr (from, bytes, e) ↦ elim (Bool-cases (is_reply flag_eof_ack (received bytes))) [
          | inl reply ↦
              rw (eof_reply left i packet from bytes e reply) (
                Closed-after f i packet from _
                  (final_done-Closed f (record j { server = from }) h'))
          | inr noise ↦ rw (eof_noise left i packet from bytes e noise) (
              Closed-after f i packet from _
                (eof_from-Closed left f (record j { server = from }) packet h' ok))
        ]
      ]

  pub send_eof_state-Closed :
      (f : Upload) (i : RcopyInfo) → AllSendable f i → Closed f i (send_eof_state i)
  unfolding send_eof_state
  send_eof_state-Closed f i h =
      eof_from-Closed max_tries f i _ h
        (control_packet-IsSendable f _ flag_eof [] 0 (omega arith) (omega arith))
