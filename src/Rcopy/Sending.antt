-- ===== src/Rcopy/Sending.antt =====
-- rcopy.c: every packet that `send_data_state` and `wait_on_ack_state` send, first or again, is a
-- packet of the file.
use cpe_networking_rejective.Prelude.{
  ℕ, suc, ◌+◌, ◌^◌, ◌≤◌, ◌<◌, ◌≡◌, sym, ap, ◌∙◌, ◌≢◌, ◌⊎◌, inl, inr, true, some, List, [], ◌∷◌,
  ◌++◌, arith, ℕ_discrete, length, take, All, take-all, All-append, All-imp,
}
use cpe_networking_rejective.Checksum.{Checksum}
use cpe_networking_rejective.Upload.{Upload, IsPiece}
use cpe_networking_rejective.Packet.{srej_max_data, srej_max_packet, flag_data, make_packet}
use cpe_networking_rejective.Packet.RoundTrip.{length_bounds, get_seq-make_packet, drop-make_packet}
use cpe_networking_rejective.Window.{Window, WindowEntry, window_find, window_add, window_open}
use cpe_networking_rejective.Window.Slots.{saved_entry}
use cpe_networking_rejective.Window.Invariant.{IsWindow, window_add-IsWindow, window_find-add_next}
use cpe_networking_rejective.Rcopy.{
  RcopyInfo, Read, bytes, failed, send_one, after_data, process_controls,
}
use cpe_networking_rejective.Rcopy.Controls.{Heard, IsHeld, process_controls-Heard}

-- A packet that the server can receive whole, and that is a piece of the file if it is a data packet.
abbrev pub IsSendable : ⦃ck : Checksum⦄ → Upload → List ℕ → Type 0
IsSendable f packet = IsPiece f packet × (length packet ≤ srej_max_packet)

-- What is found after `window_add` was there before or is the new packet, whole.
added_entry :
    (w : Window) (packet : List ℕ) (s : ℕ) (e : WindowEntry)
    → IsWindow w
    → window_open w ≡ true
    → window_find (window_add w w.current packet (length packet)) s ≡ some e
    → (window_find w s ≡ some e) ⊎ (take e.packet_len e.packet ≡ packet)
unfolding saved_entry
added_entry w packet s e v o h =
    let q = window_find-add_next w packet (length packet) s v o in
    elim (ℕ_discrete s w.current) [
      | no ne ↦ inl (ground (arith, q, h))
      | yes eq ↦
          let same : e ≡ saved_entry w.current packet (length packet) = ground (arith, q, h) in
          let whole = take-all (length packet) packet (omega arith) in inr (rw (same, whole) whole)
    ]

module _ ⦃ck : Checksum⦄ where
  -- The sender while it has a window.
  pub record IsSending (f : Upload) (i : RcopyInfo) : Type 0 where
    pub sound : IsWindow i.window
    pub room : f.limit + i.window.size < 2 ^ 32
    pub from_first : f.first ≤ i.window.current
    pub within : i.window.current ≤ f.limit
    pub small : i.buffer_size ≤ srej_max_data
    pub held :
        (s : ℕ) (e : WindowEntry)
        → window_find i.window s ≡ some e
        → IsSendable f (take e.packet_len e.packet)
    pub sendable : All (λ q. IsSendable f q.1) i.sent

  held-IsSendable :
      (f : Upload) (i : RcopyInfo) (q : ℕ × List ℕ)
      → IsSending f i
      → IsHeld i.window q
      → IsSendable f q.1
  held-IsSendable f i q h (s, e, g, b) = rw b (h.held s e g)

  pub Heard-IsSending : (f : Upload) (i j : RcopyInfo) → IsSending f i → Heard i j → IsSending f j
  Heard-IsSending f i j h g = record {
    sound = g.sound;
    room = omega (arith, g.size_kept, h.room);
    from_first = omega (arith, g.current_kept, h.from_first);
    within = omega (arith, g.current_kept, h.within);
    small = omega (arith, g.rest_kept.0, h.small);
    held = λ s e q. h.held s e (g.found s e q);
    sendable = rw (g.sent_more) (
        All-append (λ q. IsSendable f q.1) i.sent g.resent h.sendable
          (All-imp (IsHeld i.window) (λ q. IsSendable f q.1) (λ q. held-IsSendable f i q h) g.resent
            g.resent_held));
  }

  pub controls-IsSending :
      (f : Upload) (i : RcopyInfo) → IsSending f i → IsSending f (process_controls i).0
  controls-IsSending f i h =
      Heard-IsSending f i (process_controls i).0 h
        (process_controls-Heard i h.sound (omega (arith, h.room, h.within)))

  -- The next piece of the file as a packet.
  data_packet-IsSendable :
      (f : Upload) (s : ℕ) (d : List ℕ)
      → f.first ≤ s
      → s < f.limit
      → f.limit < 2 ^ 32
      → f.chunk s ≡ d
      → length d ≤ srej_max_data
      → IsSendable f (make_packet s flag_data d (length d))
  data_packet-IsSendable f s d low lt room e le =
      let p = make_packet s flag_data d (length d) in
      let num = get_seq-make_packet s flag_data d (length d) (omega arith) in
      let body = drop-make_packet s flag_data d (length d) ∙ take-all (length d) d (omega arith) in
      (
        λ good flag.
            (omega (arith, num, low), omega (arith, num), body ∙ sym e ∙ ap f.chunk (sym num)),
        omega (arith, length_bounds s flag_data d (length d)),
      )

  -- The data of the reads to come, from number `s` on, are the pieces of the file.
  abbrev pub IsPending : Upload → ℕ → ℕ → List Read → Type 0
  IsPending f n s [] = s ≡ f.limit
  IsPending f n s (failed ∷ rs) = Unit {0}
  IsPending f n s (bytes ds ∷ rs) =
      ((take n ds ≡ []) × (s ≡ f.limit))
      ⊎ ((s < f.limit) × (f.chunk s ≡ take n ds) × (take n ds ≢ []) × IsPending f n (suc s) rs)

  added-IsSending :
      (f : Upload) (i : RcopyInfo) (packet : List ℕ)
      → IsSending f i
      → window_open i.window ≡ true
      → i.window.current < f.limit
      → IsSendable f packet
      → IsSending f (record i {
        window = window_add i.window i.window.current packet (length packet);
        retry_count = 0;
        sent = i.sent ++ ((i.server, packet) ∷ []);
      })
  added-IsSending f i packet h o lt ok =
      let a = window_add-IsWindow i.window packet (length packet) h.sound o in
      let w = window_add i.window i.window.current packet (length packet) in
      record {
        sound = a.0;
        room = omega (arith, a.3, h.room);
        from_first = omega (arith, a.1, h.from_first);
        within = omega (arith, a.1);
        small = h.small;
        held = λ s e q. elim (added_entry i.window packet s e h.sound o q) [
          | inl old ↦ h.held s e old
          | inr new ↦ rw new ok
        ];
        sendable = All-append (λ q. IsSendable f q.1) i.sent _ h.sendable (ok, tt);
      }

  pub send_one-IsSending :
      (f : Upload) (i : RcopyInfo) (d : List ℕ)
      → IsSending f i
      → window_open i.window ≡ true
      → i.window.current < f.limit
      → f.chunk i.window.current ≡ d
      → length d ≤ srej_max_data
      → IsSending f (send_one i d)
  unfolding send_one
  send_one-IsSending f i d h o lt e le = controls-IsSending f _ (
      added-IsSending f i (make_packet i.window.current flag_data d (length d)) h o lt
        (data_packet-IsSendable f i.window.current d h.from_first lt (omega (arith, h.room)) e le))

  -- What else a round leaves.
  pub send_one_fields :
      (f : Upload) (i : RcopyInfo) (d : List ℕ)
      → IsSending f i
      → window_open i.window ≡ true
      → i.window.current < f.limit
      → f.chunk i.window.current ≡ d
      → length d ≤ srej_max_data
      → let j = send_one i d in
        (j.window.current ≡ i.window.current + 1)
        × (j.buffer_size ≡ i.buffer_size)
        × (j.file_done ≡ i.file_done)
        × (j.had_error ≡ i.had_error)
        × (j.reads ≡ i.reads)
  unfolding send_one
  send_one_fields f i d h o lt e le =
      let packet = make_packet i.window.current flag_data d (length d) in
      let a = window_add-IsWindow i.window packet (length packet) h.sound o in
      let k : RcopyInfo = record i {
        window = window_add i.window i.window.current packet (length packet);
        retry_count = 0;
        sent = i.sent ++ ((i.server, packet) ∷ []);
      } in
      let g = process_controls-Heard k a.0 (omega (arith, a.1, a.3, h.room)) in
      (g.current_kept ∙ a.1, g.rest_kept.0, g.rest_kept.1, g.rest_kept.2, g.rest_kept.3)

  pub with_reads :
      (f : Upload) (i : RcopyInfo) (rs : List Read) (fd err : ℕ)
      → IsSending f i
      → IsSending f (record i { reads = rs; file_done = fd; had_error = err })
  with_reads f i rs fd err h = record {
    sound = h.sound;
    room = h.room;
    from_first = h.from_first;
    within = h.within;
    small = h.small;
    held = h.held;
    sendable = h.sendable;
  }

  pub after_data-eq : (i : RcopyInfo) → (after_data i).0 ≡ i
  unfolding after_data
  after_data-eq i = ground arith
