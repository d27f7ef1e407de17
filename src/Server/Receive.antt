-- ===== src/Server/Receive.antt =====
-- server.c: `handle_data_packet`, `recv_data_state` and the receiving loop keep the delivery going.
use cpe_networking_rejective.Prelude.{
  ℕ, ◌-◌, ◌≤◌, ◌<◌, ◌≡◌, refl, sym, subst, ap, ◌∙◌, inl, inr, true, Option, none, some, List, arith,
  dec_lt, ℕ_discrete, Bool-cases, length, drop, length-drop,
}
use cpe_networking_rejective.Checksum.{Checksum}
use cpe_networking_rejective.Packet.{srej_header_len, get_seq}
use cpe_networking_rejective.Buffer.{
  Buffer, buffer_in_window, buffer_write_ready, buffer_need_reject, buffer_clear_reject,
  buffer_has_later,
}
use cpe_networking_rejective.Server.{
  ServerInfo, System, send_rr, request_missing, acknowledge, handle_data_packet, with_buffer,
}
use cpe_networking_rejective.Buffer.Ready.{Wrote, IsFull, Ends, buffer_write_ready-Ends}
use cpe_networking_rejective.Server.Delivery.{
  IsDelivering, save_fields, buffer_save-IsDelivering, Wrote-IsDelivering, Fails-RefusesPiece,
}
use cpe_networking_rejective.Upload.{Upload}
use cpe_networking_rejective.Server.Handle.{
  clear_reject-SameData, need_reject-SameData, buffer-send_rr, buffer-request_missing,
  buffer-acknowledge, Continues, saved, handle_old, handle_beyond, handle_ahead, handle_expected,
  SameData-IsDelivering, in_window_lem,
}

module _ ⦃ck : Checksum⦄ (os : System) (full : IsFull os.write) (f : Upload) (info : ServerInfo)
    (packet : List ℕ) (d : IsDelivering f info.buffer) where
  unchanged : Continues os f info (some (send_rr info))
  unchanged =
      inr (send_rr info, refl, rw (buffer-send_rr info) d, rw (buffer-send_rr info) (omega arith))

  module _ (long : srej_header_len ≤ length packet) (small : get_seq packet < f.limit)
      (genuine : drop srej_header_len packet ≡ f.chunk (get_seq packet))
      (inside : buffer_in_window info.buffer (get_seq packet) ≡ true) where
    pub saved-IsDelivering : IsDelivering f (saved os info packet)
    saved-IsDelivering =
        let w = in_window_lem f info.buffer (get_seq packet) d inside in
        let n : length packet - srej_header_len ≡ length (drop srej_header_len packet) =
          sym (length-drop srej_header_len packet) in
        rw n (
          buffer_save-IsDelivering f info.buffer (get_seq packet) (drop srej_header_len packet) d
            w.0 w.1 small genuine)

    saved-expected : (saved os info packet).expected ≡ info.buffer.expected
    saved-expected =
        (save_fields info.buffer (get_seq packet) (drop srej_header_len packet)
          (length packet - srej_header_len)).0

    ask_again :
        Continues os f info (some (request_missing (with_buffer info (saved os info packet))))
    ask_again =
        let b = saved os info packet in
        let i = request_missing (with_buffer info b) in
        let q =
          SameData-IsDelivering f b (buffer_need_reject b).0 (need_reject-SameData b)
            saved-IsDelivering in
        let e = buffer-request_missing (with_buffer info b) in
        inr
          (i, refl, rw e q.0, omega (arith, ap (λ (x : Buffer). x.expected) e, q.1, saved-expected))

    ready : Buffer
    ready = buffer_clear_reject (saved os info packet) (get_seq packet)

    ready-IsDelivering : IsDelivering f ready × (ready.expected ≡ info.buffer.expected)
    unfolding ready
    ready-IsDelivering =
        let b = saved os info packet in
        let q =
          SameData-IsDelivering f b ready (clear_reject-SameData b (get_seq packet))
            saved-IsDelivering in
        (q.0, q.1 ∙ saved-expected)

    acknowledge-IsDelivering :
        (b : Buffer)
        → IsDelivering f b
        → IsDelivering f (acknowledge info b).buffer
          × ((acknowledge info b).buffer.expected ≡ b.expected)
    acknowledge-IsDelivering b q =
        let e = buffer-acknowledge info b in
        let r = SameData-IsDelivering f b (buffer_need_reject b).0 (need_reject-SameData b) q in
        elim (Bool-cases (buffer_has_later b)) [
          | inl later ↦
              let e' : (acknowledge info b).buffer ≡ (buffer_need_reject b).0 = ground (arith, e) in
              (rw e' r.0, ap (λ (x : Buffer). x.expected) e' ∙ r.1)
          | inr none_later ↦
              let e' : (acknowledge info b).buffer ≡ b = ground (arith, e) in
              (rw e' q, ap (λ (x : Buffer). x.expected) e')
        ]

    acknowledged :
        (r : Option Buffer)
        → Ends os.write ready r
        → Continues os f info (elim r [ none ↦ none | some b ↦ some (acknowledge info b) ])
    acknowledged none (inl (e, failed)) =
        inl (refl, Fails-RefusesPiece os.write f ready ready-IsDelivering.0 failed)
    acknowledged none (inr (b', e, w)) = cc
    acknowledged (some b) (inl (e, failed)) = cc
    acknowledged (some b) (inr (b', e, w)) =
        let same : b' ≡ b = ground (arith, e) in
        let w' : Wrote ready b = subst (Wrote ready) same w in
        let q = acknowledge-IsDelivering b (Wrote-IsDelivering f ready b ready-IsDelivering.0 w') in
        inr (acknowledge info b, refl, q.0, omega (arith, q.1, w'.expects, ready-IsDelivering.1))

    expected_case :
        get_seq packet ≡ info.buffer.expected
        → Continues os f info (handle_data_packet os info packet)
    unfolding ready
    expected_case e =
        let q = ready-IsDelivering in
        rw (handle_expected os info packet (buffer_write_ready os.write ready) e inside refl) (
          acknowledged (buffer_write_ready os.write ready) (
            buffer_write_ready-Ends os.write full ready q.0.array
              (λ s h. omega (arith, q.0.ahead s h, q.0.room, q.0.array.pos))))

  -- When the receive buffer is delivering a file and `write` never takes part of the bytes,
  -- `handle_data_packet` on a packet of that file, be it old, expected, early or beyond the window,
  -- ends in an exit after a `write` that failed for a piece of the file, with the pieces before it
  -- in the output file, or in a state that is delivering the file and whose `expected` has not gone
  -- back.
  pub handle_data_packet-Continues :
      srej_header_len ≤ length packet
      → get_seq packet < f.limit
      → drop srej_header_len packet ≡ f.chunk (get_seq packet)
      → Continues os f info (handle_data_packet os info packet)
  handle_data_packet-Continues long small genuine =
      elim (dec_lt (get_seq packet) info.buffer.expected) [
        | yes old ↦ rw (handle_old os info packet old) unchanged
        | no fresh ↦ elim (Bool-cases (buffer_in_window info.buffer (get_seq packet))) [
          | inr outside ↦ rw (handle_beyond os info packet outside) unchanged
          | inl inside ↦ elim (ℕ_discrete (get_seq packet) info.buffer.expected) [
            | yes e ↦ expected_case long small genuine inside e
            | no ne ↦
                rw (handle_ahead os info packet (omega arith) inside)
                  (ask_again long small genuine inside)
          ]
        ]
      ]
