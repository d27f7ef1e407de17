-- ===== src/Server/Progress.antt =====
-- server.c: the packet that is expected gets the transfer on.
use cpe_networking_rejective.Prelude.{
  ℕ, ◌-◌, ◌≤◌, ◌<◌, ◌≡◌, refl, sym, subst, ap, ◌∙◌, ◌≢◌, inl, inr, true, Option, none, some, List,
  arith, length, drop,
}
use cpe_networking_rejective.Checksum.{Checksum}
use cpe_networking_rejective.Upload.{Upload}
use cpe_networking_rejective.Packet.{srej_header_len, get_seq}
use cpe_networking_rejective.Buffer.{
  Buffer, buffer_in_window, buffer_has, buffer_clear_reject, buffer_write_ready,
}
use cpe_networking_rejective.Buffer.Slots.{buffer_has-buffer_save}
use cpe_networking_rejective.Buffer.Ready.{IsFull, Ends, Wrote, buffer_write_ready-Ends}
use cpe_networking_rejective.Server.{ServerInfo, System, acknowledge, handle_data_packet}
use cpe_networking_rejective.Server.Delivery.{IsDelivering, save_fields}
use cpe_networking_rejective.Server.Receive.{saved-IsDelivering}
use cpe_networking_rejective.Server.Handle.{
  saved, handle_expected, SameData-IsDelivering, clear_reject-SameData,
}
use cpe_networking_rejective.Server.Honest.{expected-acknowledge}

-- The number that is expected is in the window.
in_window-expected :
    (f : Upload) (b : Buffer) → IsDelivering f b → buffer_in_window b b.expected ≡ true
unfolding buffer_in_window
in_window-expected f b d = ground (arith, d.room, d.within, d.array.pos)

buffer_has-clear_reject :
    (b : Buffer) (seq s : ℕ) → buffer_has (buffer_clear_reject b seq) s ≡ buffer_has b s
unfolding buffer_has buffer_clear_reject
buffer_has-clear_reject b seq s = ground arith

module _ ⦃ck : Checksum⦄ (os : System) (full : IsFull os.write) (f : Upload) (info : ServerInfo)
    (packet : List ℕ) (i : ServerInfo) where
  -- What is written when the expected packet is there.
  one_written :
      (ready : Buffer) (r : Option Buffer)
      → buffer_has ready ready.expected ≡ true
      → Ends os.write ready r
      → (elim r [ none ↦ none | some b ↦ some (acknowledge info b) ]) ≡ some i
      → ready.expected < i.buffer.expected
  one_written ready none had (inl (none_left, broken)) e = cc
  one_written ready none had (inr (b, q, w)) e = cc
  one_written ready (some b) had (inl (none_left, broken)) e = cc
  one_written ready (some b) had (inr (b', q, w)) e =
      let same : b' ≡ b = ground (arith, q) in
      let w' : Wrote ready b = subst (Wrote ready) same w in
      let after : acknowledge info b ≡ i = ground (arith, e) in
      let up = ap (λ (x : ServerInfo). x.buffer.expected) after in
      let ne : b.expected ≢ ready.expected = λ z. cc in
      omega (arith, up, expected-acknowledge info b, w'.expects, ne)

  -- When the receive buffer is delivering a file, `write` never takes part of the bytes, and the
  -- packet with the number `expected` of that file comes, then `handle_data_packet`, if it returns,
  -- has moved `expected` on.
  pub handle_data_packet_advances :
      IsDelivering f info.buffer
      → srej_header_len ≤ length packet
      → get_seq packet ≡ info.buffer.expected
      → get_seq packet < f.limit
      → drop srej_header_len packet ≡ f.chunk (get_seq packet)
      → handle_data_packet os info packet ≡ some i
      → info.buffer.expected < i.buffer.expected
  handle_data_packet_advances d long at small genuine e =
      let seq = get_seq packet in
      let n = length packet - srej_header_len in
      let inside : buffer_in_window info.buffer seq ≡ true =
        ap (buffer_in_window info.buffer) at ∙ in_window-expected f info.buffer d in
      let b = saved os info packet in
      let ready = buffer_clear_reject b seq in
      let k = (save_fields info.buffer seq (drop srej_header_len packet) n).0 in
      let q =
        SameData-IsDelivering f b ready (clear_reject-SameData b seq)
          (saved-IsDelivering os full f info packet d long small genuine inside) in
      let same : ready.expected ≡ seq = q.1 ∙ k ∙ sym at in
      let found =
        buffer_has-buffer_save info.buffer seq (drop srej_header_len packet) n seq d.array in
      let here : buffer_has ready seq ≡ true =
        buffer_has-clear_reject b seq seq ∙ ground (arith, found) in
      let had : buffer_has ready ready.expected ≡ true = ap (buffer_has ready) same ∙ here in
      let ends =
        buffer_write_ready-Ends os.write full ready q.0.array
          (λ s h. omega (arith, q.0.ahead s h, q.0.room, q.0.array.pos)) in
      let more = one_written ready (buffer_write_ready os.write ready) had ends (
        sym (handle_expected os info packet (buffer_write_ready os.write ready) at inside refl)
        ∙ e) in
      omega (arith, more, same, at)
