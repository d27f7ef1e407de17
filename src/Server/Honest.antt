-- ===== src/Server/Honest.antt =====
-- server.c: no RR claims more than what the output file has.
use cpe_networking_rejective.Prelude.{
  ℕ, ◌+◌, ◌-◌, ◌^◌, ◌≤◌, ◌<◌, ◌≡◌, refl, sym, subst, ap, ◌∙◌, ◌≢◌, inl, inr, true, Option, none,
  some, List, [], arith, dec_lt, ℕ_discrete, Bool-cases, length, drop, All, All-append, All-imp,
  u32,
}
use cpe_networking_rejective.Checksum.{Checksum}
use cpe_networking_rejective.Upload.{RrLe}
use cpe_networking_rejective.Packet.{
  srej_max_data, srej_max_packet, srej_header_len, flag_rr, flag_srej, flag_eof_ack, write_u32,
  read_u32, get_seq, get_flag, make_packet, check_packet,
}
use cpe_networking_rejective.Packet.Fields.{read_u32-write_u32}
use cpe_networking_rejective.Packet.RoundTrip.{
  get_flag-make_packet, drop-make_packet, length_bounds,
}
use cpe_networking_rejective.Buffer.{
  Buffer, buffer_expected, buffer_in_window, buffer_has_later, buffer_need_reject,
  buffer_clear_reject, buffer_write_ready,
}
use cpe_networking_rejective.Server.{
  ServerInfo, with_buffer, send_control, send_rr, send_reject, resend_last_ack, send_eof_ack,
  handle_eof_packet, request_missing, acknowledge, handle_data_packet, System,
}
use cpe_networking_rejective.Server.Delivery.{save_fields}
use cpe_networking_rejective.Server.Handle.{
  saved, handle_old, handle_beyond, handle_ahead, handle_expected, buffer-acknowledge,
  need_reject-SameData,
}

module _ ⦃ck : Checksum⦄ where
  -- A packet that can be received whole and is, if it is an intact RR, for at most `top`.
  abbrev pub Claims : ℕ → List ℕ → Type 0
  Claims top packet = RrLe top packet × (length packet ≤ srej_max_packet)

  -- Not an RR, or a damaged one.
  abbrev pub NotRr : List ℕ → Type 0
  NotRr packet =
      (check_packet packet ≡ true → get_flag packet ≢ flag_rr) × (length packet ≤ srej_max_packet)

  abbrev pub IsHonest : ServerInfo → Type 0
  IsHonest info = All (λ q. Claims info.buffer.expected q.1) info.sent × NotRr info.last_ack

  pub NotRr-make_packet :
      (seq flag : ℕ) (payload : List ℕ) (n : ℕ)
      → flag ≢ flag_rr
      → n ≤ srej_max_data
      → NotRr (make_packet seq flag payload n)
  NotRr-make_packet seq flag payload n ne le = (
    λ good e. ne (sym (get_flag-make_packet seq flag payload n) ∙ e),
    omega (arith, length_bounds seq flag payload n),
  )

  rr_packet-Claims :
      (seq top : ℕ) → top < 2 ^ 32 → Claims top (make_packet seq flag_rr (write_u32 top) 4)
  unfolding write_u32
  rr_packet-Claims seq top small =
      let body = drop-make_packet seq flag_rr (write_u32 top) 4 in
      (
        λ good e. omega (arith, ap read_u32 body, read_u32-write_u32 top [] small),
        omega (arith, length_bounds seq flag_rr (write_u32 top) 4),
      )

  -- Sending a packet that makes no false claim.
  pub send_control-IsHonest :
      (info : ServerInfo) (flag : ℕ) (payload : List ℕ) (n : ℕ)
      → Claims info.buffer.expected (make_packet info.control_seq flag payload n)
      → IsHonest info
      → IsHonest (send_control info flag payload n)
  send_control-IsHonest info flag payload n ok h =
      (All-append (λ q. Claims info.buffer.expected q.1) info.sent _ h.0 (ok, tt), h.1)

  send_rr-IsHonest :
      (info : ServerInfo) → info.buffer.expected < 2 ^ 32 → IsHonest info → IsHonest (send_rr info)
  unfolding send_rr buffer_expected
  send_rr-IsHonest info small h =
      send_control-IsHonest info flag_rr (write_u32 info.buffer.expected) 4
        (rr_packet-Claims info.control_seq info.buffer.expected small) h

  send_reject-IsHonest :
      (info : ServerInfo) (seq : ℕ) → IsHonest info → IsHonest (send_reject info seq)
  unfolding send_reject
  send_reject-IsHonest info seq h =
      let other =
        NotRr-make_packet info.control_seq flag_srej (write_u32 seq) 4 (omega arith)
          (omega arith) in
      send_control-IsHonest info flag_srej (write_u32 seq) 4
        (λ good e. absurd (other.0 good e), other.1) h

  pub with_buffer-IsHonest :
      (info : ServerInfo) (b : Buffer)
      → info.buffer.expected ≤ b.expected
      → IsHonest info
      → IsHonest (with_buffer info b)
  with_buffer-IsHonest info b le h = (
    All-imp (λ q. Claims info.buffer.expected q.1) (λ q. Claims b.expected q.1)
        (λ q ok. (λ good e. omega (arith, ok.0 good e, le), ok.1)) info.sent h.0,
    h.1,
  )

  expected-need_reject : (b : Buffer) → (buffer_need_reject b).0.expected ≡ b.expected
  expected-need_reject b =
      let (m, a, e) = need_reject-SameData b in ap (λ (x : Buffer). x.expected) e

  request_missing-IsHonest : (info : ServerInfo) → IsHonest info → IsHonest (request_missing info)
  unfolding request_missing
  request_missing-IsHonest info h =
      let b = (buffer_need_reject info.buffer).0 in
      let asked = with_buffer-IsHonest info b (omega (arith, expected-need_reject info.buffer)) h in
      elim (Bool-cases (buffer_need_reject info.buffer).1) [
        | inl need ↦ rw need (send_reject-IsHonest (with_buffer info b) (buffer_expected b) asked)
        | inr no_need ↦ rw no_need asked
      ]

  acknowledge-IsHonest :
      (info : ServerInfo) (b : Buffer)
      → info.buffer.expected ≤ b.expected
      → b.expected < 2 ^ 32
      → IsHonest info
      → IsHonest (acknowledge info b)
  unfolding acknowledge
  acknowledge-IsHonest info b le small h =
      let acked = send_rr-IsHonest (with_buffer info b) small (with_buffer-IsHonest info b le h) in
      elim (Bool-cases (buffer_has_later (send_rr (with_buffer info b)).buffer)) [
        | inl later ↦ rw later (request_missing-IsHonest (send_rr (with_buffer info b)) acked)
        | inr none_later ↦ rw none_later acked
      ]

  pub expected-acknowledge :
      (info : ServerInfo) (b : Buffer) → (acknowledge info b).buffer.expected ≡ b.expected
  expected-acknowledge info b =
      let e = buffer-acknowledge info b in
      elim (Bool-cases (buffer_has_later b)) [
        | inl later ↦
            let same : (acknowledge info b).buffer ≡ (buffer_need_reject b).0 = ground (arith, e) in
            ap (λ (x : Buffer). x.expected) same ∙ expected-need_reject b
        | inr none_later ↦
            let same : (acknowledge info b).buffer ≡ b = ground (arith, e) in
            ap (λ (x : Buffer). x.expected) same
      ]

  same_info : (i j : ServerInfo) → some i ≡ some j → IsHonest i → IsHonest j
  same_info i j e h = let same : i ≡ j = ground (arith, e) in subst IsHonest same h

  module _ (os : System) (info i : ServerInfo) (packet : List ℕ) where
    written-IsHonest :
        (r : Option Buffer)
        → (elim r [ none ↦ none | some b ↦ some (acknowledge info b) ]) ≡ some i
        → info.buffer.expected ≤ i.buffer.expected
        → i.buffer.expected < 2 ^ 32
        → IsHonest info
        → IsHonest i
    written-IsHonest none e le small h = cc
    written-IsHonest (some b) e le small h =
        let same : acknowledge info b ≡ i = ground (arith, e) in
        let up = ap (λ (x : ServerInfo). x.buffer.expected) same in
        let at = expected-acknowledge info b in
        subst IsHonest same
          (acknowledge-IsHonest info b (omega (arith, le, up, at)) (omega (arith, small, up, at)) h)

    pub handle_data_packet-IsHonest :
        handle_data_packet os info packet ≡ some i
        → info.buffer.expected ≤ i.buffer.expected
        → i.buffer.expected < 2 ^ 32
        → IsHonest info
        → IsHonest i
    handle_data_packet-IsHonest e le small h =
        let low : info.buffer.expected < 2 ^ 32 = omega (arith, le, small) in
        elim (dec_lt (get_seq packet) info.buffer.expected) [
          | yes old ↦
              same_info (send_rr info) i (sym (handle_old os info packet old) ∙ e)
                (send_rr-IsHonest info low h)
          | no fresh ↦ elim (Bool-cases (buffer_in_window info.buffer (get_seq packet))) [
            | inr outside ↦
                same_info (send_rr info) i (sym (handle_beyond os info packet outside) ∙ e)
                  (send_rr-IsHonest info low h)
            | inl inside ↦ elim (ℕ_discrete (get_seq packet) info.buffer.expected) [
              | yes at ↦
                  written-IsHonest
                    (buffer_write_ready os.write
                      (buffer_clear_reject (saved os info packet) (get_seq packet)))
                    (sym (handle_expected os info packet _ at inside refl) ∙ e) le small h
              | no ne ↦
                  let b = saved os info packet in
                  let k =
                    save_fields info.buffer (get_seq packet) (drop srej_header_len packet)
                      (length packet - srej_header_len) in
                  same_info (request_missing (with_buffer info b)) i
                    (sym (handle_ahead os info packet (omega arith) inside) ∙ e)
                    (request_missing-IsHonest (with_buffer info b)
                      (with_buffer-IsHonest info b (omega (arith, k.0)) h))
            ]
          ]
        ]

  pub resend_last_ack-IsHonest :
      (info : ServerInfo) → IsHonest info → IsHonest (resend_last_ack info)
  unfolding resend_last_ack
  resend_last_ack-IsHonest info h = (
    All-append (λ q. Claims info.buffer.expected q.1) info.sent _ h.0
        ((λ good e. absurd (h.1.0 good e), h.1.1), tt),
    h.1,
  )

  pub handle_eof_packet-IsHonest :
      (info : ServerInfo) → IsHonest info → IsHonest (handle_eof_packet info)
  unfolding handle_eof_packet send_eof_ack
  handle_eof_packet-IsHonest info h =
      resend_last_ack-IsHonest
        (record info {
          last_ack = make_packet info.control_seq flag_eof_ack [] 0;
          control_seq = u32 (info.control_seq + 1);
          retry_count = 0;
        })
        (h.0, NotRr-make_packet info.control_seq flag_eof_ack [] 0 (omega arith) (omega arith))
