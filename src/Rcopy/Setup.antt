-- ===== src/Rcopy/Setup.antt =====
-- rcopy.c: `send_filename_packet` and `filename_state`.
use cpe_networking_rejective.Prelude.{
  ℕ, zero, suc, ◌+◌, ◌≤◌, ◌≡◌, refl, inl, inr, Bool, true, false, not, ◌||◌, List, arith, ltb, ◌==◌,
  if◌then◌else◌, Bool-cases, length, get_or, u32,
}
use cpe_networking_rejective.Checksum.{Checksum}
use cpe_networking_rejective.Net.{timeout, arrives, received}
use cpe_networking_rejective.Upload.{Upload}
use cpe_networking_rejective.Packet.{
  srej_header_len, srej_max_name, flag_filename, flag_filename_resp,
}
use cpe_networking_rejective.Rcopy.{
  RcopyInfo, max_tries, safe_sendto, poll_call, is_reply, filename_from, send_filename_packet,
}
use cpe_networking_rejective.Rcopy.Handshake.{
  AllSendable, Kept, Kept-trans, tried, tried-AllSendable, polled, Event-cases,
  control_packet-IsSendable,
}
use cpe_networking_rejective.Rcopy.Sending.{IsSendable}

-- The response says that the server could open its file.
abbrev pub accepts : List ℕ → Bool
accepts packet =
    if ltb (length packet) (srej_header_len + 1) || not (get_or packet srej_header_len 0 == 0)
    then false
    else true

module _ ⦃ck : Checksum⦄ where
  pub filename_timeout :
      (left : ℕ) (i : RcopyInfo) (packet : List ℕ)
      → (poll_call (safe_sendto i packet)).0 ≡ timeout
      → filename_from (suc left) i packet ≡ filename_from left (polled i packet) packet
  unfolding filename_from
  filename_timeout left i packet h = ground (arith, h)

  pub filename_noise :
      (left : ℕ) (i : RcopyInfo) (packet : List ℕ) (from : ℕ) (bytes : List ℕ)
      → (poll_call (safe_sendto i packet)).0 ≡ arrives from bytes
      → is_reply flag_filename_resp (received bytes) ≡ false
      → filename_from (suc left) i packet
        ≡ filename_from left (record (polled i packet) { server = from }) packet
  unfolding filename_from
  filename_noise left i packet from bytes h k = ground (arith, h, k)

  pub filename_refused :
      (left : ℕ) (i : RcopyInfo) (packet : List ℕ) (from : ℕ) (bytes : List ℕ)
      → (poll_call (safe_sendto i packet)).0 ≡ arrives from bytes
      → is_reply flag_filename_resp (received bytes) ≡ true
      → accepts (received bytes) ≡ false
      → filename_from (suc left) i packet ≡ (record (polled i packet) { server = from }, false)
  unfolding filename_from
  filename_refused left i packet from bytes h k a = ground (arith, h, k, a)

  pub filename_accepted :
      (left : ℕ) (i : RcopyInfo) (packet : List ℕ) (from : ℕ) (bytes : List ℕ)
      → (poll_call (safe_sendto i packet)).0 ≡ arrives from bytes
      → is_reply flag_filename_resp (received bytes) ≡ true
      → accepts (received bytes) ≡ true
      → filename_from (suc left) i packet ≡ (
        record (polled i packet) {
          server = from;
          control_seq = u32 ((polled i packet).control_seq + 1);
        },
        true,
      )
  unfolding filename_from
  filename_accepted left i packet from bytes h k a = ground (arith, h, k, a)

  -- How the setup comes out: the control number is used up exactly if it is accepted.
  pub record Asked (f : Upload) (i : RcopyInfo) (r : RcopyInfo × Bool) : Type 0 where
    pub kept : Kept i r.0
    pub sendable : AllSendable f r.0
    pub number : r.0.control_seq ≡ (if r.1 then u32 (i.control_seq + 1) else i.control_seq)

  Asked-after :
      (f : Upload) (i : RcopyInfo) (packet : List ℕ) (from : ℕ) (r : RcopyInfo × Bool)
      → Asked f (record (polled i packet) { server = from }) r
      → Asked f i r
  Asked-after f i packet from r c =
      let t = tried i packet in
      record {
        kept = Kept-trans t.0 (record {
          window = c.kept.window;
          window_size = c.kept.window_size;
          buffer_size = c.kept.buffer_size;
          file_done = c.kept.file_done;
          reads = c.kept.reads;
        });
        sendable = c.sendable;
        number = ground (arith, c.number, t.3);
      }

  nothing-Asked : (f : Upload) (i : RcopyInfo) → AllSendable f i → Asked f i (i, false)
  nothing-Asked f i h = record {
    kept = record {
      window = refl;
      window_size = refl;
      buffer_size = refl;
      file_done = refl;
      reads = refl;
    };
    sendable = h;
    number = refl;
  }

  pub filename_from_zero : (i : RcopyInfo) (packet : List ℕ) → filename_from 0 i packet ≡ (i, false)
  unfolding filename_from
  filename_from_zero i packet = refl

  filename_from-Asked :
      (left : ℕ) (f : Upload) (i : RcopyInfo) (packet : List ℕ)
      → AllSendable f i
      → IsSendable f packet
      → Asked f i (filename_from left i packet)
  filename_from-Asked zero f i packet h ok = rw (filename_from_zero i packet) (nothing-Asked f i h)
  filename_from-Asked (suc left) f i packet h ok =
      let j = polled i packet in
      let h' = tried-AllSendable f i packet h ok in
      elim (Event-cases (poll_call (safe_sendto i packet)).0) [
        | inl quiet ↦
            rw (filename_timeout left i packet quiet)
              (Asked-after f i packet j.server _ (filename_from-Asked left f j packet h' ok))
        | inr (from, bytes, e) ↦
            let k : RcopyInfo = record j { server = from } in
            elim (Bool-cases (is_reply flag_filename_resp (received bytes))) [
              | inr noise ↦
                  rw (filename_noise left i packet from bytes e noise)
                    (Asked-after f i packet from _ (filename_from-Asked left f k packet h' ok))
              | inl reply ↦ elim (Bool-cases (accepts (received bytes))) [
                | inr refused ↦
                    rw (filename_refused left i packet from bytes e reply refused)
                      (Asked-after f i packet from _ (nothing-Asked f k h'))
                | inl accepted ↦ rw (filename_accepted left i packet from bytes e reply accepted) (
                    Asked-after f i packet from _ (record {
                      kept = record {
                        window = refl;
                        window_size = refl;
                        buffer_size = refl;
                        file_done = refl;
                        reads = refl;
                      };
                      sendable = h';
                      number = refl;
                    }))
              ]
            ]
      ]

  pub send_filename_packet-Asked :
      (f : Upload) (out_name : List ℕ) (i : RcopyInfo)
      → AllSendable f i
      → length out_name ≤ srej_max_name
      → Asked f i (send_filename_packet out_name i)
  unfolding send_filename_packet
  send_filename_packet-Asked f out_name i h le = filename_from-Asked max_tries f i _ h (
      control_packet-IsSendable f _ flag_filename _ (length out_name + 1 + 8) (omega arith)
        (omega arith))
