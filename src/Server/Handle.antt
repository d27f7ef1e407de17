-- ===== src/Server/Handle.antt =====
-- udpCode_spring26_v3/server.c: the branches of `handle_data_packet`, and what they leave alone.
use cpe_networking_rejective.Prelude.{
  ℕ, ◌+◌, ◌-◌, ◌≤◌, ◌<◌, ◌≡◌, refl, ap, ◌⊎◌, true, false, Option, none, some, List, arith,
  if◌then◌else◌, length, drop,
}
use cpe_networking_rejective.Checksum.{Checksum}
use cpe_networking_rejective.Packet.{srej_header_len, get_seq}
use cpe_networking_rejective.Buffer.{
  Buffer, buffer_has, data_at, buffer_expected, buffer_in_window, buffer_save, buffer_write_ready,
  buffer_need_reject, buffer_clear_reject, buffer_has_later,
}
use cpe_networking_rejective.Server.{
  ServerInfo, System, send_rr, send_reject, request_missing, acknowledge, handle_data_packet,
  with_buffer,
}
use cpe_networking_rejective.Server.Delivery.{IsDelivering, save_fields}
use cpe_networking_rejective.Upload.{RefusesPiece, Upload}

-- The reject bookkeeping does not touch what is delivered.
pub IsDelivering-missing :
    (f : Upload) (b : Buffer) (m a : ℕ)
    → IsDelivering f b
    → IsDelivering f (record b { missing_seq = m; missing_active = a })
unfolding buffer_has data_at
IsDelivering-missing f b m a d = record {
  array = record { pos = d.array.pos; len = d.array.len };
  room = d.room;
  taken = d.taken;
  expects = d.expects;
  within = d.within;
  output = d.output;
  ahead = d.ahead;
  genuine = d.genuine;
}

-- `b` with some reject bookkeeping.
abbrev pub SameData : Buffer → Buffer → Type 0
SameData b c = (m : ℕ) × (a : ℕ) × (c ≡ record b { missing_seq = m; missing_active = a })

pub clear_reject-SameData : (b : Buffer) (s : ℕ) → SameData b (buffer_clear_reject b s)
unfolding buffer_clear_reject
clear_reject-SameData b s = (b.missing_seq, (buffer_clear_reject b s).missing_active, ground arith)

pub need_reject-SameData : (b : Buffer) → SameData b (buffer_need_reject b).0
unfolding buffer_need_reject
need_reject-SameData b =
    ((buffer_need_reject b).0.missing_seq, (buffer_need_reject b).0.missing_active, ground arith)

module _ ⦃ck : Checksum⦄ where
  pub buffer-send_rr : (info : ServerInfo) → (send_rr info).buffer ≡ info.buffer
  unfolding send_rr
  buffer-send_rr info = refl

  pub buffer-request_missing :
      (info : ServerInfo) → (request_missing info).buffer ≡ (buffer_need_reject info.buffer).0
  unfolding request_missing send_reject
  buffer-request_missing info = ground arith

  pub buffer-acknowledge :
      (info : ServerInfo) (b : Buffer)
      → (acknowledge info b).buffer ≡ (if buffer_has_later b then (buffer_need_reject b).0 else b)
  unfolding acknowledge
  buffer-acknowledge info b = ground (
    arith,
    buffer-send_rr (with_buffer info b),
    ap buffer_has_later (buffer-send_rr (with_buffer info b)),
    ap (λ c. (buffer_need_reject c).0) (buffer-send_rr (with_buffer info b)),
    buffer-request_missing (send_rr (with_buffer info b)),
  )

  -- What handling a data packet leaves: a failed `write` and no process, or a server that goes on
  -- delivering and has not gone back.
  abbrev pub Continues : System → Upload → ServerInfo → Option ServerInfo → Type 0
  Continues os f info r =
      ((r ≡ none) × RefusesPiece os.write f)
      ⊎ ((info' : ServerInfo) × (r ≡ some info')
          × IsDelivering f info'.buffer
          × (info.buffer.expected ≤ info'.buffer.expected))

module _ ⦃ck : Checksum⦄ (os : System) (info : ServerInfo) (packet : List ℕ) where
  abbrev pub saved : Buffer
  saved =
      buffer_save info.buffer (get_seq packet) (drop srej_header_len packet)
        (length packet - srej_header_len)

  -- The branches of `handle_data_packet`.
  pub handle_old :
      get_seq packet < info.buffer.expected
      → handle_data_packet os info packet ≡ some (send_rr info)
  unfolding handle_data_packet buffer_expected
  handle_old h = ground arith

  pub handle_beyond :
      buffer_in_window info.buffer (get_seq packet) ≡ false
      → handle_data_packet os info packet ≡ some (send_rr info)
  unfolding handle_data_packet
  handle_beyond h = ground arith

  pub handle_ahead :
      info.buffer.expected < get_seq packet
      → buffer_in_window info.buffer (get_seq packet) ≡ true
      → handle_data_packet os info packet ≡ some (request_missing (with_buffer info saved))
  unfolding handle_data_packet buffer_expected
  handle_ahead h k = ground (
    arith,
    save_fields info.buffer (get_seq packet) (drop srej_header_len packet)
        (length packet - srej_header_len),
  )

  pub handle_expected :
      (r : Option Buffer)
      → get_seq packet ≡ info.buffer.expected
      → buffer_in_window info.buffer (get_seq packet) ≡ true
      → buffer_write_ready os.write (buffer_clear_reject saved (get_seq packet)) ≡ r
      → handle_data_packet os info packet
        ≡ (elim r [ none ↦ none | some b ↦ some (acknowledge info b) ])
  unfolding handle_data_packet buffer_expected
  handle_expected r h k e = ground (
    arith,
    e,
    save_fields info.buffer (get_seq packet) (drop srej_header_len packet)
        (length packet - srej_header_len),
  )

pub SameData-IsDelivering :
    (f : Upload) (b c : Buffer)
    → SameData b c
    → IsDelivering f b
    → IsDelivering f c × (c.expected ≡ b.expected)
SameData-IsDelivering f b c (m, a, e) d =
    (rw e (IsDelivering-missing f b m a d), ap (λ (x : Buffer). x.expected) e)

pub in_window_lem :
    (f : Upload) (b : Buffer) (s : ℕ)
    → IsDelivering f b
    → buffer_in_window b s ≡ true
    → (b.expected ≤ s) × (s < b.expected + b.size)
unfolding buffer_in_window
in_window_lem f b s d h = ground (arith, d.room, d.within)
