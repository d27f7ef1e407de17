-- ===== src/Rcopy/Greeting.antt =====
-- udpCode_spring26_v3/rcopy.c: what `send_filename_packet` takes of the events.
use cpe_networking_rejective.Prelude.{
  ℕ, zero, suc, ◌≤◌, ◌≡◌, refl, ◌∙◌, inl, inr, List, [], ◌∷◌, arith, Bool-cases, length,
}
use cpe_networking_rejective.Checksum.{Checksum}
use cpe_networking_rejective.Net.{Event, received}
use cpe_networking_rejective.Packet.{flag_filename_resp}
use cpe_networking_rejective.Rcopy.{
  RcopyInfo, max_tries, safe_sendto, poll_call, is_reply, filename_from, send_filename_packet,
}
use cpe_networking_rejective.Rcopy.Handshake.{polled, Event-cases}
use cpe_networking_rejective.Rcopy.Setup.{
  accepts, filename_timeout, filename_noise, filename_refused, filename_accepted,
  filename_from_zero,
}
use cpe_networking_rejective.Rcopy.Pace.{SameCounts}

module _ ⦃ck : Checksum⦄ where
  pub polled-pace :
      (i : RcopyInfo) (packet : List ℕ)
      → SameCounts i (polled i packet) × (length (polled i packet).events ≤ length i.events)
  unfolding poll_call
  polled-pace i packet = go i.events refl
    where
      go :
          (es : List Event)
          → i.events ≡ es
          → SameCounts i (polled i packet) × (length (polled i packet).events ≤ length i.events)
      go [] e = ground (arith, e)
      go (x ∷ xs) e = ground (arith, e)

  pub filename_from-pace :
      (left : ℕ) (i : RcopyInfo) (packet : List ℕ)
      → let j = (filename_from left i packet).0 in
        SameCounts i j × (length j.events ≤ length i.events)
  filename_from-pace zero i packet =
      rw (filename_from_zero i packet) ((refl, refl, refl), omega arith)
  filename_from-pace (suc left) i packet =
      let j = polled i packet in
      let t = polled-pace i packet in
      elim (Event-cases (poll_call (safe_sendto i packet)).0) [
        | inl quiet ↦
            let h = filename_from-pace left j packet in
            rw (filename_timeout left i packet quiet)
              ((h.0.0 ∙ t.0.0, h.0.1 ∙ t.0.1, h.0.2 ∙ t.0.2), omega (arith, h.1, t.1))
        | inr (from, data_in, e) ↦
            let k : RcopyInfo = record j { server = from } in
            elim (Bool-cases (is_reply flag_filename_resp (received data_in))) [
              | inr noise ↦
                  let h = filename_from-pace left k packet in
                  rw (filename_noise left i packet from data_in e noise)
                    ((h.0.0 ∙ t.0.0, h.0.1 ∙ t.0.1, h.0.2 ∙ t.0.2), omega (arith, h.1, t.1))
              | inl reply ↦ elim (Bool-cases (accepts (received data_in))) [
                | inr refused ↦ rw (filename_refused left i packet from data_in e reply refused) t
                | inl accepted ↦
                    rw (filename_accepted left i packet from data_in e reply accepted) t
              ]
            ]
      ]

  pub send_filename_packet-pace :
      (out_name : List ℕ) (i : RcopyInfo)
      → let j = (send_filename_packet out_name i).0 in
        SameCounts i j × (length j.events ≤ length i.events)
  unfolding send_filename_packet
  send_filename_packet-pace out_name i = filename_from-pace max_tries i _
