-- ===== src/Rcopy/Answered.antt =====
-- rcopy.c: when the teardown succeeds.
use cpe_networking_rejective.Prelude.{
  ℕ, zero, suc, ◌≡◌, refl, sym, ap, ◌∙◌, inl, inr, Bool, false, ◌||◌, List, [], ◌∷◌, arith,
  if◌then◌else◌, Bool-cases,
}
use cpe_networking_rejective.Checksum.{Checksum}
use cpe_networking_rejective.Net.{Event, timeout, arrives, received}
use cpe_networking_rejective.Packet.{flag_eof, flag_eof_ack, make_packet}
use cpe_networking_rejective.Rcopy.{
  RcopyInfo, State, max_tries, safe_sendto, poll_call, is_reply, eof_from, send_eof_state,
  send_final_done,
}
use cpe_networking_rejective.Rcopy.Handshake.{
  tried, polled, eof_timeout, eof_reply, eof_noise, Event-cases,
}

module _ ⦃ck : Checksum⦄ where
  -- An intact packet with this flag is among the next `n` events.
  abbrev pub answered : ℕ → ℕ → List Event → Bool
  answered flag zero es = false
  answered flag (suc n) [] = false
  answered flag (suc n) (timeout ∷ es) = answered flag n es
  answered flag (suc n) (arrives from bytes ∷ es) =
      is_reply flag (received bytes) || answered flag n es

  answered-nil : (flag n : ℕ) → answered flag n [] ≡ false
  answered-nil flag zero = refl
  answered-nil flag (suc n) = refl

  -- What `poll_call` brings of the events.
  abbrev first_event : List Event → Event
  first_event [] = timeout
  first_event (e ∷ es) = e

  abbrev later_events : List Event → List Event
  later_events [] = []
  later_events (e ∷ es) = es

  poll_call-events :
      (i : RcopyInfo)
      → ((poll_call i).0 ≡ first_event i.events) × ((poll_call i).1.events ≡ later_events i.events)
  unfolding poll_call
  poll_call-events i = go i.events refl
    where
      go :
          (es : List Event)
          → i.events ≡ es
          → ((poll_call i).0 ≡ first_event i.events)
            × ((poll_call i).1.events ≡ later_events i.events)
      go [] e = (ground (arith, e), ground (arith, e))
      go (x ∷ xs) e = (ground (arith, e), ground (arith, e))

  answered-timeout :
      (flag n : ℕ) (es : List Event)
      → first_event es ≡ timeout
      → answered flag (suc n) es ≡ answered flag n (later_events es)
  answered-timeout flag n [] e = sym (answered-nil flag n)
  answered-timeout flag n (timeout ∷ es) e = refl
  answered-timeout flag n (arrives from bytes ∷ es) e = cc

  answered-arrives :
      (flag n : ℕ) (es : List Event) (from : ℕ) (bytes : List ℕ)
      → first_event es ≡ arrives from bytes
      → answered flag (suc n) es
        ≡ is_reply flag (received bytes) || answered flag n (later_events es)
  answered-arrives flag n [] from bytes e = cc
  answered-arrives flag n (timeout ∷ es) from bytes e = cc
  answered-arrives flag n (arrives g ds ∷ es) from bytes e =
      let same : ds ≡ bytes = cc in ap (λ x. is_reply flag (received x) || answered flag n es) same

  had_error-send_final_done : (i : RcopyInfo) → (send_final_done i).had_error ≡ i.had_error
  unfolding send_final_done
  had_error-send_final_done i = refl

  eof_from_none : (i : RcopyInfo) (packet : List ℕ) → (eof_from 0 i packet).0.had_error ≡ 1
  unfolding eof_from
  eof_from_none i packet = refl

  had_error-eof_from :
      (left : ℕ) (i : RcopyInfo) (packet : List ℕ)
      → (eof_from left i packet).0.had_error
        ≡ (if answered flag_eof_ack left i.events then i.had_error else 1)
  had_error-eof_from zero i packet = eof_from_none i packet
  had_error-eof_from (suc left) i packet =
      let j = polled i packet in
      let p = poll_call-events (safe_sendto i packet) in
      let t = tried i packet in
      elim (Event-cases (poll_call (safe_sendto i packet)).0) [
        | inl quiet ↦ ground (
          arith,
          ap (λ (r : RcopyInfo × State). r.0.had_error) (eof_timeout left i packet quiet),
          had_error-eof_from left j packet,
          ap (answered flag_eof_ack left) p.1,
          answered-timeout flag_eof_ack left i.events (sym p.0 ∙ quiet),
          t.2,
        )
        | inr (from, bytes, e) ↦
            let k : RcopyInfo = record j { server = from } in
            let a = answered-arrives flag_eof_ack left i.events from bytes (sym p.0 ∙ e) in
            elim (Bool-cases (is_reply flag_eof_ack (received bytes))) [
              | inl reply ↦
                  ap (λ (r : RcopyInfo × State). r.0.had_error)
                    (eof_reply left i packet from bytes e reply)
                  ∙ had_error-send_final_done k
                  ∙ t.2
                  ∙ (rw (a, reply))
              | inr noise ↦
                  ap (λ (r : RcopyInfo × State). r.0.had_error)
                    (eof_noise left i packet from bytes e noise)
                  ∙ had_error-eof_from left k packet
                  ∙ rw (p.1, t.2, a, noise)
            ]
      ]

  -- `send_eof_state` leaves `had_error` as it was if an intact EOF acknowledgement is among the
  -- next ten events, a timeout counting as one, and sets it otherwise.
  pub had_error-send_eof_state :
      (i : RcopyInfo)
      → (send_eof_state i).0.had_error
        ≡ (if answered flag_eof_ack max_tries i.events then i.had_error else 1)
  unfolding send_eof_state
  had_error-send_eof_state i =
      had_error-eof_from max_tries i (make_packet i.window.current flag_eof [] 0)
