-- ===== src/Rcopy/WaitOnAck.antt =====
-- rcopy.c: `wait_on_ack_state`.
use cpe_networking_rejective.Prelude.{
  ℕ, ◌+◌, ◌≤◌, ◌<◌, ◌≡◌, refl, sym, ◌∙◌, inl, inr, true, false, none, some, arith, dec_lt, ltb,
  Bool-cases, Option-cases,
}
use cpe_networking_rejective.Rcopy.SendData.{IsNext, Sends}
use cpe_networking_rejective.Checksum.{Checksum}
use cpe_networking_rejective.Upload.{Upload}
use cpe_networking_rejective.Window.{WindowEntry, window_lowest}
use cpe_networking_rejective.Window.Invariant.{window_lowest_lem}
use cpe_networking_rejective.Rcopy.{
  RcopyInfo, send_data, wait_on_ack, done, resend_packet, wait_on_ack_state, process_controls,
  max_tries,
}
use cpe_networking_rejective.Rcopy.Controls.{Heard, process_controls-Heard, resend_packet-Heard}
use cpe_networking_rejective.Rcopy.Sending.{IsSending, Heard-IsSending}

module _ ⦃ck : Checksum⦄ where
  IsNext-Heard : (f : Upload) (i j : RcopyInfo) → Heard i j → IsNext f i → IsNext f j
  IsNext-Heard f i j h n = (
    λ e. rw (h.rest_kept.0, h.current_kept, h.rest_kept.3) (n.0 (sym h.rest_kept.1 ∙ e)),
    λ ne. h.current_kept ∙ n.1 (λ z. ne (h.rest_kept.1 ∙ z)),
  )

  with_retry :
      (f : Upload) (i : RcopyInfo) (n err : ℕ)
      → IsSending f i
      → IsSending f (record i { retry_count = n; had_error = err })
  with_retry f i n err h = record {
    sound = h.sound;
    room = h.room;
    from_first = h.from_first;
    within = h.within;
    small = h.small;
    held = h.held;
    sendable = h.sendable;
  }

  -- The branches of `wait_on_ack_state`.
  pub wait_answered :
      (i : RcopyInfo)
      → ltb 0 (process_controls i).1 ≡ true
      → wait_on_ack_state i ≡ (record (process_controls i).0 { retry_count = 0 }, send_data)
  unfolding wait_on_ack_state
  wait_answered i h = ground (arith, h)

  pub wait_empty :
      (i : RcopyInfo)
      → ltb 0 (process_controls i).1 ≡ false
      → window_lowest (process_controls i).0.window ≡ none
      → wait_on_ack_state i ≡ ((process_controls i).0, send_data)
  unfolding wait_on_ack_state
  wait_empty i h k = ground (arith, h, k)

  pub wait_over :
      (i : RcopyInfo) (e : WindowEntry)
      → ltb 0 (process_controls i).1 ≡ false
      → window_lowest (process_controls i).0.window ≡ some e
      → max_tries ≤ (process_controls i).0.retry_count + 1
      → wait_on_ack_state i ≡ (
        record (process_controls i).0 {
          retry_count = (process_controls i).0.retry_count + 1;
          had_error = 1;
        },
        done,
      )
  unfolding wait_on_ack_state
  wait_over i e h k t = ground (arith, h, k, t)

  pub wait_again :
      (i : RcopyInfo) (e : WindowEntry)
      → ltb 0 (process_controls i).1 ≡ false
      → window_lowest (process_controls i).0.window ≡ some e
      → (process_controls i).0.retry_count + 1 < max_tries
      → let tried : RcopyInfo = record (process_controls i).0 {
        retry_count = (process_controls i).0.retry_count + 1;
      } in
        wait_on_ack_state i ≡ (resend_packet tried e, wait_on_ack)
  unfolding wait_on_ack_state
  wait_again i e h k t = ground (arith, h, k, t)

  -- From a sender in good order, `wait_on_ack_state` leaves one, never goes to SEND_EOF unless all
  -- is read, the window empty and `current` behind the last piece, and goes to DONE only with an
  -- error.
  pub wait_on_ack_state-Sends :
      (f : Upload) (i : RcopyInfo) → IsSending f i → IsNext f i → Sends f (wait_on_ack_state i)
  wait_on_ack_state-Sends f i h n =
      let j = (process_controls i).0 in
      let g = process_controls-Heard i h.sound (omega (arith, h.room, h.within)) in
      let h' = Heard-IsSending f i j h g in
      let n' = IsNext-Heard f i j g n in
      elim (Bool-cases (ltb 0 (process_controls i).1)) [
        | inl answered ↦ rw (wait_answered i answered) (record {
          sending = with_retry f j 0 j.had_error h';
          next = λ ne. n';
          eof = λ e. cc;
          error = λ e. cc;
          later = (λ e. cc, λ e. cc);
        })
        | inr silent ↦ elim (Option-cases (window_lowest j.window)) [
          | inl empty ↦ rw (wait_empty i silent empty) (record {
            sending = h';
            next = λ ne. n';
            eof = λ e. cc;
            error = λ e. cc;
            later = (λ e. cc, λ e. cc);
          })
          | inr (e, found) ↦ elim (dec_lt (j.retry_count + 1) max_tries) [
            | no over ↦ rw (wait_over i e silent found (omega arith)) (record {
              sending = with_retry f j (j.retry_count + 1) 1 h';
              next = λ ne. absurd (ne refl);
              eof = λ e. cc;
              error = λ e. refl;
              later = (λ e. cc, λ e. cc);
            })
            | yes again ↦
                let tried : RcopyInfo = record j { retry_count = j.retry_count + 1 } in
                let at = with_retry f j (j.retry_count + 1) j.had_error h' in
                let low = sym (window_lowest_lem j.window h'.sound).0 ∙ found in
                let r = resend_packet-Heard tried j.window.lower e h'.sound low in
                rw (wait_again i e silent found again) (record {
                  sending = Heard-IsSending f tried (resend_packet tried e) at r;
                  next = λ ne. IsNext-Heard f tried (resend_packet tried e) r n';
                  eof = λ e. cc;
                  error = λ e. cc;
                  later = (λ e. cc, λ e. cc);
                })
          ]
        ]
      ]
