-- ===== src/Rcopy/Reported.antt =====
-- rcopy.c: the window's lower edge is never above what the server has reported.
use cpe_networking_rejective.Prelude.{
  ℕ, ◌+◌, ◌^◌, ◌≤◌, ◌<◌, ◌≡◌, sym, subst, ap, ◌∙◌, inl, inr, true, false, ◌&&◌, List, [], ◌∷◌,
  arith, dec_lt, ℕ_discrete, ltb, ◌==◌, ==_true, Bool-cases, Option-cases, length, take, drop,
  length-take,
}
use cpe_networking_rejective.Checksum.{Checksum}
use cpe_networking_rejective.Net.{Event, timeout, arrives, received}
use cpe_networking_rejective.Upload.{Upload, RrLe}
use cpe_networking_rejective.Packet.{
  srej_header_len, srej_max_data, flag_data, flag_rr, flag_srej, read_u32, get_flag, make_packet,
  check_packet,
}
use cpe_networking_rejective.Window.{WindowEntry, window_open, window_lowest}
use cpe_networking_rejective.Window.Invariant.{IsWindow, window_add-IsWindow}
use cpe_networking_rejective.Window.Release.{window_rr_lem}
use cpe_networking_rejective.Rcopy.{
  RcopyInfo, Read, bytes, failed, State, max_tries, resend_packet, handle_rr, handle_reject,
  handle_control, controls_from, process_controls, send_one, after_data, send_from, send_data_state,
  wait_on_ack_state,
}
use cpe_networking_rejective.Rcopy.Controls.{handle_control-Heard}
use cpe_networking_rejective.Rcopy.Sending.{
  IsSending, with_reads, send_one-IsSending, send_one_fields,
}
use cpe_networking_rejective.Rcopy.SendData.{
  NextIn, IsNext, send_from_end, send_from_go, List-cases, next_piece, pending,
}
use cpe_networking_rejective.Rcopy.Pace.{
  send_from_closed, send_from_nil, send_from_error, after_data-same,
}
use cpe_networking_rejective.Rcopy.WaitOnAck.{wait_answered, wait_empty, wait_over, wait_again}

module _ ⦃ck : Checksum⦄ where
  abbrev pub ReportsLe : ℕ → List Event → Type 0
  ReportsLe top [] = Unit {0}
  ReportsLe top (timeout ∷ es) = ReportsLe top es
  ReportsLe top (arrives from data_in ∷ es) = RrLe top (received data_in) × ReportsLe top es

  abbrev pub Bounded : ℕ → RcopyInfo → Type 0
  Bounded top i = (i.window.lower ≤ top) × ReportsLe top i.events

  lower-handle_rr :
      (top : ℕ) (i : RcopyInfo) (packet : List ℕ)
      → IsWindow i.window
      → i.window.current + i.window.size < 2 ^ 32
      → read_u32 (drop srej_header_len packet) ≤ top
      → i.window.lower ≤ top
      → (handle_rr i packet).window.lower ≤ top
  unfolding handle_rr
  lower-handle_rr top i packet v room le low =
      let seq = read_u32 (drop srej_header_len packet) in
      let q = window_rr_lem i.window seq v room in
      elim (Bool-cases (ltb (length packet) (srej_header_len + 4))) [
        | inl short ↦ rw short low
        | inr long ↦ rw long (omega (arith, q.1))
      ]

  window-handle_reject :
      (i : RcopyInfo) (packet : List ℕ) → (handle_reject i packet).window ≡ i.window
  unfolding handle_reject resend_packet
  window-handle_reject i packet = ground arith

  lower-handle_control :
      (top : ℕ) (i : RcopyInfo) (packet : List ℕ)
      → IsWindow i.window
      → i.window.current + i.window.size < 2 ^ 32
      → RrLe top packet
      → i.window.lower ≤ top
      → (handle_control i packet).window.lower ≤ top
  unfolding handle_control
  lower-handle_control top i packet v room le low = elim (Bool-cases (check_packet packet)) [
    | inr bad ↦ rw bad low
    | inl good ↦ elim (ℕ_discrete (get_flag packet) flag_rr) [
      | yes rr ↦
          rw (good, ==_true (get_flag packet) flag_rr rr)
            (lower-handle_rr top i packet v room (le good rr) low)
      | no other ↦
          let e : (get_flag packet == flag_rr) ≡ false = ground (arith, other) in
          elim (Bool-cases (get_flag packet == flag_srej)) [
            | inl srej ↦ rw (good, e, srej, ap (λ w. w.lower) (window-handle_reject i packet)) low
            | inr none_of_them ↦ rw (good, e, none_of_them) low
          ]
    ]
  ]

  controls_from-Bounded :
      (es : List Event) (top : ℕ) (i : RcopyInfo) (count : ℕ)
      → IsWindow i.window
      → i.window.current + i.window.size < 2 ^ 32
      → i.window.lower ≤ top
      → ReportsLe top es
      → Bounded top (controls_from es i count).0
  unfolding controls_from
  controls_from-Bounded [] top i count v room low le = (low, tt)
  controls_from-Bounded (timeout ∷ es) top i count v room low le = (low, le)
  controls_from-Bounded (arrives from data_in ∷ es) top i count v room low le =
      let packet = received data_in in
      let at : RcopyInfo = record i { server = from } in
      let h = handle_control-Heard at packet v room in
      controls_from-Bounded es top (handle_control at packet) _ h.sound
        (omega (arith, h.current_kept, h.size_kept, room))
        (lower-handle_control top at packet v room le.0 low) le.1

  process_controls-Bounded :
      (top : ℕ) (i : RcopyInfo)
      → IsWindow i.window
      → i.window.current + i.window.size < 2 ^ 32
      → Bounded top i
      → Bounded top (process_controls i).0
  unfolding process_controls
  process_controls-Bounded top i v room b = controls_from-Bounded i.events top i 0 v room b.0 b.1

  send_one-Bounded :
      (top : ℕ) (f : Upload) (i : RcopyInfo) (d : List ℕ)
      → IsSending f i
      → window_open i.window ≡ true
      → i.window.current < f.limit
      → Bounded top i
      → Bounded top (send_one i d)
  unfolding send_one
  send_one-Bounded top f i d h o lt b =
      let packet = make_packet i.window.current flag_data d (length d) in
      let a = window_add-IsWindow i.window packet (length packet) h.sound o in
      process_controls-Bounded top _ a.0 (omega (arith, a.1, a.3, h.room))
        (omega (arith, a.2, b.0), b.1)

  after_data-Bounded : (top : ℕ) (i : RcopyInfo) → Bounded top i → Bounded top (after_data i).0
  after_data-Bounded top i b = subst (Bounded top) (sym (after_data-same i)) b

  -- The result of a state.
  abbrev BoundedAt : ℕ → RcopyInfo × State → Type 0
  BoundedAt top r = Bounded top r.0

  closed-Bounded :
      (rs : List Read) (top : ℕ) (i : RcopyInfo)
      → window_open i.window && i.file_done == 0 ≡ false
      → Bounded top i
      → BoundedAt top (send_from rs i)
  closed-Bounded rs top i no_more b =
      subst (BoundedAt top) (sym (send_from_closed rs i no_more))
        (after_data-Bounded top (record i { reads = rs }) b)

  send_from-Bounded :
      (rs : List Read) (top : ℕ) (f : Upload) (i : RcopyInfo)
      → IsSending f i
      → NextIn f i rs
      → Bounded top i
      → BoundedAt top (send_from rs i)
  send_from-Bounded [] top f i h n b =
      elim (Bool-cases (window_open i.window && i.file_done == 0)) [
        | inl more ↦
            subst (BoundedAt top) (sym (send_from_nil i more))
              (after_data-Bounded top (record i { file_done = 1; reads = [] }) b)
        | inr no_more ↦ closed-Bounded [] top i no_more b
      ]
  send_from-Bounded (failed ∷ rs) top f i h n b =
      elim (Bool-cases (window_open i.window && i.file_done == 0)) [
        | inl more ↦ subst (BoundedAt top) (sym (send_from_error i rs more)) b
        | inr no_more ↦ closed-Bounded (failed ∷ rs) top i no_more b
      ]
  send_from-Bounded (bytes ds ∷ rs) top f i h n b =
      elim (Bool-cases (window_open i.window && i.file_done == 0)) [
        | inr no_more ↦ closed-Bounded (bytes ds ∷ rs) top i no_more b
        | inl more ↦ elim (List-cases (take i.buffer_size ds)) [
          | inl at_end ↦
              subst (BoundedAt top) (sym (send_from_end i ds rs more at_end))
                (after_data-Bounded top (record i { file_done = 1; reads = rs }) b)
          | inr (c, cs, q) ↦
              let z : i.file_done ≡ 0 = ground (arith, more) in
              let o : window_open i.window ≡ true = ground (arith, more) in
              let p = next_piece f i ds rs c cs (n.0 z) q in
              let le : length (c ∷ cs) ≤ srej_max_data =
                omega (arith, ap length q, length-take i.buffer_size ds, h.small) in
              let at = with_reads f i rs i.file_done i.had_error h in
              let k = send_one_fields f (record i { reads = rs }) (c ∷ cs) at o p.0 p.1 le in
              let j = send_one (record i { reads = rs }) (c ∷ cs) in
              subst (BoundedAt top) (sym (send_from_go i ds rs c cs more q)) (
                send_from-Bounded rs top f j
                  (send_one-IsSending f (record i { reads = rs }) (c ∷ cs) at o p.0 p.1 le)
                  (λ e. pending f i j rs k p.2, λ ne. absurd (ne (k.2 ∙ z)))
                  (send_one-Bounded top f (record i { reads = rs }) (c ∷ cs) at o p.0 b))
        ]
      ]

  pub send_data_state-Bounded :
      (top : ℕ) (f : Upload) (i : RcopyInfo)
      → IsSending f i
      → IsNext f i
      → Bounded top i
      → BoundedAt top (send_data_state i)
  unfolding send_data_state
  send_data_state-Bounded top f i h n b = send_from-Bounded i.reads top f i h n b

  resend_packet-Bounded :
      (top : ℕ) (i : RcopyInfo) (e : WindowEntry) → Bounded top i → Bounded top (resend_packet i e)
  unfolding resend_packet
  resend_packet-Bounded top i e b = b

  pub wait_on_ack_state-Bounded :
      (top : ℕ) (f : Upload) (i : RcopyInfo)
      → IsSending f i
      → Bounded top i
      → BoundedAt top (wait_on_ack_state i)
  wait_on_ack_state-Bounded top f i h b =
      let j = (process_controls i).0 in
      let b' = process_controls-Bounded top i h.sound (omega (arith, h.room, h.within)) b in
      elim (Bool-cases (ltb 0 (process_controls i).1)) [
        | inl answered ↦ rw (wait_answered i answered) b'
        | inr silent ↦ elim (Option-cases (window_lowest j.window)) [
          | inl empty ↦ rw (wait_empty i silent empty) b'
          | inr (e, found) ↦ elim (dec_lt (j.retry_count + 1) max_tries) [
            | no over ↦ rw (wait_over i e silent found (omega arith)) b'
            | yes again ↦
                let tried : RcopyInfo = record j { retry_count = j.retry_count + 1 } in
                rw (wait_again i e silent found again) (resend_packet-Bounded top tried e b')
          ]
        ]
      ]
