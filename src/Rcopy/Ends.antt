-- ===== src/Rcopy/Ends.antt =====
-- rcopy.c: the client ends, whatever the network does.
use cpe_networking_rejective.Prelude.{
  ℕ, zero, suc, ◌+◌, ◌-◌, ◌*◌, ◌≤◌, ◌<◌, ◌≡◌, refl, sym, subst, ap, ◌≢◌, ◌⊎◌, inl, inr, true, false,
  ◌&&◌, Option, none, some, arith, dec_lt, ltb, ◌==◌, if◌then◌else◌, ltb→lt, Bool-cases,
  Option-cases, length,
}
use cpe_networking_rejective.Checksum.{Checksum}
use cpe_networking_rejective.Upload.{Upload}
use cpe_networking_rejective.Packet.{srej_max_name}
use cpe_networking_rejective.Window.{
  Window, WindowEntry, window_open, window_empty, window_init, window_lowest,
}
use cpe_networking_rejective.Window.Invariant.{IsWindow, window_lowest_lem}
use cpe_networking_rejective.Rcopy.{
  RcopyInfo, Args, State, start_state, filename, send_data, wait_on_ack, send_eof, done, max_tries,
  run_start_state, resend_packet, process_controls, after_data, send_filename_packet,
  filename_state, send_data_state, wait_on_ack_state, send_eof_state, process_loop,
}
use cpe_networking_rejective.Rcopy.Rounds.{
  loop_done, loop_start, loop_filename_none, loop_filename_some, loop_send_data, loop_wait_on_ack,
  loop_send_eof,
}
use cpe_networking_rejective.Rcopy.Controls.{process_controls-Heard}
use cpe_networking_rejective.Rcopy.Sending.{IsSending}
use cpe_networking_rejective.Rcopy.SendData.{Sends, send_data_state-Sends}
use cpe_networking_rejective.Rcopy.WaitOnAck.{
  wait_answered, wait_empty, wait_over, wait_again, wait_on_ack_state-Sends,
}
use cpe_networking_rejective.Rcopy.Handshake.{send_eof_state-Closed}
use cpe_networking_rejective.Rcopy.Pace.{
  pace, IsPaced, Paces, SameCounts, process_controls-pace, send_data_state-pace,
}
use cpe_networking_rejective.Rcopy.Greeting.{send_filename_packet-pace}
use cpe_networking_rejective.Rcopy.Process.{
  started_size, Stage, filename_state-Goes, Stage-Sends, Stage-Closed, filename_refused,
  filename_opened, filename_no_memory, IsAcked,
}

resend_packet-counts :
    (i : RcopyInfo) (e : WindowEntry)
    → SameCounts i (resend_packet i e) × ((resend_packet i e).events ≡ i.events)
unfolding resend_packet
resend_packet-counts i e = ((refl, refl, refl), refl)

-- More rounds than are left in a state: each event, read or end of file is good for at most 14.
abbrev pub rank : State → RcopyInfo → ℕ
rank start_state i = 14 * pace i + 15
rank filename i = 14 * pace i + 14
rank send_data i = 14 * pace i + (if window_empty i.window then 2 else 13 - i.retry_count)
rank wait_on_ack i = 14 * pace i + (12 - i.retry_count)
rank send_eof i = 1
rank done i = 0

rank-le : (s : State) (i : RcopyInfo) → s ≢ start_state → s ≢ filename → rank s i ≤ 14 * pace i + 13
rank-le start_state i a b = absurd (a refl)
rank-le filename i a b = absurd (b refl)
rank-le send_data i a b = ground arith
rank-le wait_on_ack i a b = omega arith
rank-le send_eof i a b = omega arith
rank-le done i a b = omega arith

-- An empty window of a sound sender is open.
empty_is_open : (w : Window) → IsWindow w → window_empty w ≡ true → window_open w ≡ true
unfolding window_empty window_open
empty_is_open w v h = ground (arith, v.top, v.array.pos)

module _ ⦃ck : Checksum⦄ where
  -- A step that leaves fewer rounds.
  abbrev Shrinks : ℕ → RcopyInfo × State → Type 0
  Shrinks k r = (r.1 ≢ done → IsPaced r.0) × (rank r.1 r.0 < k)

  rank-after_data :
      (i : RcopyInfo)
      → IsWindow i.window
      → IsPaced i
      → window_open i.window && i.file_done == 0 ≡ false
      → rank (after_data i).1 (after_data i).0 < rank send_data i
  unfolding after_data
  rank-after_data i v p h = elim (Bool-cases (window_empty i.window)) [
    | inl empty ↦ ground (arith, empty, h, p, empty_is_open i.window v empty)
    | inr some_left ↦ ground (arith, some_left, p)
  ]

  send_data_state-Shrinks :
      (f : Upload) (i : RcopyInfo) (r : RcopyInfo × State)
      → IsWindow i.window
      → IsPaced i
      → Sends f r
      → Paces i i.reads r
      → Shrinks (rank send_data i) r
  send_data_state-Shrinks f i r v p s (q, inl less) =
      (λ ne. q, ground (arith, rank-le r.1 r.0 s.later.0 s.later.1, p))
  send_data_state-Shrinks f i (j, state) v p s (q, inr (inl over)) =
      (λ ne. q, ground (arith, ap (λ t. rank t j) over))
  send_data_state-Shrinks f i r v p s (q, inr (inr (e, h))) = (
    λ ne. q,
    subst (λ (x : RcopyInfo × State). rank x.1 x.0 < rank send_data i) (sym e)
        (rank-after_data i v p h),
  )

  wait_on_ack_state-Shrinks :
      (f : Upload) (i : RcopyInfo)
      → IsSending f i
      → IsPaced i
      → Shrinks (rank wait_on_ack i) (wait_on_ack_state i)
  wait_on_ack_state-Shrinks f i h p =
      let j = (process_controls i).0 in
      let g = process_controls-Heard i h.sound (omega (arith, h.room, h.within)) in
      let t = process_controls-pace i in
      let reads = ap length t.0.1 in
      elim (Bool-cases (ltb 0 (process_controls i).1)) [
        | inl answered ↦
            let fewer = t.2 (ltb→lt 0 (process_controls i).1 answered) in
            rw (wait_answered i answered) (
              (λ ne. (omega arith, omega (arith, t.0.2, p.1))),
              ground (arith, fewer, reads, t.0.2, p),
            )
        | inr silent ↦ elim (Option-cases (window_lowest j.window)) [
          | inl empty ↦
              let nothing = (window_lowest_lem j.window g.sound).1.0 empty in
              rw (wait_empty i silent empty) (
                λ ne. (omega (arith, t.0.0, p.0), omega (arith, t.0.2, p.1)),
                ground (arith, nothing, t.1, reads, t.0, p),
              )
          | inr (e, found) ↦ elim (dec_lt (j.retry_count + 1) max_tries) [
            | no over ↦
                rw (wait_over i e silent found (omega arith))
                  (λ ne. absurd (ne refl), ground (arith, p))
            | yes again ↦
                let tried : RcopyInfo = record j { retry_count = j.retry_count + 1 } in
                let (k, ev) = resend_packet-counts tried e in
                rw (wait_again i e silent found again) (
                  λ ne. (omega (arith, k.0, again), omega (arith, k.2, t.0.2, p.1)),
                  ground (arith, k, ap length k.1, ap length ev, t.1, reads, t.0, p),
                )
          ]
        ]
      ]

  -- The process ends: it exits for lack of memory, or reaches DONE.
  abbrev pub Stops : Upload → Args → Option (RcopyInfo × State) → Type 0
  Stops f args r =
      ((r ≡ none) × (args.calloc args.window_size ≡ false))
      ⊎ ((j : RcopyInfo) × (r ≡ some (j, done)) × ((j.had_error ≡ 1) ⊎ IsAcked f j))

  filename_state-Shrinks :
      (args : Args) (i j : RcopyInfo) (s : State)
      → IsPaced i
      → filename_state args.calloc args.out_name i ≡ some (j, s)
      → Shrinks (rank filename i) (j, s)
  filename_state-Shrinks args i j s p h =
      let k = (send_filename_packet args.out_name i).0 in
      let t = send_filename_packet-pace args.out_name i in
      elim (Bool-cases (send_filename_packet args.out_name i).1) [
        | inr refused ↦
            let e = filename_refused args.calloc args.out_name i refused in
            let over : s ≡ done = ground (arith, e, h) in
            (λ ne. absurd (ne over), ground (arith, ap (λ x. rank x j) over))
        | inl accepted ↦ elim (Option-cases (window_init args.calloc k.window_size k.control_seq)) [
          | inl no_memory ↦
              ground (arith, h, filename_no_memory args.calloc args.out_name i accepted no_memory)
          | inr (w, opened) ↦
              let e = filename_opened args.calloc args.out_name i w accepted opened in
              let at : s ≡ send_data = ground (arith, e, h) in
              let retry : j.retry_count ≡ i.retry_count = ground (arith, e, h, t) in
              let left : (j.file_done ≡ i.file_done) × (pace j ≤ pace i) =
                ground (arith, e, h, t, ap length t.0.1) in
              (
                λ ne. (omega (arith, retry, p.0), omega (arith, left.0, p.1)),
                ground (arith, ap (λ x. rank x j) at, left.1, retry),
              )
        ]
      ]

  start-IsPaced :
      (args : Args) (i : RcopyInfo)
      → let j = (run_start_state args i).0 in (IsPaced i → IsPaced j) × (pace j ≡ pace i)
  unfolding run_start_state
  start-IsPaced args i = (λ p. p, refl)

  -- With enough rounds the client ends: it exits because `calloc` fails, or it reaches DONE with an
  -- error, or with the whole file read and acknowledged.
  pub process_loop-Stops :
      (f : Upload) (args : Args) (fuel : ℕ) (s : State) (i : RcopyInfo)
      → length args.out_name ≤ srej_max_name
      → Stage f args s i
      → (s ≢ done → IsPaced i)
      → rank s i < fuel
      → Stops f args (process_loop fuel args s i)
  process_loop-Stops f args zero s i le h p enough = absurd (omega arith)
  process_loop-Stops f args (suc fuel) start_state i le h p enough =
      let j = (run_start_state args i).0 in
      let q = start-IsPaced args i in
      rw (loop_start args fuel i) (
        process_loop-Stops f args fuel filename j le (h, started_size args i)
          (λ ne. q.0 (p (λ e. cc))) (omega (arith, q.1)))
  process_loop-Stops f args (suc fuel) filename i le h p enough =
      elim (filename_state-Goes f args i le h.0 h.1) [
        | inl (e, short) ↦ inl (loop_filename_none args fuel i e, short)
        | inr (j, s, e, h') ↦
            let q = filename_state-Shrinks args i j s (p (λ e. cc)) e in
            rw (loop_filename_some args fuel i j s e)
              (process_loop-Stops f args fuel s j le h' q.0 (omega (arith, q.1)))
      ]
  process_loop-Stops f args (suc fuel) send_data i le h p enough =
      let r = send_data_state i in
      let s = send_data_state-Sends f i h.0 h.1 in
      let q =
        send_data_state-Shrinks f i r h.0.sound (p (λ e. cc)) s
          (send_data_state-pace i (p (λ e. cc))) in
      rw (loop_send_data args fuel i) (
        process_loop-Stops f args fuel r.1 r.0 le (Stage-Sends f args r s) q.0
          (omega (arith, q.1, enough)))
  process_loop-Stops f args (suc fuel) wait_on_ack i le h p enough =
      let r = wait_on_ack_state i in
      let q = wait_on_ack_state-Shrinks f i h.0 (p (λ e. cc)) in
      rw (loop_wait_on_ack args fuel i) (
        process_loop-Stops f args fuel r.1 r.0 le
          (Stage-Sends f args r (wait_on_ack_state-Sends f i h.0 h.1)) q.0
          (omega (arith, q.1, enough)))
  process_loop-Stops f args (suc fuel) send_eof i le h p enough =
      let r = send_eof_state i in
      let c = send_eof_state-Closed f i h.0.sendable in
      rw (loop_send_eof args fuel i) (
        process_loop-Stops f args fuel r.1 r.0 le (Stage-Closed f args i r h.1 c)
          (λ ne. absurd (ne c.over)) (omega (arith, ap (λ x. rank x r.0) c.over, enough)))
  process_loop-Stops f args (suc fuel) done i le h p enough =
      inr (i, loop_done args (suc fuel) i, h.1)
