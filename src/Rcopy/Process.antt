-- ===== src/Rcopy/Process.antt =====
-- rcopy.c: `process_file` from the start to its result.
use cpe_networking_rejective.Prelude.{
  ℕ, zero, suc, ◌+◌, ◌^◌, ◌≤◌, ◌<◌, ◌≡◌, refl, sym, ap, ◌∙◌, ◌⊎◌, inl, inr, Bool, true, false,
  Option, none, some, List, arith, Bool-cases, Option-cases, length,
}
use cpe_networking_rejective.Checksum.{Checksum}
use cpe_networking_rejective.Upload.{Upload}
use cpe_networking_rejective.Packet.{srej_max_data, srej_max_name}
use cpe_networking_rejective.Window.{Window, window_init, window_empty}
use cpe_networking_rejective.Window.Invariant.{window_init-IsWindow}
use cpe_networking_rejective.Rcopy.Rounds.{
  loop_zero, loop_done, loop_start, loop_filename_none, loop_filename_some, loop_send_data,
  loop_wait_on_ack, loop_send_eof,
}
use cpe_networking_rejective.Rcopy.{
  Args, run_start_state, RcopyInfo, State, start_state, filename, send_data, wait_on_ack, send_eof,
  done, first_seq, send_filename_packet, filename_state, send_data_state, wait_on_ack_state,
  send_eof_state, process_loop,
}
use cpe_networking_rejective.Rcopy.Handshake.{AllSendable, Kept, Closed, send_eof_state-Closed}
use cpe_networking_rejective.Rcopy.Sending.{IsSending, IsPending}
use cpe_networking_rejective.Rcopy.SendData.{IsNext, Sends, send_data_state-Sends}
use cpe_networking_rejective.Rcopy.WaitOnAck.{wait_on_ack_state-Sends}
use cpe_networking_rejective.Rcopy.Setup.{send_filename_packet-Asked}

module _ ⦃ck : Checksum⦄ where
  -- The sender before the server has answered.
  pub record IsSetUp (f : Upload) (i : RcopyInfo) : Type 0 where
    pub first : f.first ≡ first_seq + 1
    pub limit : f.first ≤ f.limit
    pub pos : 0 < i.window_size
    pub room : f.limit + i.window_size < 2 ^ 32
    pub small : i.buffer_size ≤ srej_max_data
    pub number : i.control_seq ≡ first_seq
    pub unread : i.file_done ≡ 0
    pub pending : IsPending f i.buffer_size f.first i.reads
    pub sendable : AllSendable f i

  -- All is read and acknowledged.
  abbrev pub IsAcked : Upload → RcopyInfo → Type 0
  IsAcked f i = (i.file_done ≡ 1) × (window_empty i.window ≡ true) × (i.window.current ≡ f.limit)

  -- What holds at the head of the loop of `process_file`, state by state.
  abbrev pub Stage : Upload → Args → State → RcopyInfo → Type 0
  Stage f args start_state i = IsSetUp f (run_start_state args i).0
  Stage f args filename i = IsSetUp f i × (i.window_size ≡ args.window_size)
  Stage f args send_data i = IsSending f i × IsNext f i
  Stage f args wait_on_ack i = IsSending f i × IsNext f i
  Stage f args send_eof i = IsSending f i × IsAcked f i
  Stage f args done i = AllSendable f i × ((i.had_error ≡ 1) ⊎ IsAcked f i)

  pub Stage-Sends :
      (f : Upload) (args : Args) (r : RcopyInfo × State) → Sends f r → Stage f args r.1 r.0
  Stage-Sends f args (i, start_state) h = absurd (h.later.0 refl)
  Stage-Sends f args (i, filename) h = absurd (h.later.1 refl)
  Stage-Sends f args (i, send_data) h = (h.sending, h.next (λ e. cc))
  Stage-Sends f args (i, wait_on_ack) h = (h.sending, h.next (λ e. cc))
  Stage-Sends f args (i, send_eof) h = (h.sending, h.eof refl)
  Stage-Sends f args (i, done) h = (h.sending.sendable, inl (h.error refl))

  pub Stage-Closed :
      (f : Upload) (args : Args) (i : RcopyInfo) (r : RcopyInfo × State)
      → IsAcked f i
      → Closed f i r
      → Stage f args r.1 r.0
  Stage-Closed f args i (j, s) a c = rw (c.over) (
    c.sendable,
    inr (
      c.kept.file_done ∙ a.0,
      ap window_empty c.kept.window ∙ a.1,
      ap (λ (w : Window). w.current) c.kept.window ∙ a.2,
    ),
  )

  -- An empty window in front of the file.
  opened :
      (f : Upload) (i j : RcopyInfo) (calloc : ℕ → Bool) (w : Window)
      → IsSetUp f i
      → Kept i j
      → AllSendable f j
      → j.control_seq ≡ f.first
      → window_init calloc j.window_size j.control_seq ≡ some w
      → IsSending f (record j { window = w }) × IsNext f (record j { window = w })
  opened f i j calloc w h k all num e =
      let q =
        window_init-IsWindow calloc j.window_size j.control_seq
          (omega (arith, k.window_size, h.pos)) (omega (arith, k.window_size, h.room, h.limit)) e in
      (
        record {
          sound = q.0;
          room = omega (arith, q.4, k.window_size, h.room);
          from_first = omega (arith, q.3, num);
          within = omega (arith, q.3, num, h.limit);
          small = omega (arith, k.buffer_size, h.small);
          held = λ s d x. absurd (ground (arith, x, q.5 s));
          sendable = all;
        },
        (
          λ z. rw (k.buffer_size, q.3, num, k.reads) h.pending,
          λ ne. absurd (ne (k.file_done ∙ h.unread)),
        ),
      )

  pub started_size :
      (args : Args) (i : RcopyInfo) → (run_start_state args i).0.window_size ≡ args.window_size
  unfolding run_start_state
  started_size args i = refl

  -- The branches of `filename_state`.
  pub filename_refused :
      (calloc : ℕ → Bool) (name : List ℕ) (i : RcopyInfo)
      → (send_filename_packet name i).1 ≡ false
      → filename_state calloc name i
        ≡ some (record (send_filename_packet name i).0 { had_error = 1 }, done)
  unfolding filename_state
  filename_refused calloc name i h = ground (arith, h)

  pub filename_opened :
      (calloc : ℕ → Bool) (name : List ℕ) (i : RcopyInfo) (w : Window)
      → let j = (send_filename_packet name i).0 in
        (send_filename_packet name i).1 ≡ true
        → window_init calloc j.window_size j.control_seq ≡ some w
        → filename_state calloc name i ≡ some (record j { window = w }, send_data)
  unfolding filename_state
  filename_opened calloc name i w h e = ground (arith, h, e)

  pub filename_no_memory :
      (calloc : ℕ → Bool) (name : List ℕ) (i : RcopyInfo)
      → let j = (send_filename_packet name i).0 in
        (send_filename_packet name i).1 ≡ true
        → window_init calloc j.window_size j.control_seq ≡ none
        → filename_state calloc name i ≡ none
  unfolding filename_state
  filename_no_memory calloc name i h e = ground (arith, h, e)

  window_init-none :
      (calloc : ℕ → Bool) (size start_seq : ℕ)
      → window_init calloc size start_seq ≡ none
      → calloc size ≡ false
  unfolding window_init
  window_init-none calloc size start_seq h = ground (arith, h)

  -- The process exits only if `calloc` has no memory for the window; otherwise the stage holds.
  abbrev pub Goes : Upload → Args → Option (RcopyInfo × State) → Type 0
  Goes f args r =
      ((r ≡ none) × (args.calloc args.window_size ≡ false))
      ⊎ ((j : RcopyInfo) × (s : State) × (r ≡ some (j, s)) × Stage f args s j)

  pub filename_state-Goes :
      (f : Upload) (args : Args) (i : RcopyInfo)
      → length args.out_name ≤ srej_max_name
      → IsSetUp f i
      → i.window_size ≡ args.window_size
      → Goes f args (filename_state args.calloc args.out_name i)
  filename_state-Goes f args i le h size =
      let j = (send_filename_packet args.out_name i).0 in
      let q = send_filename_packet-Asked f args.out_name i h.sendable le in
      elim (Bool-cases (send_filename_packet args.out_name i).1) [
        | inr refused ↦ inr (
          record j { had_error = 1 },
          done,
          filename_refused args.calloc args.out_name i refused,
          (q.sendable, inl refl),
        )
        | inl accepted ↦
            let num : j.control_seq ≡ f.first =
              ground (arith, q.number, accepted, h.number, h.first) in
            elim (Option-cases (window_init args.calloc j.window_size j.control_seq)) [
              | inl no_memory ↦ inl (
                filename_no_memory args.calloc args.out_name i accepted no_memory,
                ap args.calloc (sym (q.kept.window_size ∙ size))
                    ∙ window_init-none args.calloc j.window_size j.control_seq no_memory,
              )
              | inr (w, e) ↦ inr (
                record j { window = w },
                send_data,
                filename_opened args.calloc args.out_name i w accepted e,
                opened f i j args.calloc w h q.kept q.sendable num e,
              )
            ]
      ]

  module _ (f : Upload) (args : Args) where
    -- At whatever round the loop is looked at, the process has exited for lack of memory or its stage
    -- holds.
    pub process_loop-Goes :
        (fuel : ℕ) (s : State) (i : RcopyInfo)
        → length args.out_name ≤ srej_max_name
        → Stage f args s i
        → Goes f args (process_loop fuel args s i)
    process_loop-Goes zero s i le h = inr (i, s, loop_zero args s i, h)
    process_loop-Goes (suc fuel) start_state i le h =
        rw (loop_start args fuel i)
          (process_loop-Goes fuel filename (run_start_state args i).0 le (h, started_size args i))
    process_loop-Goes (suc fuel) filename i le h = elim (filename_state-Goes f args i le h.0 h.1) [
      | inl (e, short) ↦ inl (loop_filename_none args fuel i e, short)
      | inr (j, s, e, h') ↦
          rw (loop_filename_some args fuel i j s e) (process_loop-Goes fuel s j le h')
    ]
    process_loop-Goes (suc fuel) send_data i le h =
        let r = send_data_state-Sends f i h.0 h.1 in
        rw (loop_send_data args fuel i) (
          process_loop-Goes fuel (send_data_state i).1 (send_data_state i).0 le
            (Stage-Sends f args (send_data_state i) r))
    process_loop-Goes (suc fuel) wait_on_ack i le h =
        let r = wait_on_ack_state-Sends f i h.0 h.1 in
        rw (loop_wait_on_ack args fuel i) (
          process_loop-Goes fuel (wait_on_ack_state i).1 (wait_on_ack_state i).0 le
            (Stage-Sends f args (wait_on_ack_state i) r))
    process_loop-Goes (suc fuel) send_eof i le h = rw (loop_send_eof args fuel i) (
        process_loop-Goes fuel (send_eof_state i).1 (send_eof_state i).0 le
          (Stage-Closed f args i (send_eof_state i) h.1 (send_eof_state-Closed f i h.0.sendable)))
    process_loop-Goes (suc fuel) done i le h = inr (i, done, loop_done args (suc fuel) i, h)
