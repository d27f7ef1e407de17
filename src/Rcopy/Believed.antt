-- ===== src/Rcopy/Believed.antt =====
-- rcopy.c: through a whole run the window's lower edge stays below what the server has reported.
use cpe_networking_rejective.Prelude.{
  ℕ, zero, suc, ◌≤◌, ◌≡◌, refl, sym, subst, ap, ◌∙◌, ◌≢◌, inl, inr, Bool, some, List, [], ◌∷◌,
  arith, Bool-cases, Option-cases, length,
}
use cpe_networking_rejective.Checksum.{Checksum}
use cpe_networking_rejective.Net.{Event, timeout, arrives, received}
use cpe_networking_rejective.Upload.{Upload}
use cpe_networking_rejective.Packet.{srej_max_name, flag_filename_resp}
use cpe_networking_rejective.Window.{Window, window_init}
use cpe_networking_rejective.Rcopy.{
  RcopyInfo, Args, State, start_state, filename, send_data, wait_on_ack, send_eof, done, max_tries,
  run_start_state, safe_sendto, poll_call, is_reply, filename_from, send_filename_packet,
  filename_state, send_data_state, wait_on_ack_state, send_eof_state, process_loop,
}
use cpe_networking_rejective.Rcopy.Rounds.{
  loop_zero, loop_done, loop_start, loop_filename_none, loop_filename_some, loop_send_data,
  loop_wait_on_ack, loop_send_eof,
}
use cpe_networking_rejective.Rcopy.Handshake.{polled, Event-cases, send_eof_state-Closed}
use cpe_networking_rejective.Rcopy.Setup.{
  accepts, filename_timeout, filename_noise, filename_refused, filename_accepted,
  filename_from_zero, send_filename_packet-Asked,
}
use cpe_networking_rejective.Rcopy.SendData.{send_data_state-Sends}
use cpe_networking_rejective.Rcopy.WaitOnAck.{wait_on_ack_state-Sends}
use cpe_networking_rejective.Rcopy.Process
use cpe_networking_rejective.Rcopy.Process.{
  started_size, IsSetUp, Stage, filename_state-Goes, Stage-Sends, Stage-Closed, filename_opened,
  filename_no_memory,
}
use cpe_networking_rejective.Rcopy.Reported.{
  ReportsLe, Bounded, send_data_state-Bounded, wait_on_ack_state-Bounded,
}

module _ ⦃ck : Checksum⦄ where
  ReportsLe-polled :
      (top : ℕ) (i : RcopyInfo) (packet : List ℕ)
      → ReportsLe top i.events
      → ReportsLe top (polled i packet).events
  unfolding poll_call
  ReportsLe-polled top i packet h = go i.events refl h
    where
      go :
          (es : List Event)
          → i.events ≡ es
          → ReportsLe top es
          → ReportsLe top (polled i packet).events
      go [] e h =
          let none_left : (polled i packet).events ≡ [] = ground (arith, e) in
          subst (ReportsLe top) (sym none_left) tt
      go (timeout ∷ es) e h =
          let rest : (polled i packet).events ≡ es = ground (arith, e) in
          subst (ReportsLe top) (sym rest) h
      go (arrives from data_in ∷ es) e h =
          let rest : (polled i packet).events ≡ es = ground (arith, e) in
          subst (ReportsLe top) (sym rest) h.1

  filename_from-ReportsLe :
      (left top : ℕ) (i : RcopyInfo) (packet : List ℕ)
      → ReportsLe top i.events
      → ReportsLe top (filename_from left i packet).0.events
  filename_from-ReportsLe zero top i packet h = rw (filename_from_zero i packet) h
  filename_from-ReportsLe (suc left) top i packet h =
      let j = polled i packet in
      let h' = ReportsLe-polled top i packet h in
      elim (Event-cases (poll_call (safe_sendto i packet)).0) [
        | inl quiet ↦
            rw (filename_timeout left i packet quiet) (filename_from-ReportsLe left top j packet h')
        | inr (from, bytes, e) ↦
            let k : RcopyInfo = record j { server = from } in
            elim (Bool-cases (is_reply flag_filename_resp (received bytes))) [
              | inr noise ↦
                  rw (filename_noise left i packet from bytes e noise)
                    (filename_from-ReportsLe left top k packet h')
              | inl reply ↦ elim (Bool-cases (accepts (received bytes))) [
                | inr refused ↦ rw (filename_refused left i packet from bytes e reply refused) h'
                | inl accepted ↦ rw (filename_accepted left i packet from bytes e reply accepted) h'
              ]
            ]
      ]

  send_filename_packet-ReportsLe :
      (top : ℕ) (name : List ℕ) (i : RcopyInfo)
      → ReportsLe top i.events
      → ReportsLe top (send_filename_packet name i).0.events
  unfolding send_filename_packet
  send_filename_packet-ReportsLe top name i h = filename_from-ReportsLe max_tries top i _ h

  lower-window_init :
      (calloc : ℕ → Bool) (size start_seq : ℕ) {w : Window}
      → window_init calloc size start_seq ≡ some w
      → w.lower ≡ start_seq
  unfolding window_init
  lower-window_init calloc size start_seq h = ground (arith, h)

  -- At DONE the events no longer matter.
  abbrev pub BoundedIn : ℕ → State → RcopyInfo → Type 0
  BoundedIn top s i = (i.window.lower ≤ top) × (s ≢ done → ReportsLe top i.events)

  filename_state-BoundedIn :
      (top : ℕ) (f : Upload) (args : Args) (i j : RcopyInfo) (s : State)
      → length args.out_name ≤ srej_max_name
      → IsSetUp f i
      → f.first ≤ top
      → Bounded top i
      → filename_state args.calloc args.out_name i ≡ some (j, s)
      → BoundedIn top s j
  filename_state-BoundedIn top f args i j s le h first b e =
      let k = (send_filename_packet args.out_name i).0 in
      let q = send_filename_packet-Asked f args.out_name i h.sendable le in
      let more = send_filename_packet-ReportsLe top args.out_name i b.1 in
      elim (Bool-cases (send_filename_packet args.out_name i).1) [
        | inr refused ↦
            let c = Process.filename_refused args.calloc args.out_name i refused in
            let over : s ≡ done = ground (arith, c, e) in
            let same : j.window ≡ k.window = ground (arith, c, e) in
            (
              omega (arith, ap (λ (w : Window). w.lower) (same ∙ q.kept.window), b.0),
              λ ne. absurd (ne over),
            )
        | inl accepted ↦ elim (Option-cases (window_init args.calloc k.window_size k.control_seq)) [
          | inl no_memory ↦
              absurd (
                ground
                  (arith, e, filename_no_memory args.calloc args.out_name i accepted no_memory))
          | inr (w, opened) ↦
              let c = filename_opened args.calloc args.out_name i w accepted opened in
              let same : j.window ≡ w = ground (arith, c, e) in
              let left : j.events ≡ k.events = ground (arith, c, e) in
              let num : k.control_seq ≡ f.first =
                ground (arith, q.number, accepted, h.number, h.first) in
              let low = lower-window_init args.calloc k.window_size k.control_seq opened in
              (
                omega (arith, ap (λ (w : Window). w.lower) same, low, num, first),
                λ ne. subst (ReportsLe top) (sym left) more,
              )
        ]
      ]

  start-BoundedIn :
      (top : ℕ) (args : Args) (i : RcopyInfo)
      → Bounded top i
      → BoundedIn top filename (run_start_state args i).0
  unfolding run_start_state
  start-BoundedIn top args i b = (b.0, λ ne. b.1)

  -- If no RR that arrives is for more than `top`, the lower edge never passes it.
  pub lower-process_loop :
      (top : ℕ) (f : Upload) (args : Args) (fuel : ℕ) (s t : State) (i j : RcopyInfo)
      → length args.out_name ≤ srej_max_name
      → f.first ≤ top
      → Stage f args s i
      → BoundedIn top s i
      → process_loop fuel args s i ≡ some (j, t)
      → j.window.lower ≤ top
  lower-process_loop top f args zero s t i j le first h b e =
      let same : i ≡ j = ground (arith, e, loop_zero args s i) in
      omega (arith, ap (λ (x : RcopyInfo). x.window.lower) same, b.0)
  lower-process_loop top f args (suc fuel) start_state t i j le first h b e =
      lower-process_loop top f args fuel filename t (run_start_state args i).0 j le first
        (h, started_size args i) (start-BoundedIn top args i (b.0, b.1 (λ e. cc)))
        (sym (loop_start args fuel i) ∙ e)
  lower-process_loop top f args (suc fuel) filename t i j le first h b e =
      elim (filename_state-Goes f args i le h.0 h.1) [
        | inl (q, short) ↦ absurd (ground (arith, e, loop_filename_none args fuel i q))
        | inr (k, s, q, h') ↦
            lower-process_loop top f args fuel s t k j le first h'
              (filename_state-BoundedIn top f args i k s le h.0 first (b.0, b.1 (λ e. cc)) q)
              (sym (loop_filename_some args fuel i k s q) ∙ e)
      ]
  lower-process_loop top f args (suc fuel) send_data t i j le first h b e =
      let r = send_data_state i in
      let b' = send_data_state-Bounded top f i h.0 h.1 (b.0, b.1 (λ e. cc)) in
      lower-process_loop top f args fuel r.1 t r.0 j le first
        (Stage-Sends f args r (send_data_state-Sends f i h.0 h.1)) (b'.0, λ ne. b'.1)
        (sym (loop_send_data args fuel i) ∙ e)
  lower-process_loop top f args (suc fuel) wait_on_ack t i j le first h b e =
      let r = wait_on_ack_state i in
      let b' = wait_on_ack_state-Bounded top f i h.0 (b.0, b.1 (λ e. cc)) in
      lower-process_loop top f args fuel r.1 t r.0 j le first
        (Stage-Sends f args r (wait_on_ack_state-Sends f i h.0 h.1)) (b'.0, λ ne. b'.1)
        (sym (loop_wait_on_ack args fuel i) ∙ e)
  lower-process_loop top f args (suc fuel) send_eof t i j le first h b e =
      let r = send_eof_state i in
      let c = send_eof_state-Closed f i h.0.sendable in
      lower-process_loop top f args fuel r.1 t r.0 j le first (Stage-Closed f args i r h.1 c)
        (omega (arith, ap (λ (w : Window). w.lower) c.kept.window, b.0), λ ne. absurd (ne c.over))
        (sym (loop_send_eof args fuel i) ∙ e)
  lower-process_loop top f args (suc fuel) done t i j le first h b e =
      let same : i ≡ j = ground (arith, e, loop_done args (suc fuel) i) in
      omega (arith, ap (λ (x : RcopyInfo). x.window.lower) same, b.0)
