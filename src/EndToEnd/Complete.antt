-- ===== src/EndToEnd/Complete.antt =====
-- rcopy.c and server.c together: when the client reports success, the server has the whole file.
use cpe_networking_rejective.Prelude.{
  ℕ, zero, suc, ◌+◌, ◌^◌, ◌≤◌, ◌<◌, ◌≡◌, refl, sym, subst, ap, ◌∙◌, ◌≢◌, ◌⊎◌, inl, inr, true, false,
  Option, some, List, [], ◌∷◌, arith, length, get_or, drop, All, take-all,
}
use cpe_networking_rejective.Checksum.{Checksum}
use cpe_networking_rejective.Net.{Event, timeout, arrives, received}
use cpe_networking_rejective.Upload.{RrLe}
use cpe_networking_rejective.Packet.{srej_max_packet, read_u32, check_packet}
use cpe_networking_rejective.Window.{Window, window_empty}
use cpe_networking_rejective.Buffer.Ready.{IsFull}
use cpe_networking_rejective.Server
use cpe_networking_rejective.Server.{ServerInfo, System, c_string, process_client}
use cpe_networking_rejective.Server.Transfer.{setup_payload, Uploads, process_client-Uploads}
use cpe_networking_rejective.Server.Honest.{Claims}
use cpe_networking_rejective.Server.Promise.{process_client-IsHonest}
use cpe_networking_rejective.Rcopy
use cpe_networking_rejective.Rcopy.{RcopyInfo, Read, zeroed_info}
use cpe_networking_rejective.Rcopy.Process.{IsAcked, Stage}
use cpe_networking_rejective.Rcopy.Reported.{ReportsLe}
use cpe_networking_rejective.Rcopy.Believed.{BoundedIn, lower-process_loop}
use cpe_networking_rejective.EndToEnd.Pieces.{pieces, file_of, flat, file_of-AreFrom, chunks-flat}
use cpe_networking_rejective.EndToEnd.Client.{
  ClientRun, client-Stage, client-AllSendable, started-IsSetUp,
}
use cpe_networking_rejective.EndToEnd.Delivery.{CameFrom, CameFrom-AreGenuine}

module _ ⦃ck : Checksum⦄ where
  Claims-get_or :
      (top : ℕ) (sent : List (ℕ × List ℕ)) (i : ℕ)
      → All (λ q. Claims top q.1) sent
      → i < length sent
      → Claims top (get_or sent i (0, [])).1
  Claims-get_or top [] i h lt = absurd (omega arith)
  Claims-get_or top (q ∷ qs) zero h lt = h.0
  Claims-get_or top (q ∷ qs) (suc i) h lt = Claims-get_or top qs i h.1 (omega arith)

  RrLe-received :
      (top : ℕ) (sent : List (ℕ × List ℕ)) (data_in : List ℕ)
      → All (λ q. Claims top q.1) sent
      → (check_packet (received data_in) ≡ false)
        ⊎ ((i : ℕ) × (i < length sent) × (data_in ≡ (get_or sent i (0, [])).1))
      → RrLe top (received data_in)
  RrLe-received top sent data_in h (inl bad) = λ good. cc
  RrLe-received top sent data_in h (inr (i, lt, e)) =
      let s = Claims-get_or top sent i h lt in
      let whole : received data_in ≡ (get_or sent i (0, [])).1 =
        take-all srej_max_packet data_in (omega (arith, ap length e, s.1)) ∙ e in
      rw whole s.0

  CameFrom-ReportsLe :
      (top : ℕ) (sent : List (ℕ × List ℕ)) (es : List Event)
      → All (λ q. Claims top q.1) sent
      → CameFrom sent es
      → ReportsLe top es
  CameFrom-ReportsLe top sent [] h c = tt
  CameFrom-ReportsLe top sent (timeout ∷ es) h c = CameFrom-ReportsLe top sent es h c
  CameFrom-ReportsLe top sent (arrives from data_in ∷ es) h c =
      (RrLe-received top sent data_in h c.0, CameFrom-ReportsLe top sent es h c.1)

  zeroed_info-BoundedIn :
      (top : ℕ) (reads : List Read) (events : List Event)
      → ReportsLe top events
      → BoundedIn top Rcopy.State.start_state (zeroed_info reads events)
  unfolding zeroed_info
  zeroed_info-BoundedIn top reads events h = (omega arith, λ ne. h)

  empty_window : (w : Window) → window_empty w ≡ true → w.lower ≡ w.current
  unfolding window_empty
  empty_window w h = ground (arith, h)

  -- All that the client has had acknowledged is below `top` if no RR is for more.
  acked-le :
      (n top : ℕ) (reads : List Read) (last : RcopyInfo) (c : ClientRun n reads last)
      → 2 ≤ top
      → ReportsLe top c.events
      → IsAcked (file_of n reads) last
      → (file_of n reads).limit ≤ top
  acked-le n top reads last c two reports acked =
      let f = file_of n reads in
      let low =
        lower-process_loop top f c.args c.fuel Rcopy.State.start_state c.state
          (zeroed_info reads c.events) last c.short_name two
          (started-IsSetUp n c.args reads c.events c.payload_size c.pos c.small c.room)
          (zeroed_info-BoundedIn top reads c.events reports) c.runs in
      omega (arith, low, empty_window last.window acked.1, acked.2)

  all_written :
      (os : System) (full : IsFull os.write) (n : ℕ) (reads : List Read)
      (r : Option (ServerInfo × (Server.State × List Event))) (info : ServerInfo) (s : Server.State)
      (rest : List Event)
      → Uploads os full (file_of n reads) r
      → r ≡ some (info, (s, rest))
      → (2 ≤ info.buffer.expected)
        × ((file_of n reads).limit ≤ info.buffer.expected
            → info.buffer.output_file ≡ flat (pieces n reads))
  all_written os full n reads r info s rest (inl (none_left, broken)) e = cc
  all_written os full n reads r info s rest (inr (j, t, more, m, q, ends, le, at, out)) e =
      let same : j ≡ info = ground (arith, q, e) in
      let up = ap (λ (x : ServerInfo). x.buffer.expected) same in
      (
        omega (arith, up, at),
        λ limit.
            let few : m ≤ length (pieces n reads) = omega arith in
            let whole : length (pieces n reads) ≤ m = omega (arith, limit, up, at) in
            ap (λ (x : ServerInfo). x.buffer.output_file) (sym same)
            ∙ out
            ∙ chunks-flat (file_of n reads).chunk 2 m (pieces n reads) few
                (file_of-AreFrom n reads).0
            ∙ ap flat (take-all m (pieces n reads) whole),
      )

  -- When a client run is DONE without an error and a server process has run on some events, every
  -- packet that reached the one was sent by the other or is refused by `check_packet`, in any order
  -- and number, and the server's output file opened, `calloc` succeeded and `write` never took part
  -- of the bytes, then the server's output file is the whole file of the client: the pieces that it
  -- read, in order and each once. The sizes are those that `check_args` lets through, the setup
  -- packet gives a positive window size, and the sequence numbers do not wrap.
  pub success_means_delivered :
      (n : ℕ) (reads : List Read) (last : RcopyInfo) (c : ClientRun n reads last)
      → c.state ≡ Rcopy.State.done
      → last.had_error ≢ 1
      → (os : System) (packet : List ℕ) (from fd : ℕ) (events rest : List Event) (info : ServerInfo)
        (s : Server.State)
      → IsFull os.write
      → process_client os packet from events ≡ some (info, (s, rest))
      → CameFrom last.sent events
      → CameFrom info.sent c.events
      → 0 < read_u32 (setup_payload packet)
      → (file_of n reads).limit + read_u32 (setup_payload packet) < 2 ^ 32
      → os.open_file (c_string (drop 8 (setup_payload packet))) ≡ some fd
      → os.calloc (read_u32 (setup_payload packet)) ≡ true
      → info.buffer.output_file ≡ flat (pieces n reads)
  success_means_delivered n reads last c over fine os packet from fd events rest info s full ran
        sent replies pos room opened space =
      let f = file_of n reads in
      let g = CameFrom-AreGenuine f last.sent events (client-AllSendable n reads last c) sent in
      let up =
        process_client-Uploads os full f packet from fd events refl (omega arith) pos room opened
          space g in
      let w = all_written os full n reads _ info s rest up ran in
      let honest =
        process_client-IsHonest os full f packet from fd events rest info s refl (omega arith) pos
          room opened space g ran in
      let reports = CameFrom-ReportsLe info.buffer.expected info.sent c.events honest.0 replies in
      let st = subst (λ t. Stage f c.args t last) over (client-Stage n reads last c) in
      elim st.1 [
        | inl err ↦ absurd (fine err)
        | inr acked ↦ w.1 (acked-le n info.buffer.expected reads last c w.0 reports acked)
      ]
