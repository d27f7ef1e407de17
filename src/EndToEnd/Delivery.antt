-- ===== src/EndToEnd/Delivery.antt =====
-- rcopy.c and server.c together, over a network that loses, repeats, reorders and damages packets.
use cpe_networking_rejective.Prelude.{
  ℕ, zero, suc, ◌+◌, ◌^◌, ◌≤◌, ◌<◌, ◌≡◌, refl, ap, ◌∙◌, ◌⊎◌, inl, inr, true, false, Option, none,
  some, List, [], ◌∷◌, arith, length, get_or, take, drop, All, take-all,
}
use cpe_networking_rejective.Checksum.{Checksum}
use cpe_networking_rejective.Net.{Event, timeout, arrives, received}
use cpe_networking_rejective.Upload.{RefusesPiece, Upload, IsGenuine, IsPiece-IsGenuine}
use cpe_networking_rejective.Packet.{srej_max_packet, read_u32, check_packet}
use cpe_networking_rejective.Buffer.Ready.{IsFull}
use cpe_networking_rejective.Server
use cpe_networking_rejective.Server.{ServerInfo, System, c_string, process_client}
use cpe_networking_rejective.Server.Process.{AreGenuine}
use cpe_networking_rejective.Server.Transfer.{setup_payload, Uploads, process_client-Uploads}
use cpe_networking_rejective.Rcopy.{RcopyInfo, Read}
use cpe_networking_rejective.Rcopy.Sending.{IsSendable}
use cpe_networking_rejective.EndToEnd.Client.{ClientRun, client-AllSendable}
use cpe_networking_rejective.EndToEnd.Pieces.{pieces, file_of, flat, file_of-AreFrom, chunks-flat}

module _ ⦃ck : Checksum⦄ where
  -- What the network may bring to a process when the other one sent these packets: nothing, one of them
  -- (as often and in whatever order it likes), or one that the checksum does not accept.
  abbrev pub CameFrom : List (ℕ × List ℕ) → List Event → Type 0
  CameFrom sent [] = Unit {0}
  CameFrom sent (timeout ∷ es) = CameFrom sent es
  CameFrom sent (arrives from data_in ∷ es) =
      ((check_packet (received data_in) ≡ false)
        ⊎ ((i : ℕ) × (i < length sent) × (data_in ≡ (get_or sent i (0, [])).1)))
      × CameFrom sent es

  All-get_or :
      (f : Upload) (sent : List (ℕ × List ℕ)) (i : ℕ)
      → All (λ q. IsSendable f q.1) sent
      → i < length sent
      → IsSendable f (get_or sent i (0, [])).1
  All-get_or f [] i h lt = absurd (omega arith)
  All-get_or f (q ∷ qs) zero h lt = h.0
  All-get_or f (q ∷ qs) (suc i) h lt = All-get_or f qs i h.1 (omega arith)

  one-IsGenuine :
      (f : Upload) (sent : List (ℕ × List ℕ)) (data_in : List ℕ)
      → All (λ q. IsSendable f q.1) sent
      → (check_packet (received data_in) ≡ false)
        ⊎ ((i : ℕ) × (i < length sent) × (data_in ≡ (get_or sent i (0, [])).1))
      → IsGenuine f (received data_in)
  one-IsGenuine f sent data_in h (inl bad) = λ good. cc
  one-IsGenuine f sent data_in h (inr (i, lt, e)) =
      let s = All-get_or f sent i h lt in
      let whole : received data_in ≡ (get_or sent i (0, [])).1 =
        take-all srej_max_packet data_in (omega (arith, ap length e, s.1)) ∙ e in
      rw whole (IsPiece-IsGenuine f _ s.0)

  pub CameFrom-AreGenuine :
      (f : Upload) (sent : List (ℕ × List ℕ)) (es : List Event)
      → All (λ q. IsSendable f q.1) sent
      → CameFrom sent es
      → AreGenuine f es
  CameFrom-AreGenuine f sent [] h c = tt
  CameFrom-AreGenuine f sent (timeout ∷ es) h c = CameFrom-AreGenuine f sent es h c
  CameFrom-AreGenuine f sent (arrives from data_in ∷ es) h c =
      (one-IsGenuine f sent data_in h c.0, CameFrom-AreGenuine f sent es h c.1)

  -- How a run of the server comes out: a failed `write` has ended it, or it is done or waits for more
  -- and has written the first `m` pieces of the client's file, in order and each once.
  abbrev pub Delivered :
      System → ℕ → List Read → Option (ServerInfo × (Server.State × List Event)) → Type 0
  Delivered os n reads r =
      ((r ≡ none) × RefusesPiece os.write (file_of n reads))
      ⊎ ((info : ServerInfo) × (s : Server.State) × (rest : List Event) × (m : ℕ) × (r
            ≡ some (info, (s, rest)))
          × ((s ≡ Server.State.done) ⊎ (rest ≡ []))
          × (m ≤ length (pieces n reads))
          × (info.buffer.output_file ≡ flat (take m (pieces n reads))))

  Delivered-of_Uploads :
      (os : System) (n : ℕ) (reads : List Read)
      (r : Option (ServerInfo × (Server.State × List Event))) (full : IsFull os.write)
      → Uploads os full (file_of n reads) r
      → Delivered os n reads r
  Delivered-of_Uploads os n reads r full (inl broken) = inl broken
  Delivered-of_Uploads os n reads r full (inr (info, s, rest, m, e, ends, le, at, out)) =
      let few : m ≤ length (pieces n reads) = omega arith in
      inr (
        info,
        s,
        rest,
        m,
        e,
        ends,
        few,
        out
            ∙ chunks-flat (file_of n reads).chunk 2 m (pieces n reads) few
                (file_of-AreFrom n reads).0,
      )

  -- Let `last` be what a client run of `process_file` on a file has left after any number of rounds
  -- (window and buffer sizes as `check_args` lets through, no wrap of the sequence numbers). If
  -- everything that reaches a server process is a packet that this client sent, in any order and
  -- number, or is refused by `check_packet`, and the setup packet gives a window size that does not
  -- wrap, its file opens, `calloc` succeeds and `write` never takes part of the bytes, then
  -- `process_client` exits because `write` failed for a piece of the file, with the pieces before
  -- it in the output file, or it is done or has read all of its events, and its output file is the
  -- first m pieces of the client's file in order, each once, for some m.
  pub server_writes_prefix :
      (n : ℕ) (reads : List Read) (last : RcopyInfo)
      → ClientRun n reads last
      → (os : System) (packet : List ℕ) (from fd : ℕ) (events : List Event) → IsFull os.write
      → CameFrom last.sent events
      → 0 < read_u32 (setup_payload packet)
      → (file_of n reads).limit + read_u32 (setup_payload packet) < 2 ^ 32
      → os.open_file (c_string (drop 8 (setup_payload packet))) ≡ some fd
      → os.calloc (read_u32 (setup_payload packet)) ≡ true
      → Delivered os n reads (process_client os packet from events)
  server_writes_prefix n reads last c os packet from fd events full sent pos room opened space =
      let f = file_of n reads in
      Delivered-of_Uploads os n reads _ full (
        process_client-Uploads os full f packet from fd events refl (omega arith) pos room opened
          space (CameFrom-AreGenuine f last.sent events (client-AllSendable n reads last c) sent))
