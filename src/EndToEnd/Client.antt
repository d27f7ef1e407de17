-- ===== src/EndToEnd/Client.antt =====
-- rcopy.c: a whole run of the client on a file.
use cpe_networking_rejective.Prelude.{
  ℕ, ◌+◌, ◌^◌, ◌≤◌, ◌<◌, ◌≡◌, refl, sym, subst, ap, ◌∙◌, ◌⊎◌, inl, inr, false, Option, none, some,
  List, arith, ℕ_discrete, length,
}
use cpe_networking_rejective.Checksum.{Checksum}
use cpe_networking_rejective.Net.{Event}
use cpe_networking_rejective.Upload.{Upload}
use cpe_networking_rejective.Packet.{srej_max_data, srej_max_name}
use cpe_networking_rejective.Rcopy
use cpe_networking_rejective.Rcopy.{
  Ending, finished, ending, RcopyInfo, Read, bytes, failed, Args, zeroed_info, run_start_state,
  process_loop,
}
use cpe_networking_rejective.Rcopy.Sending.{IsPending}
use cpe_networking_rejective.Rcopy.Handshake.{AllSendable}
use cpe_networking_rejective.EndToEnd.Pieces.{file_of, IsPending-of_pieces, file_of-AreFrom}
use cpe_networking_rejective.Rcopy.Process.{IsAcked, IsSetUp, Stage, Goes, process_loop-Goes}
use cpe_networking_rejective.Rcopy.Pace.{pace, IsPaced}
use cpe_networking_rejective.Rcopy.Ends.{Stops, process_loop-Stops}
use cpe_networking_rejective.Rcopy.{rounds, exit_code, process_file}

module _ ⦃ck : Checksum⦄ where
  Stage-AllSendable :
      (f : Upload) (args : Args) (s : Rcopy.State) (i : RcopyInfo)
      → Stage f args s i
      → AllSendable f i
  unfolding run_start_state
  Stage-AllSendable f args Rcopy.State.start_state i h = h.sendable
  Stage-AllSendable f args Rcopy.State.filename i h = h.0.sendable
  Stage-AllSendable f args Rcopy.State.send_data i h = h.0.sendable
  Stage-AllSendable f args Rcopy.State.wait_on_ack i h = h.0.sendable
  Stage-AllSendable f args Rcopy.State.send_eof i h = h.0.sendable
  Stage-AllSendable f args Rcopy.State.done i h = h.0

  -- A run of the client, seen after any number of rounds.
  pub record ClientRun (n : ℕ) (reads : List Read) (last : RcopyInfo) : Type 0 where
    pub fuel : ℕ
    pub args : Args
    pub events : List Event
    pub state : Rcopy.State
    pub payload_size : args.buffer_size ≡ n
    pub short_name : length args.out_name ≤ srej_max_name
    pub pos : 0 < args.window_size
    pub small : n ≤ srej_max_data
    pub room : (file_of n reads).limit + args.window_size < 2 ^ 32
    pub runs :
        process_loop fuel args Rcopy.State.start_state (zeroed_info reads events)
        ≡ some (last, state)

  pub started-IsSetUp :
      (n : ℕ) (args : Args) (reads : List Read) (events : List Event)
      → args.buffer_size ≡ n
      → 0 < args.window_size
      → n ≤ srej_max_data
      → (file_of n reads).limit + args.window_size < 2 ^ 32
      → IsSetUp (file_of n reads) (run_start_state args (zeroed_info reads events)).0
  unfolding zeroed_info run_start_state
  started-IsSetUp n args reads events e pos small room = record {
    first = refl;
    limit = omega arith;
    pos = pos;
    room = room;
    small = omega (arith, e);
    number = refl;
    unread = refl;
    pending =
        subst (λ m. IsPending (file_of n reads) m 2 reads) (sym e)
          (IsPending-of_pieces (file_of n reads) n 2 reads (file_of-AreFrom n reads));
    sendable = tt;
  }

  fresh-IsPaced :
      (reads : List Read) (events : List Event)
      → let i = zeroed_info reads events in IsPaced i × (pace i ≡ length events + length reads + 1)
  unfolding zeroed_info
  fresh-IsPaced reads events = ((omega arith, omega arith), refl)

  pub client-Stage :
      (n : ℕ) (reads : List Read) (last : RcopyInfo) (c : ClientRun n reads last)
      → Stage (file_of n reads) c.args c.state last
  client-Stage n reads last c =
      let f = file_of n reads in
      let i = zeroed_info reads c.events in
      let h = started-IsSetUp n c.args reads c.events c.payload_size c.pos c.small c.room in
      came_from f c.args last c.state (process_loop c.fuel c.args Rcopy.State.start_state i) c.runs
        (process_loop-Goes f c.args c.fuel Rcopy.State.start_state i c.short_name h)
    where
      came_from :
          (f : Upload) (args : Args) (j : RcopyInfo) (s : Rcopy.State)
          (r : Option (RcopyInfo × Rcopy.State))
          → r ≡ some (j, s)
          → Goes f args r
          → Stage f args s j
      came_from f args j s r e (inl (e', short)) = cc
      came_from f args j s r e (inr (k, t, e', st)) =
          let same : k ≡ j = ground (arith, e, e') in
          let also : t ≡ s = ground (arith, e, e') in
          subst (λ (x : Rcopy.State). Stage f args x j) also
            (subst (λ (x : RcopyInfo). Stage f args t x) same st)

  -- Every packet that a client run has sent fits a receive buffer of 1407 bytes, and if it is an
  -- intact data packet then its number is one of the file's, from the first to the last, and its
  -- payload is the piece of the file with that number; this holds at any round of a run within the
  -- bounds of `check_args` whose numbers do not wrap, whatever arrives.
  pub client-AllSendable :
      (n : ℕ) (reads : List Read) (last : RcopyInfo)
      → ClientRun n reads last
      → AllSendable (file_of n reads) last
  client-AllSendable n reads last c =
      Stage-AllSendable (file_of n reads) c.args c.state last (client-Stage n reads last c)

  -- How a client comes out: it exits because `calloc` fails for the window, or `process_file` leaves its loop and
  -- returns -1, or leaves its loop and returns 0 with the whole file read and every packet acknowledged.
  abbrev pub Returns : Upload → Args → Option (RcopyInfo × Ending) → Type 0
  Returns f args r =
      ((r ≡ none) × (args.calloc args.window_size ≡ false))
      ⊎ ((last : RcopyInfo) × (code : Option ℕ) × (r ≡ some (last, finished code))
          × (((code ≡ none) × (last.had_error ≡ 1)) ⊎ ((code ≡ some 0) × IsAcked f last)))

  returned :
      (f : Upload) (args : Args) (r : Option (RcopyInfo × Rcopy.State))
      → Stops f args r
      → Returns f args (elim r [ none ↦ none | some (i, s) ↦ some (i, ending s i) ])
  unfolding ending exit_code
  returned f args none (inl (e, short)) = inl (refl, short)
  returned f args none (inr (j, e, h)) = cc
  returned f args (some (i, s)) (inl (e, short)) = cc
  returned f args (some (i, s)) (inr (j, e, h)) =
      let same : j ≡ i = ground (arith, e) in
      let over : s ≡ Rcopy.done = ground (arith, e) in
      elim (ℕ_discrete i.had_error 1) [
        | yes err ↦ inr (i, none, ground (arith, err, over), inl (refl, err))
        | no fine ↦ elim h [
          | inl err ↦ absurd (fine (sym (ap (λ (x : RcopyInfo). x.had_error) same) ∙ err))
          | inr acked ↦
              inr (i, some 0, ground (arith, fine, over), inr (refl, subst (IsAcked f) same acked))
        ]
      ]

  -- Whatever the events and the reads are, `process_file` ends: within the rounds of its model it
  -- exits because `calloc` fails for the window, or comes to DONE, leaves its loop and returns -1
  -- with `had_error` set, or comes to DONE, leaves its loop and returns 0 with the end of the file
  -- read, the window empty and `current` just behind the last piece. The output name has at most
  -- 100 bytes, the window size is positive, the buffer size at most 1400, and the sequence numbers
  -- of the file and one window stay below 2^32.
  pub process_file-Returns :
      (args : Args) (reads : List Read) (events : List Event)
      → length args.out_name ≤ srej_max_name
      → 0 < args.window_size
      → args.buffer_size ≤ srej_max_data
      → (file_of args.buffer_size reads).limit + args.window_size < 2 ^ 32
      → Returns (file_of args.buffer_size reads) args (process_file args reads events)
  unfolding process_file
  process_file-Returns args reads events short pos small room =
      let f = file_of args.buffer_size reads in
      let i = zeroed_info reads events in
      let p = fresh-IsPaced reads events in
      returned f args (process_loop (rounds reads events) args Rcopy.State.start_state i) (
        process_loop-Stops f args (rounds reads events) Rcopy.State.start_state i short
          (started-IsSetUp args.buffer_size args reads events refl pos small room) (λ ne. p.0)
          (omega (arith, p.1)))
