-- ===== src/Programs/Client.antt =====
-- udpCode_spring26_v3/rcopy.c: how `main` of the client ends.
use cpe_networking_rejective.Prelude.{
  ℕ, ◌+◌, ◌^◌, ◌≤◌, ◌≡◌, refl, sym, subst, ◌≢◌, ◌⊎◌, inl, inr, Bool, true, false, Option, none,
  some, List, arith, Bool-cases,
}
use cpe_networking_rejective.Prelude.Int.{ℤ, pos}
use cpe_networking_rejective.Checksum.{Checksum}
use cpe_networking_rejective.Outcome.{Outcome, returns, exits, minus_one}
use cpe_networking_rejective.System.{SockAddr, History, Host, Process, Sys, go_on}
use cpe_networking_rejective.Networks.Phases.{IsLegal, LastFailed}
use cpe_networking_rejective.Poll.{PollFd, Memory}
use cpe_networking_rejective.Poll.Grow.{IsMemory}
use cpe_networking_rejective.Net.{Event}
use cpe_networking_rejective.Upload.{Upload}
use cpe_networking_rejective.ClientState.{RcopyInfo, Args, Read}
use cpe_networking_rejective.Rcopy.{Ending, finished, unfinished, process_file}
use cpe_networking_rejective.Rcopy.Process.{IsAcked}
use cpe_networking_rejective.CommandLine.{atoi, arg, to_nat, args_of, check_args, check_args-bounds}
use cpe_networking_rejective.EndToEnd.Pieces.{file_of}
use cpe_networking_rejective.EndToEnd.Client.{Returns, process_file-Returns}
use cpe_networking_rejective.Programs.{
  ClientStart, client_start, finish, lift, client_args, client_main,
}
use cpe_networking_rejective.Programs.Start.{Starts, Cause, start-Starts}

-- The file of a command line, by its buffer size.
abbrev pub file_for : List (List ℕ) → List Read → Upload
file_for argv reads = file_of (to_nat (atoi (arg argv 4))) reads

-- Why the client may exit before it comes to DONE, when no system call has failed.
abbrev pub Obstacle :
    Memory PollFd → (List ℕ → Bool) → (List ℕ → ℤ) → (ℕ → Bool) → List (List ℕ) → Type 0
Obstacle memory rate_ok open_for_reading calloc argv =
    (check_args rate_ok argv ≡ false)
    ⊎ (Cause memory (open_for_reading (arg argv 1)) ⊎ (calloc (to_nat (atoi (arg argv 3))) ≡ false))

module _ ⦃ck : Checksum⦄ where
  -- The client has ended: it has exited with a code other than 0 after a system call that failed or for
  -- the reason `Why`, or has left its loop and returned -1 after an error, or 0 with every packet of
  -- the file acknowledged. (A client that is still in its loop has not.)
  abbrev pub Exits : Type 0 → Upload → Outcome (RcopyInfo × Ending) × Process → Type 0
  Exits Why f (exits code, p) = (code ≢ pos 0) × (LastFailed p.history ⊎ Why)
  Exits Why f (returns (last, unfinished), p) = ⊥
  Exits Why f (returns (last, finished none), p) = last.had_error ≡ 1
  Exits Why f (returns (last, finished (some code)), p) = (code ≡ 0) × IsAcked f last

  minus_one_bad : minus_one ≢ pos 0
  minus_one_bad e = cc

  finish-Exits :
      (Why : Type 0) (f : Upload) (args : Args) (r : Option (RcopyInfo × Ending)) (p : Process)
      → (args.calloc args.window_size ≡ false → Why)
      → Returns f args r
      → Exits Why f (lift (finish r) p)
  finish-Exits Why f args r p why (inl (e, denied)) = rw e (minus_one_bad, inr (why denied))
  finish-Exits Why f args r p why (inr (last, code, e, inl (failed, err))) = rw e (rw failed err)
  finish-Exits Why f args r p why (inr (last, code, e, inr (fine, acked))) =
      rw e (rw fine (refl, acked))

module _ ⦃ck : Checksum⦄ (host : Host) (memory : Memory PollFd) (number : SockAddr → ℕ) where
  after_start :
      (Fails Why : Type 0) (P : ClientStart → History → Type 0) (f : Upload)
      (g : ClientStart → Sys (RcopyInfo × Ending)) (r : Outcome ClientStart × Process)
      → (Fails → Why)
      → Starts Fails P r
      → ((c : ClientStart) (q : Process) → Exits Why f (g c q))
      → Exits Why f (go_on g r)
  unfolding go_on
  after_start Fails Why P f g (returns c, q) why h k = k c q
  after_start Fails Why P f g (exits code, q) why (legal, bad, inl failed) k = (bad, inl failed)
  after_start Fails Why P f g (exits code, q) why (legal, bad, inr cause) k = (bad, inr (why cause))

  module _ (rate_ok : List ℕ → Bool) (open_for_reading : List ℕ → ℤ) (calloc : ℕ → Bool)
      (argv : List (List ℕ)) (reads : List Read) (events : List Event) (p : Process) where
    -- What follows the start.
    abbrev after : ClientStart → Sys (RcopyInfo × Ending)
    after c = lift (finish (process_file (client_args number argv calloc c) reads events))

    main_refused :
        check_args rate_ok argv ≡ false
        → client_main host memory number rate_ok open_for_reading calloc argv reads events p
          ≡ (exits minus_one, p)
    unfolding client_main
    main_refused refused = rw refused refl

    main_goes :
        check_args rate_ok argv ≡ true
        → client_main host memory number rate_ok open_for_reading calloc argv reads events p
          ≡ go_on after (client_start host memory open_for_reading argv p)
    unfolding client_main
    main_goes fine = rw fine refl

  -- `main` of the client ends on every command line, whatever the system answers, the file reads
  -- and the network brings: it exits with a code other than 0, after a system call that failed, or
  -- because `check_args` refuses the command line, the input file does not open, an allocation for
  -- the poll set gave NULL or `calloc` fails for the window; or its loop comes to DONE and it
  -- returns -1 with `had_error` set; or its loop comes to DONE and it returns 0, and then the end
  -- of the file is read, the window is empty and `current` stands just behind the last piece. It
  -- starts as a process that has used the sockets as it may, its `calloc` and `realloc` keep their
  -- promises, and the sequence numbers of the file leave room for a window of 2^30 below 2^32.
  pub client_main-Exits :
      (rate_ok : List ℕ → Bool) (open_for_reading : List ℕ → ℤ) (calloc : ℕ → Bool)
      (argv : List (List ℕ)) (reads : List Read) (events : List Event) (p : Process)
      → IsMemory memory
      → IsLegal p.history
      → (file_for argv reads).limit + 2 ^ 30 ≤ 2 ^ 32
      → Exits
          (Obstacle memory rate_ok open_for_reading calloc argv)
          (file_for argv reads)
          (client_main host memory number rate_ok open_for_reading calloc argv reads events p)
  unfolding args_of
  client_main-Exits rate_ok open_for_reading calloc argv reads events p law legal room =
      let f = file_for argv reads in
      let why = Obstacle memory rate_ok open_for_reading calloc argv in
      elim (Bool-cases (check_args rate_ok argv)) [
        | inr refused ↦
            subst (Exits why f)
              (sym (main_refused rate_ok open_for_reading calloc argv reads events p refused))
              (minus_one_bad, inr (inl refused))
        | inl fine ↦
            subst (Exits why f)
              (sym (main_goes rate_ok open_for_reading calloc argv reads events p fine))
              (after_start _ why _ f (after rate_ok open_for_reading calloc argv reads events p)
                (client_start host memory open_for_reading argv p) (λ cause. inr (inl cause))
                (start-Starts host memory law open_for_reading argv p legal).0
                (λ c q.
                  let args = client_args number argv calloc c in
                  let b =
                    check_args-bounds rate_ok argv calloc (to_nat c.input_file)
                      (to_nat c.socket_num) (number c.server) fine in
                  finish-Exits why f args (process_file args reads events) q
                    (λ denied. inr (inr denied))
                    (process_file-Returns args reads events b.0 b.1 b.4 (omega (arith, b.2)))))
      ]
