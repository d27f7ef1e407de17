-- ===== src/Programs/Start.antt =====
-- udpCode_spring26_v3/rcopy.c and server.c: after `start_state` the process waits on its own socket.
use cpe_networking_rejective.Prelude.{
  ℕ, ◌≡◌, refl, sym, ◌∙◌, ◌≢◌, ◌⊎◌, inl, inr, Bool, true, false, List, ◌==◌, if◌then◌else◌,
  Bool-cases,
}
use cpe_networking_rejective.Prelude.Int.{ℤ, pos, negsuc}
use cpe_networking_rejective.Outcome.{Outcome, returns, exits}
use cpe_networking_rejective.System.{sock_dgram, History, Host, Process, Sys, go_on, is_negative}
use cpe_networking_rejective.Networks.Phases.{opened, IsLegal, LastFailed, Sound}
use cpe_networking_rejective.Networks.Calls.{In, ToPort, create_udp_socket-Sound}
use cpe_networking_rejective.Networks.Clients.{setup_udp_client_to_server-Sound}
use cpe_networking_rejective.Poll.{
  PollFd, PollSet, Memory, no_poll_set, setup_poll_set, add_to_poll_set,
}
use cpe_networking_rejective.Poll.Grow.{IsMemory, Denies, Ends}
use cpe_networking_rejective.Poll.Watched.{Watches, nothing, setup-Watches, add-Watches}
use cpe_networking_rejective.CommandLine.{atoi, arg, to_nat}
use cpe_networking_rejective.Programs.{
  lift, watch, ClientStart, open_input_file, client_start, child_start,
}

-- The set of one socket.
abbrev pub only : ℤ → ℕ → Bool
only s i = if i == to_nat s then true else nothing i

-- A start has ended well, or the process has ended with a code other than 0, after a system call that
-- failed or for a reason of `Fails`.
abbrev pub Starts : {A : Type 0} → Type 0 → (A → History → Type 0) → Outcome A × Process → Type 0
Starts Fails P (returns a, p) = IsLegal p.history × P a p.history
Starts Fails P (exits code, p) = IsLegal p.history × (code ≢ pos 0) × (LastFailed p.history ⊎ Fails)

of_Sound :
    {A : Type 0} (Fails : Type 0) (P : A → History → Type 0) (r : Outcome A × Process)
    → Sound P r
    → Starts Fails P r
of_Sound Fails P (returns a, p) h = h
of_Sound Fails P (exits code, p) (legal, (bad, failed)) = (legal, bad, inl failed)

go_on-Starts :
    {A B : Type 0} (Fails : Type 0) (P : A → History → Type 0) (Q : B → History → Type 0)
    (f : A → Sys B) (r : Outcome A × Process)
    → Starts Fails P r
    → ((a : A) (q : Process) → IsLegal q.history → P a q.history → Starts Fails Q (f a q))
    → Starts Fails Q (go_on f r)
unfolding go_on
go_on-Starts Fails P Q f (returns a, p) (legal, h) k = k a p legal h
go_on-Starts Fails P Q f (exits code, p) h k = h

negsuc_ne : {n : ℕ} → negsuc n ≢ pos 0
negsuc_ne e = cc

lift-Starts :
    (Fails : Type 0) (memory : Memory PollFd) (P : PollSet → Type 0) (K : History → Type 0)
    (r : Outcome PollSet) (p : Process)
    → (Denies memory → Fails)
    → IsLegal p.history
    → K p.history
    → Ends memory P r
    → Starts Fails (λ s history. P s × K history) (lift r p)
lift-Starts Fails memory P K (returns s) p why legal k h = (legal, (h, k))
lift-Starts Fails memory P K (exits code) p why legal k (e, denied) =
    (legal, (λ z. negsuc_ne (sym e ∙ z)), inr (why denied))

-- What `start_state` of the client gives for the port.
abbrev pub Ready : ℤ → ClientStart → History → Type 0
Ready port c history =
    (is_negative c.input_file ≡ false)
    × In (opened sock_dgram) c.socket_num history
    × ToPort port c.server
    × Watches (only c.socket_num) c.poll_set

-- No memory, or no such file.
abbrev pub Cause : Memory PollFd → ℤ → Type 0
Cause memory file = Denies memory ⊎ (is_negative file ≡ true)

module _ (host : Host) (memory : Memory PollFd) (law : IsMemory memory) where
  watch-Starts :
      (Fails : Type 0) (K : History → Type 0) (s : ℤ) (p : Process)
      → (Denies memory → Fails)
      → IsLegal p.history
      → K p.history
      → Starts Fails
          (λ set_of_one history. Watches (only s) set_of_one × K history)
          (watch host memory s p)
  watch-Starts Fails K s p why legal k =
      go_on-Starts Fails (λ fresh history. Watches nothing fresh × K history) _ _ _
        (lift-Starts Fails memory (Watches nothing) K (setup_poll_set memory no_poll_set) p why
          legal k (setup-Watches memory law))
        (λ fresh q l h.
          lift-Starts Fails memory (Watches (only s)) K (add_to_poll_set memory (to_nat s) fresh) q
            why l h.1 (add-Watches memory law (to_nat s) nothing fresh h.0))

  child_start-Starts :
      (p : Process)
      → IsLegal p.history
      → Starts
          (Denies memory)
          (λ r history. In (opened sock_dgram) r.0 history × Watches (only r.0) r.1)
          (child_start host memory p)
  unfolding child_start
  child_start-Starts p legal =
      go_on-Starts (Denies memory) (In (opened sock_dgram)) _ _ _
        (of_Sound (Denies memory) _ _ (create_udp_socket-Sound host p legal))
        (λ s q l h.
          go_on-Starts (Denies memory)
            (λ u history. Watches (only s) u × In (opened sock_dgram) s history) _ _ _
            (watch-Starts (Denies memory) (In (opened sock_dgram) s) s q (λ d. d) l h)
            (λ u q2 l2 k. (l2, (k.1, k.0))))

  open_input_file-Starts :
      (open_for_reading : List ℕ → ℤ) (name : List ℕ) (p : Process)
      → IsLegal p.history
      → Starts
          (Cause memory (open_for_reading name))
          (λ file history. is_negative file ≡ false)
          (lift (open_input_file open_for_reading name) p)
  unfolding open_input_file
  open_input_file-Starts open_for_reading name p legal =
      elim (Bool-cases (is_negative (open_for_reading name))) [
        | inl missing ↦ rw missing (legal, negsuc_ne, inr (inr refl))
        | inr there ↦ rw there (legal, there)
      ]

  client_start-Starts :
      (open_for_reading : List ℕ → ℤ) (argv : List (List ℕ)) (p : Process)
      → IsLegal p.history
      → Starts
          (Cause memory (open_for_reading (arg argv 1)))
          (Ready (atoi (arg argv 7)))
          (client_start host memory open_for_reading argv p)
  unfolding client_start
  client_start-Starts open_for_reading argv p legal =
      let port = atoi (arg argv 7) in
      let Fails = Cause memory (open_for_reading (arg argv 1)) in
      go_on-Starts Fails (λ file history. is_negative file ≡ false) _ _ _
        (open_input_file-Starts open_for_reading (arg argv 1) p legal)
        (λ file q l up.
          go_on-Starts Fails (λ r history. In (opened sock_dgram) r.0 history × ToPort port r.1) _ _
            _ (of_Sound Fails _ _ (setup_udp_client_to_server-Sound host (arg argv 6) port q l))
            (λ r q2 l2 h.
              go_on-Starts Fails
                (λ u history. Watches (only r.0) u × In (opened sock_dgram) r.0 history) _ _ _
                (watch-Starts Fails (In (opened sock_dgram) r.0) r.0 q2 (λ d. inl d) l2 h.0)
                (λ u q3 l3 k. (l3, (up, k.1, (h.1.0, refl), k.0)))))

  -- The two `start_state`, from a process that has used the sockets as it may, with a `calloc` that
  -- gives zeros and a `realloc` that keeps the entries. Each returns with a new datagram socket and
  -- a poll set that watches this socket and no other, or ends the process with a code other than 0
  -- after a system call that failed or an allocation that gave NULL. The client's returns with an
  -- input file that was opened and the address of its server with the port of argv[7], modulo 2^16;
  -- it ends the process also if the file does not open.
  pub start-Starts :
      (open_for_reading : List ℕ → ℤ) (argv : List (List ℕ)) (p : Process)
      → IsLegal p.history
      → Starts
          (Cause memory (open_for_reading (arg argv 1)))
          (Ready (atoi (arg argv 7)))
          (client_start host memory open_for_reading argv p)
        × Starts
            (Denies memory)
            (λ r history. In (opened sock_dgram) r.0 history × Watches (only r.0) r.1)
            (child_start host memory p)
  start-Starts open_for_reading argv p legal =
      (client_start-Starts open_for_reading argv p legal, child_start-Starts p legal)
