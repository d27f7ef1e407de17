-- ===== src/Server/Catch.antt =====
-- server.c: receiving catches up with what the network brings, in RECV_DATA.
use cpe_networking_rejective.Prelude.{
  ℕ, suc, ◌+◌, ◌≤◌, ◌<◌, ◌≡◌, refl, subst, ap, ◌∙◌, ◌≢◌, ◌⊎◌, inl, inr, Bool, true, false, not,
  ◌&&◌, Option, none, some, List, [], ◌∷◌, ◌++◌, arith, ℕ_discrete, ◌==◌, if◌then◌else◌, Bool-cases,
  length, drop, All,
}
use cpe_networking_rejective.Checksum.{Checksum}
use cpe_networking_rejective.Net.{Event, timeout, arrives, received}
use cpe_networking_rejective.Packet.{
  srej_header_len, flag_data, flag_eof, get_flag, get_seq, check_packet,
}
use cpe_networking_rejective.Upload.{RefusesPiece, Upload, IsGenuine}
use cpe_networking_rejective.Buffer.Ready.{IsFull}
use cpe_networking_rejective.Server.{
  ServerInfo, State, recv_data, System, handle_data_packet, recv_data_state, process_loop,
}
use cpe_networking_rejective.Server.Delivery.{IsDelivering}
use cpe_networking_rejective.Server.Receive.{handle_data_packet-Continues}
use cpe_networking_rejective.Server.Handle.{Continues}
use cpe_networking_rejective.Server.Progress.{handle_data_packet_advances}
use cpe_networking_rejective.Server.Branches.{after_piece, recv_bad, recv_piece, recv_noise}
use cpe_networking_rejective.Server.Process.{
  AreGenuine, check_packet-long, loop_recv_some, loop_recv_none,
}

module _ ⦃ck : Checksum⦄ where
  -- An intact needed packet with the number `p`.
  abbrev pub is_piece : ℕ → List ℕ → Bool
  is_piece p packet = check_packet packet && (get_flag packet == flag_data && get_seq packet == p)

  -- The number that is missing next, after the events have brought what was missing, one by one.
  abbrev pub next_missing : ℕ → List Event → ℕ
  next_missing p [] = p
  next_missing p (timeout ∷ events) = next_missing p events
  next_missing p (arrives from bytes ∷ events) =
      next_missing (if is_piece p (received bytes) then suc p else p) events

  -- Something arrives, and no intact EOF.
  abbrev pub is_calm : Event → Bool
  is_calm timeout = false
  is_calm (arrives from bytes) =
      not (check_packet (received bytes) && get_flag (received bytes) == flag_eof)

  module _ (os : System) where
    -- The process has exited after a `write` that failed for a piece of the file.
    abbrev pub HasFailed : Upload → {A : Type 0} → Option A → Type 0
    HasFailed f r = (r ≡ none) × RefusesPiece os.write f

  module _ (os : System) (full : IsFull os.write) (f : Upload) where
    -- Receiving goes on, with `expected` at least `p`.
    abbrev Reaches : ℕ → Option (ServerInfo × State) → Type 0
    Reaches p r =
        HasFailed os f r
        ⊎ ((info : ServerInfo) × (r ≡ some (info, recv_data))
            × IsDelivering f info.buffer
            × (p ≤ info.buffer.expected))

    after_piece-Reaches :
        (info : ServerInfo) (r : Option ServerInfo) (p : ℕ)
        → Continues os f info r
        → ((i : ServerInfo)
            → r ≡ some i
            → info.buffer.expected ≤ i.buffer.expected
            → p ≤ i.buffer.expected)
        → Reaches p (after_piece r)
    after_piece-Reaches info none p (inl (e, failed)) h = inl (refl, failed)
    after_piece-Reaches info none p (inr (i, e, d, m)) h = cc
    after_piece-Reaches info (some i) p (inl (e, failed)) h = cc
    after_piece-Reaches info (some i) p (inr (j, e, d, m)) h =
        let same : j ≡ i = ground (arith, e) in
        inr (
          i,
          refl,
          subst (λ (x : ServerInfo). IsDelivering f x.buffer) same d,
          h i refl (omega (arith, ap (λ (x : ServerInfo). x.buffer.expected) same, m)),
        )

    piece_taken :
        (info : ServerInfo) (packet : List ℕ) (p : ℕ)
        → IsDelivering f info.buffer
        → check_packet packet ≡ true
        → get_flag packet ≡ flag_data
        → (get_seq packet < f.limit) × (drop srej_header_len packet ≡ f.chunk (get_seq packet))
        → p ≤ info.buffer.expected
        → Reaches
            (if get_seq packet == p then suc p else p)
            (after_piece (handle_data_packet os info packet))
    piece_taken info packet p d good flag g low =
        let long = check_packet-long packet good in
        after_piece-Reaches info (handle_data_packet os info packet)
          (if get_seq packet == p then suc p else p)
          (handle_data_packet-Continues os full f info packet d long g.0 g.1)
          (λ i e kept. elim (ℕ_discrete (get_seq packet) info.buffer.expected) [
            | yes at ↦
                let more =
                  handle_data_packet_advances os full f info packet i d long at g.0 g.1 e in
                ground (arith, more, low)
            | no ne ↦ ground (arith, kept, low, ne)
          ])

    event_taken :
        (info : ServerInfo) (from : ℕ) (bytes : List ℕ) (p : ℕ)
        → IsDelivering f info.buffer
        → IsGenuine f (received bytes)
        → is_calm (arrives from bytes) ≡ true
        → p ≤ info.buffer.expected
        → Reaches
            (if is_piece p (received bytes) then suc p else p)
            (recv_data_state os info (arrives from bytes))
    event_taken info from bytes p d g calm low =
        let packet = received bytes in
        let heard : ServerInfo = record info { client = from } in
        elim (Bool-cases (check_packet packet)) [
          | inr bad ↦ rw (recv_bad os info from bytes bad, bad) (inr (heard, refl, d, low))
          | inl good ↦ elim (ℕ_discrete (get_flag packet) flag_data) [
            | yes flag ↦
                let same : is_piece p packet ≡ (get_seq packet == p) = ground (arith, good, flag) in
                rw
                  (recv_piece os info from bytes (handle_data_packet os heard packet) good flag
                    refl)
                  (rw same (piece_taken heard packet p d good flag (g good flag) low))
            | no other ↦
                let none_here : is_piece p packet ≡ false = ground (arith, good, other) in
                let no_eof : get_flag packet ≢ flag_eof = λ eof. ground (arith, calm, good, eof) in
                rw (recv_noise os info from bytes good other no_eof)
                  (rw none_here (inr (heard, refl, d, low)))
          ]
        ]

    -- The events of `needed` are taken one by one, and `rest` stays.
    abbrev pub Catches : ℕ → ℕ → List Event → Option (ServerInfo × (State × List Event)) → Type 0
    Catches p fuel rest r =
        HasFailed os f r
        ⊎ ((i : ServerInfo) × (r ≡ process_loop os fuel recv_data i rest)
            × IsDelivering f i.buffer
            × (p ≤ i.buffer.expected))

    pub loop-Catches :
        (p fuel : ℕ) (info : ServerInfo) (needed rest : List Event)
        → IsDelivering f info.buffer
        → AreGenuine f needed
        → All (λ e. is_calm e ≡ true) needed
        → p ≤ info.buffer.expected
        → Catches
            (next_missing p needed)
            fuel
            rest
            (process_loop os (length needed + fuel) recv_data info (needed ++ rest))
    loop-Catches p fuel info [] rest d g calm low =
        let rounds : 0 + fuel ≡ fuel = omega arith in rw rounds (inr (info, refl, d, low))
    loop-Catches p fuel info (timeout ∷ needed) rest d g calm low = absurd (ground (arith, calm.0))
    loop-Catches p fuel info (arrives from bytes ∷ needed) rest d g calm low =
        let e = arrives from bytes in
        let rounds : length (e ∷ needed) + fuel ≡ suc (length needed + fuel) = omega arith in
        elim (event_taken info from bytes p d g.0 calm.0 low) [
          | inl (q, failed) ↦ inl (
            ap (λ n. process_loop os n recv_data info (e ∷ needed ++ rest)) rounds
                ∙ loop_recv_none os (length needed + fuel) info e (needed ++ rest) q,
            failed,
          )
          | inr (i, q, d', low') ↦
              rw
                (
                  rounds,
                  loop_recv_some os (length needed + fuel) info i e (needed ++ rest) recv_data q,
                )
                (loop-Catches (if is_piece p (received bytes) then suc p else p) fuel i needed rest
                  d' g.1 calm.1 low')
        ]
