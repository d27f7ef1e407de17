-- ===== src/Server/Farewell.antt =====
-- udpCode_spring26_v3/server.c: how the server's child takes its leave, in WAIT_ON_DONE.
mod Tests
use cpe_networking_rejective.Prelude.{
  ℕ, zero, suc, ◌+◌, ◌<◌, ◌≡◌, refl, inl, inr, Bool, true, false, ◌&&◌, ◌||◌, Option, none, some,
  List, [], ◌∷◌, arith, leb, ◌==◌, if◌then◌else◌, Bool-cases, length,
}
use cpe_networking_rejective.Checksum.{Checksum}
use cpe_networking_rejective.Net.{Event, timeout, arrives, received}
use cpe_networking_rejective.Packet.{check_packet, get_flag, flag_done, flag_eof}
use cpe_networking_rejective.Server.{
  ServerInfo, State, done, wait_on_done, System, max_tries, resend_last_ack, wait_on_done_state,
  process_loop,
}

module _ ⦃ck : Checksum⦄ where
  -- An intact DONE packet.
  abbrev pub is_farewell : Event → Bool
  is_farewell timeout = false
  is_farewell (arrives from bytes) =
      check_packet (received bytes) && get_flag (received bytes) == flag_done

  abbrev pub has_farewell : List Event → Bool
  has_farewell [] = false
  has_farewell (e ∷ events) = is_farewell e || has_farewell events

  abbrev pub timeouts : List Event → ℕ
  timeouts [] = 0
  timeouts (timeout ∷ events) = suc (timeouts events)
  timeouts (arrives from bytes ∷ events) = timeouts events

  -- The process is DONE, or it waits and has read all of its events.
  abbrev pub Leaves : Bool → Option (ServerInfo × (State × List Event)) → Type 0
  Leaves leaves none = ⊥
  Leaves leaves (some (info, (state, rest))) =
      (state ≡ (if leaves then done else wait_on_done)) × (leaves ≡ false → rest ≡ [])

  module _ (os : System) where
    loop-done :
        (fuel : ℕ) (info : ServerInfo) (events : List Event)
        → process_loop os fuel done info events ≡ some (info, (done, events))
    unfolding process_loop
    loop-done zero info events = refl
    loop-done (suc fuel) info events = refl

    done-Leaves :
        (fuel : ℕ) (info : ServerInfo) (events : List Event) (b : Bool)
        → b ≡ true
        → Leaves b (process_loop os fuel done info events)
    done-Leaves fuel info events b e = rw (loop-done fuel info events) (rw e (refl, λ n. cc))

    -- From WAIT_ON_DONE with fewer than ten tries used, and more rounds than events, the server's
    -- child comes to DONE exactly if an intact DONE packet is among the events or the timeouts
    -- among them, with the tries used, are ten or more; else it still waits, all events read.
    pub wait_on_done-Leaves :
        (fuel : ℕ) (info : ServerInfo) (events : List Event)
        → info.retry_count < max_tries
        → length events < fuel
        → Leaves
            (has_farewell events || leb max_tries (info.retry_count + timeouts events))
            (process_loop os fuel wait_on_done info events)
    unfolding process_loop wait_on_done_state resend_last_ack
    wait_on_done-Leaves zero info events few enough = absurd (omega arith)
    wait_on_done-Leaves (suc fuel) info [] few enough =
        let fine : leb max_tries (info.retry_count + 0) ≡ false = ground arith in
        rw fine (refl, λ n. refl)
    wait_on_done-Leaves (suc fuel) info (timeout ∷ events) few enough =
        elim (Bool-cases (leb max_tries (info.retry_count + 1))) [
          | inl last ↦ rw last (done-Leaves fuel _ events _ (ground arith))
          | inr more ↦
              let same : info.retry_count + suc (timeouts events)
                  ≡ info.retry_count + 1 + timeouts events =
                omega arith in
              rw (more, same)
                (wait_on_done-Leaves fuel
                  (resend_last_ack (record info { retry_count = info.retry_count + 1 })) events
                  (ground arith) (omega arith))
        ]
    wait_on_done-Leaves (suc fuel) info (arrives from bytes ∷ events) few enough =
        let heard : ServerInfo = record info { client = from } in
        let stays = λ (i : ServerInfo) (k : i.retry_count < max_tries).
          wait_on_done-Leaves fuel i events k (omega arith) in
        elim (Bool-cases (check_packet (received bytes))) [
          | inr damaged ↦ rw damaged (stays heard few)
          | inl intact ↦ elim (Bool-cases (get_flag (received bytes) == flag_done)) [
            | inl farewell ↦ rw intact (rw farewell (done-Leaves fuel _ events true refl))
            | inr no_farewell ↦ elim (Bool-cases (get_flag (received bytes) == flag_eof)) [
              | inl eof ↦ rw intact (rw no_farewell (rw eof (stays (resend_last_ack heard) few)))
              | inr no_eof ↦ rw intact (rw no_farewell (rw no_eof (stays heard few)))
            ]
          ]
        ]
