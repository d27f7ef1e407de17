-- ===== src/Rcopy/Rounds.antt =====
-- rcopy.c: a round of the loop of `process_file` in each state.
use cpe_networking_rejective.Prelude.{ℕ, zero, suc, ◌≡◌, refl, none, some, arith}
use cpe_networking_rejective.Checksum.{Checksum}
use cpe_networking_rejective.Rcopy.{
  RcopyInfo, Args, State, start_state, filename, send_data, wait_on_ack, send_eof, done,
  run_start_state, filename_state, send_data_state, wait_on_ack_state, send_eof_state, process_loop,
}

module _ ⦃ck : Checksum⦄ (args : Args) where
  -- A round of the loop in each state.
  pub loop_zero : (s : State) (i : RcopyInfo) → process_loop 0 args s i ≡ some (i, s)
  unfolding process_loop
  loop_zero s i = refl

  pub loop_done : (fuel : ℕ) (i : RcopyInfo) → process_loop fuel args done i ≡ some (i, done)
  unfolding process_loop
  loop_done zero i = refl
  loop_done (suc fuel) i = refl

  pub loop_start :
      (fuel : ℕ) (i : RcopyInfo)
      → process_loop (suc fuel) args start_state i
        ≡ process_loop fuel args filename (run_start_state args i).0
  unfolding process_loop run_start_state
  loop_start fuel i = refl

  pub loop_filename_none :
      (fuel : ℕ) (i : RcopyInfo)
      → filename_state args.calloc args.out_name i ≡ none
      → process_loop (suc fuel) args filename i ≡ none
  unfolding process_loop
  loop_filename_none fuel i h = ground (arith, h)

  pub loop_filename_some :
      (fuel : ℕ) (i j : RcopyInfo) (s : State)
      → filename_state args.calloc args.out_name i ≡ some (j, s)
      → process_loop (suc fuel) args filename i ≡ process_loop fuel args s j
  unfolding process_loop
  loop_filename_some fuel i j s h = ground (arith, h)

  pub loop_send_data :
      (fuel : ℕ) (i : RcopyInfo)
      → process_loop (suc fuel) args send_data i
        ≡ process_loop fuel args (send_data_state i).1 (send_data_state i).0
  unfolding process_loop
  loop_send_data fuel i = refl

  pub loop_wait_on_ack :
      (fuel : ℕ) (i : RcopyInfo)
      → process_loop (suc fuel) args wait_on_ack i
        ≡ process_loop fuel args (wait_on_ack_state i).1 (wait_on_ack_state i).0
  unfolding process_loop
  loop_wait_on_ack fuel i = refl

  pub loop_send_eof :
      (fuel : ℕ) (i : RcopyInfo)
      → process_loop (suc fuel) args send_eof i
        ≡ process_loop fuel args (send_eof_state i).1 (send_eof_state i).0
  unfolding process_loop
  loop_send_eof fuel i = refl
