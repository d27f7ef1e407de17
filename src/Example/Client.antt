-- ===== src/Example/Client.antt =====
-- example/rcopy-example.c: `main` and `processFile`.
use cpe_networking_rejective.Prelude.{
  ℕ, zero, suc, ◌≡◌, refl, sym, ap, ◌∙◌, ◌≢◌, inl, inr, Bool, true, false, Option, none, some, List,
  if◌then◌else◌, Bool-cases,
}
use cpe_networking_rejective.Prelude.Int.{ℤ, pos}
use cpe_networking_rejective.CommandLine.{atoi, arg}

-- `enum State`; a C enum may hold other values as well.
pub data State : Type 0 where
  done : State
  filename : State
  recv_data : State
  file_ok : State
  start_state : State
  other : ℕ → State

-- The functions of the states: what each returns, and what it writes through its pointers.
pub record Functions (World : Type 0) : Type 0 where
  pub check_args : List (List ℕ) → Bool
  pub sendto_err_init : List ℕ → World → World
  pub calloc : World → World
  pub run_start_state : List (List ℕ) → ℕ → World → State × ℕ × World
  pub run_filename : List ℕ → ℤ → World → State × World
  pub run_file_ok : ℤ → List ℕ → World → State × ℤ × World
  pub run_recv_data : ℤ → ℕ → World → State × ℕ × World

-- The variables of `processFile`.
pub record Vars (World : Type 0) : Type 0 where
  pub state : State
  pub client_seq_num : ℕ
  pub output_file_fd : ℤ
  pub world : World

module _ {World : Type 0} (f : Functions World) (argv : List (List ℕ)) where
  -- The `switch` of the loop, for a state.
  unfoldable pub switch : State → Vars World → Vars World
  switch start_state v =
      let (s, seq_num, w) = f.run_start_state argv v.client_seq_num v.world in
      record v { state = s; client_seq_num = seq_num; world = w }
  switch filename v =
      let (s, w) = f.run_filename (arg argv 1) (atoi (arg argv 3)) v.world in
      record v { state = s; world = w }
  switch file_ok v =
      let (s, fd, w) = f.run_file_ok v.output_file_fd (arg argv 2) v.world in
      record v { state = s; output_file_fd = fd; world = w }
  switch recv_data v =
      let (s, seq_num, w) = f.run_recv_data v.output_file_fd v.client_seq_num v.world in
      record v { state = s; client_seq_num = seq_num; world = w }
  switch done v = v
  switch (other n) v = v

  abbrev pub is_done : State → Bool
  is_done done = true
  is_done filename = false
  is_done recv_data = false
  is_done file_ok = false
  is_done start_state = false
  is_done (other n) = false

  -- The loop, for a number of rounds; `none` if it has not ended by then.
  unfoldable pub loop : ℕ → Vars World → Option (Vars World)
  loop zero v = if is_done v.state then some v else none
  loop (suc rounds) v =
      let rest = loop rounds (switch v.state v) in if is_done v.state then some v else rest

  abbrev pub first_vars : World → Vars World
  first_vars w = record {
    state = start_state;
    client_seq_num = 0;
    output_file_fd = pos 0;
    world = f.calloc w;
  }

  unfoldable pub process_file : ℕ → World → Option (Vars World)
  unfolding loop switch
  process_file rounds w = loop rounds (first_vars w)

  -- `none` also if `check_args` ends the process.
  unfoldable pub main : ℕ → World → Option (Vars World)
  unfolding process_file
  main rounds w =
      if f.check_args argv then process_file rounds (f.sendto_err_init (arg argv 4) w) else none

  -- The variables after some rounds, whether or not the loop goes on so long.
  abbrev pub after : ℕ → Vars World → Vars World
  after zero v = v
  after (suc n) v = after n (switch v.state v)

  switch-other : (k : ℕ) (v : Vars World) → v.state ≡ other k → (switch v.state v) ≡ v
  unfolding switch
  switch-other k v e = rw e refl

  loop-other : (rounds k : ℕ) (v : Vars World) → v.state ≡ other k → loop rounds v ≡ none
  unfolding loop
  loop-other zero k v e = rw e refl
  loop-other (suc rounds) k v e =
      let stays = switch-other k v e in
      let later = loop-other rounds k v e in
      ap (λ x. if is_done v.state then some v else loop rounds x) stays
      ∙ ap (λ x. if is_done x then some v else loop rounds v) e
      ∙ later

  -- Once the loop is done it stays so.
  after-done : (n : ℕ) (v : Vars World) → v.state ≡ done → after n v ≡ v
  unfolding switch
  after-done zero v e = refl
  after-done (suc n) v e =
      let stays : switch v.state v ≡ v = rw e refl in ap (after n) stays ∙ after-done n v e

  is_done_sound : (s : State) → is_done s ≡ true → s ≡ done
  is_done_sound done e = refl
  is_done_sound filename e = cc
  is_done_sound recv_data e = cc
  is_done_sound file_ok e = cc
  is_done_sound start_state e = cc
  is_done_sound (other k) e = cc

  done_ne_other : (k : ℕ) → done ≢ other k
  done_ne_other k e = cc

  not_done : (n k : ℕ) (v : Vars World) → (after n v).state ≡ other k → is_done v.state ≡ false
  not_done n k v e = elim (Bool-cases (is_done v.state)) [
    | inl ended ↦
        let same = is_done_sound v.state ended in
        let stays = ap (λ (x : Vars World). x.state) (after-done n v same) in
        absurd (done_ne_other k (sym same ∙ sym stays ∙ e))
    | inr running ↦ running
  ]

  loop-reaches_other :
      (n rounds k : ℕ) (v : Vars World) → (after n v).state ≡ other k → loop rounds v ≡ none
  unfolding loop
  loop-reaches_other zero rounds k v e = loop-other rounds k v e
  loop-reaches_other (suc n) zero k v e = rw (not_done (suc n) k v e) refl
  loop-reaches_other (suc n) (suc rounds) k v e =
      rw (not_done (suc n) k v e) (loop-reaches_other n rounds k (switch v.state v) e)

  -- If in some round a state function of the example client gives a value that no case names,
  -- `processFile` does not end, however many rounds it has.
  pub process_file-other :
      (n k : ℕ) (w : World)
      → (after n (first_vars w)).state ≡ other k
      → (rounds : ℕ) → process_file rounds w ≡ none
  unfolding process_file
  process_file-other n k w e rounds = loop-reaches_other n rounds k (first_vars w) e
