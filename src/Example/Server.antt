-- ===== src/Example/Server.antt =====
-- example/server-example.c: `main`, `process_server` and `process_client`.
use cpe_networking_rejective.Prelude.{
  ℕ, zero, suc, ◌+◌, ◌≡◌, refl, ap, ◌∙◌, ◌⊎◌, inl, inr, Bool, true, false, Option, none, some, List,
  [], ◌∷◌, arith, ◌==◌, if◌then◌else◌, Bool-cases, length, take,
}
use cpe_networking_rejective.Prelude.Int.{ℤ, pos, negsuc}
use cpe_networking_rejective.Outcome.{Outcome}
use cpe_networking_rejective.System.{Host, Sys, pure, ◌>>=◌}
use cpe_networking_rejective.Networks.{udp_server_setup}

-- `enum State`; a C enum may hold other values as well.
pub data State : Type 0 where
  start : State
  done : State
  filename : State
  send_data : State
  wait_on_ack : State
  timeout_on_ack : State
  wait_on_eof_ack : State
  timeout_on_eof_ack : State
  other : ℕ → State

-- What `recv_buf` brings: its value, the bytes of `buf`, and the client.
pub record Request : Type 0 where
  pub recv_len : ℤ
  pub buf : List ℕ
  pub client : ℕ

-- How `process_server` stands after a number of requests: the children that it has started, and if it
-- waits for the next request or a `fork` has failed.
pub record Parent : Type 0 where
  pub children : List Request
  pub waits : Bool

-- `is_crc_error` is the test `recv_len == CRC_ERROR`, whose number the file does not hold; `fork n` is
-- what `fork` returns when there are `n` children. The child runs `process_client` on the request.
module _ (is_crc_error : ℤ → Bool) (fork : ℕ → ℤ) where
  unfoldable pub process_server : ℕ → List Request → Parent
  process_server count [] = record { children = []; waits = true }
  process_server count (request ∷ later) =
      let others = process_server count later in
      let after = process_server (count + 1) later in
      if is_crc_error request.recv_len then others else elim (fork count) [
        | pos pid ↦ record after { children = request ∷ after.children }
        | negsuc n ↦ record { children = []; waits = false }
      ]

  -- The requests that came without a CRC error.
  abbrev pub intact : List Request → List Request
  intact [] = []
  intact (request ∷ later) =
      if is_crc_error request.recv_len then intact later else request ∷ intact later

  -- How often `fork` succeeds in a row, from `count` children on, at most `n` times.
  abbrev pub forks_from : ℕ → ℕ → ℕ
  forks_from count zero = 0
  forks_from count (suc n) = elim (fork count) [
    | pos pid ↦ suc (forks_from (count + 1) n)
    | negsuc m ↦ 0
  ]

  fork-cases : (z : ℤ) → ((n : ℕ) × (z ≡ pos n)) ⊎ ((n : ℕ) × (z ≡ negsuc n))
  fork-cases (pos n) = inl (n, refl)
  fork-cases (negsuc n) = inr (n, refl)

  -- The children that `process_server` of the example has started are for the requests without a
  -- CRC error, in order and one for each, up to the first `fork` that fails; it goes on waiting
  -- exactly if no `fork` failed.
  pub process_server-intact :
      (count : ℕ) (requests : List Request)
      → let sound = intact requests in
        let n = forks_from count (length sound) in
        let parent = process_server count requests in
        (parent.children ≡ take n sound) × (parent.waits ≡ (n == length sound))
  unfolding process_server
  process_server-intact count [] = (refl, refl)
  process_server-intact count (request ∷ later) =
      elim (Bool-cases (is_crc_error request.recv_len)) [
        | inl damaged ↦ rw damaged (process_server-intact count later)
        | inr whole ↦ elim (fork-cases (fork count)) [
          | inl (pid, e) ↦ rw whole (
              rw e (
                let ih = process_server-intact (count + 1) later in
                (ap (◌∷◌ request) ih.0, ih.1 ∙ ground arith)))
          | inr (n, e) ↦ rw whole (rw e (refl, ground arith))
        ]
      ]

-- The functions of the states, and START_SEQ_NUM: what each function returns, and what it writes
-- through its pointers.
pub record Functions (World : Type 0) : Type 0 where
  pub start_seq_num : ℕ
  pub run_filename : List ℕ → ℤ → ℤ → ℤ → World → State × ℤ × ℤ × World
  pub run_send_data : List ℕ → ℤ → ℤ → ℤ → ℕ → World → State × List ℕ × ℤ × ℕ × World
  pub run_wait_on_ack : World → State × World
  pub run_timeout_on_ack : List ℕ → ℤ → World → State × World
  pub run_wait_on_eof_ack : World → State × World
  pub run_timeout_on_eof_ack : List ℕ → ℤ → World → State × World

-- The variables of `process_client`; `packet` starts with what the stack held.
pub record Vars (World : Type 0) : Type 0 where
  pub state : State
  pub data_file : ℤ
  pub packet_len : ℤ
  pub packet : List ℕ
  pub buf_size : ℤ
  pub seq_num : ℕ
  pub world : World

module _ {World : Type 0} (f : Functions World) (request : Request) where
  -- The `switch` of the loop, for a state.
  unfoldable pub switch : State → Vars World → Vars World
  switch start v = record v { state = filename }
  switch filename v =
      let (s, file, size, w) =
        f.run_filename request.buf request.recv_len v.data_file v.buf_size v.world in
      record v { state = s; data_file = file; buf_size = size; world = w }
  switch send_data v =
      let (s, sent, sent_len, next, w) =
        f.run_send_data v.packet v.packet_len v.data_file v.buf_size v.seq_num v.world in
      record v { state = s; packet = sent; packet_len = sent_len; seq_num = next; world = w }
  switch wait_on_ack v = let (s, w) = f.run_wait_on_ack v.world in record v { state = s; world = w }
  switch timeout_on_ack v =
      let (s, w) = f.run_timeout_on_ack v.packet v.packet_len v.world in
      record v { state = s; world = w }
  switch wait_on_eof_ack v =
      let (s, w) = f.run_wait_on_eof_ack v.world in record v { state = s; world = w }
  switch timeout_on_eof_ack v =
      let (s, w) = f.run_timeout_on_eof_ack v.packet v.packet_len v.world in
      record v { state = s; world = w }
  switch done v = v
  switch (other n) v = record v { state = done }

  abbrev pub is_done : State → Bool
  is_done done = true
  is_done start = false
  is_done filename = false
  is_done send_data = false
  is_done wait_on_ack = false
  is_done timeout_on_ack = false
  is_done wait_on_eof_ack = false
  is_done timeout_on_eof_ack = false
  is_done (other n) = false

  -- The loop, for a number of rounds; `none` if it has not ended by then.
  unfoldable pub loop : ℕ → Vars World → Option (Vars World)
  loop zero v = if is_done v.state then some v else none
  loop (suc rounds) v =
      let rest = loop rounds (switch v.state v) in if is_done v.state then some v else rest

  unfoldable pub process_client : List ℕ → ℕ → World → Option (Vars World)
  unfolding loop switch
  process_client stack rounds w = loop rounds (record {
    state = start;
    data_file = pos 0;
    packet_len = pos 0;
    packet = stack;
    buf_size = pos 0;
    seq_num = f.start_seq_num;
    world = w;
  })

-- `processArgs` is not in the file: it gives the port or exits. `sendtoErr_init` only sets up the
-- faults of the network.
module _ (is_crc_error : ℤ → Bool) (fork : ℕ → ℤ) (host : Host) where
  unfoldable pub main : (List (List ℕ) → Outcome ℤ) → List (List ℕ) → List Request → Sys Parent
  unfolding udp_server_setup process_server
  main process_args argv requests = do
    port_number ← (λ p. (process_args argv, p))
    server_socket_number ← udp_server_setup host port_number
    pure (process_server is_crc_error fork 0 requests)
