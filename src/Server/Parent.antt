-- ===== src/Server/Parent.antt =====
-- server.c: the parent process, and the setup packet from the client to the child.
mod Tests
use cpe_networking_rejective.Prelude.{
  ℕ, zero, suc, ◌+◌, ◌-◌, ◌^◌, ◌≤◌, ◌<◌, ◌≡◌, refl, ap, ◌∙◌, Bool, true, false, ◌&&◌, List, [], ◌∷◌,
  ◌++◌, append_assoc, arith, ◌==◌, if◌then◌else◌, ==_true, length, drop, replicate, All,
  length-append, take-all, All-append, Bytes,
}
use cpe_networking_rejective.Prelude.Int.{ℤ, pos, negsuc}
use cpe_networking_rejective.Checksum.{Checksum}
use cpe_networking_rejective.Net.{received}
use cpe_networking_rejective.Packet.{
  srej_max_name, srej_max_packet, flag_filename, write_u32, read_u32, get_flag, make_packet,
  check_packet,
}
use cpe_networking_rejective.Packet.Fields.{read_u32-write_u32, write_u32-Bytes}
use cpe_networking_rejective.Packet.RoundTrip.{
  check_packet-make_packet, get_flag-make_packet, length_bounds,
}
use cpe_networking_rejective.Server.{c_string}
use cpe_networking_rejective.Server.Transfer.{setup_payload}
use cpe_networking_rejective.Rcopy.{RcopyInfo, setup_packet}

-- The children that the handler of SIGCHLD has waited for, by what `waitpid` answers call by call.
unfoldable pub handle_zombies : List ℤ → List ℕ
handle_zombies [] = []
handle_zombies (pos zero ∷ later) = []
handle_zombies (pos (suc n) ∷ later) = suc n ∷ handle_zombies later
handle_zombies (negsuc n ∷ later) = []

module _ ⦃ck : Checksum⦄ where
  -- The `while (1)` loop over the datagrams that arrive, each with the address of its sender: the
  -- children that are started, each by its first packet and its client. `fork n` tells if the call
  -- succeeds when there are `n` children; if not, the parent exits and the children stay.
  unfoldable pub process_server : (ℕ → Bool) → ℕ → List (ℕ × List ℕ) → List (List ℕ × ℕ)
  process_server fork count [] = []
  process_server fork count ((from, data_in) ∷ later) =
      let packet = received data_in in
      let others = process_server fork count later in
      let after = process_server fork (count + 1) later in
      if check_packet packet && get_flag packet == flag_filename
      then if fork count then (packet, from) ∷ after else []
      else others

  c_string_name :
      (name rest : List ℕ) → All (λ c. 0 < c) name → c_string (name ++ (0 ∷ rest)) ≡ name
  c_string_name [] rest h = refl
  c_string_name (c ∷ cs) rest h =
      let other : (c == 0) ≡ false = ground (arith, h.0) in
      rw (other, c_string_name cs rest h.1) refl

  -- The zeros after the packet in `first_packet`.
  abbrev padding : List ℕ → RcopyInfo → List ℕ
  padding name info = replicate (srej_max_packet - length (setup_packet name info)) 0

  setup_payload-eq :
      (name : List ℕ) (info : RcopyInfo)
      → setup_payload (setup_packet name info)
        ≡ write_u32 info.window_size
          ++ (write_u32 info.buffer_size ++ (name ++ (0 ∷ padding name info)))
  unfolding make_packet write_u32
  setup_payload-eq name info =
      let pad = padding name info in
      let body = write_u32 info.window_size ++ (write_u32 info.buffer_size ++ (name ++ (0 ∷ []))) in
      let whole =
        take-all (length name + 1 + 8) body (omega (arith, length-append name (0 ∷ []))) in
      ap (λ x. x ++ pad) whole
      ∙ ap (λ x. write_u32 info.window_size ++ (write_u32 info.buffer_size ++ x))
          (append_assoc name (0 ∷ []) pad)

  drop_u32 :
      (value n : ℕ) (rest : List ℕ)
      → drop (suc (suc (suc (suc n)))) (write_u32 value ++ rest) ≡ drop n rest
  unfolding write_u32
  drop_u32 value n rest = refl

  -- Of the setup packet that a client makes of its sizes, below 2^32, and a name without NUL, the
  -- child process of the server reads the same window size, buffer size and file name.
  pub setup_packet-read :
      (name : List ℕ) (info : RcopyInfo)
      → All (λ c. 0 < c) name
      → info.window_size < 2 ^ 32
      → info.buffer_size < 2 ^ 32
      → let payload = setup_payload (setup_packet name info) in
        (read_u32 payload ≡ info.window_size)
        × (read_u32 (drop 4 payload) ≡ info.buffer_size)
        × (c_string (drop 8 payload) ≡ name)
  setup_packet-read name info nul small_window small_buffer =
      let pad = padding name info in
      let named = name ++ (0 ∷ pad) in
      let sized = write_u32 info.buffer_size ++ named in
      let e = setup_payload-eq name info in
      (
        ap read_u32 e ∙ read_u32-write_u32 info.window_size sized small_window,
        ap (λ x. read_u32 (drop 4 x)) e
            ∙ ap read_u32 (drop_u32 info.window_size 0 sized)
            ∙ read_u32-write_u32 info.buffer_size named small_buffer,
        ap (λ x. c_string (drop 8 x)) e
            ∙ ap c_string (drop_u32 info.window_size 4 sized ∙ drop_u32 info.buffer_size 0 named)
            ∙ c_string_name name pad nul,
      )

  -- When the setup packet of a client, with a name of at most 100 bytes, arrives at the parent
  -- process and `fork` succeeds, a child is started with this packet and the sender's address, and
  -- the parent goes on with the datagrams after it.
  pub process_server-setup_packet :
      (fork : ℕ → Bool) (count : ℕ) (name : List ℕ) (info : RcopyInfo) (from : ℕ)
      (later : List (ℕ × List ℕ))
      → Bytes name
      → length name ≤ srej_max_name
      → fork count ≡ true
      → process_server fork count ((from, setup_packet name info) ∷ later)
        ≡ (setup_packet name info, from) ∷ process_server fork (count + 1) later
  unfolding process_server
  process_server-setup_packet fork count name info from later h le forks =
      let p = setup_packet name info in
      let n = length name + 1 + 8 in
      let body = write_u32 info.window_size ++ (write_u32 info.buffer_size ++ (name ++ (0 ∷ []))) in
      let body-Bytes =
        All-append (λ b. b < 256) (write_u32 info.window_size) _ (write_u32-Bytes info.window_size)
          (All-append (λ b. b < 256) (write_u32 info.buffer_size) _
            (write_u32-Bytes info.buffer_size)
            (All-append (λ b. b < 256) name (0 ∷ []) h (omega arith, tt))) in
      let good =
        check_packet-make_packet info.control_seq flag_filename body n (omega arith) body-Bytes
          (omega arith) in
      let flag = get_flag-make_packet info.control_seq flag_filename body n in
      let whole : received p ≡ p =
        take-all srej_max_packet p
          (omega (arith, length_bounds info.control_seq flag_filename body n)) in
      let is_setup = ==_true (get_flag p) flag_filename flag in
      rw (whole, good, is_setup, forks) refl
