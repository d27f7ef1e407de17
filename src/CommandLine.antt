-- ===== src/CommandLine.antt =====
-- udpCode_spring26_v3/rcopy.c (`check_args`, `check_number_args`) and server.c (`process_args`): the
-- command lines.
-- A string is the list of its bytes without the NUL; `argv` holds argv[0] to argv[argc - 1]. False and
-- `none` stand for an `exit(-1)`. A `double` is only compared with 0 and 1: `rate_ok` tells if `atof`
-- gives a number of [0, 1] for a string.
mod Tests
use cpe_networking_rejective.Prelude.{
  ℕ, zero, suc, ◌+◌, ◌-◌, ◌*◌, ◌^◌, ◌≤◌, ◌<◌, ◌≡◌, Bool, true, false, not, ◌&&◌, ◌||◌, Option, none,
  some, List, [], ◌∷◌, arith, ltb, leb, ◌==◌, if◌then◌else◌, length, get_or,
}
use cpe_networking_rejective.Prelude.Int.{ℤ, pos, negsuc}
use cpe_networking_rejective.Packet.{srej_max_data, srej_max_name}
use cpe_networking_rejective.Rcopy.{Args}

-- The digits at the front of a string.
unfoldable pub digits : ℕ → List ℕ → ℕ
digits value [] = value
digits value (c ∷ cs) =
    let rest = digits (10 * value + (c - 48)) cs in if leb 48 c && leb c 57 then rest else value

unfoldable pub negative : ℕ → ℤ
negative zero = pos 0
negative (suc n) = negsuc n

unfoldable pub signed : List ℕ → ℤ
unfolding digits negative
signed [] = pos 0
signed (c ∷ cs) =
    if c == 45
    then negative (digits 0 cs)
    else if c == 43
    then pos (digits 0 cs)
    else pos (digits 0 (c ∷ cs))

-- The C library's `atoi`: blanks, a sign, digits. (What it gives beyond an `int` is undefined in C.)
unfoldable pub atoi : List ℕ → ℤ
unfolding signed
atoi [] = pos 0
atoi (c ∷ cs) =
    let rest = atoi cs in if c == 32 || (leb 9 c && leb c 13) then rest else signed (c ∷ cs)

-- `number <= 0` and `number >= bound`.
unfoldable pub is_positive : ℤ → Bool
is_positive (pos n) = ltb 0 n
is_positive (negsuc n) = false

unfoldable pub is_below : ℤ → ℕ → Bool
is_below (pos n) bound = ltb n bound
is_below (negsuc n) bound = true

-- A number that is not negative.
unfoldable pub to_nat : ℤ → ℕ
to_nat (pos n) = n
to_nat (negsuc n) = 0

abbrev pub arg : List (List ℕ) → ℕ → List ℕ
arg argv i = get_or argv i []

module _ (rate_ok : List ℕ → Bool) where
  unfoldable pub check_number_args : List (List ℕ) → Bool
  check_number_args argv =
      let window_size = atoi (arg argv 3) in
      let buffer_size = atoi (arg argv 4) in
      if not (is_positive window_size) || not (is_below window_size 1073741824)
      then false
      else if not (is_positive buffer_size) || not (is_below buffer_size (srej_max_data + 1))
      then false
      else rate_ok (arg argv 5)

  unfoldable pub check_args : List (List ℕ) → Bool
  unfolding check_number_args
  check_args argv =
      if not (length argv == 8)
      then false
      else if ltb srej_max_name (length (arg argv 1)) || ltb srej_max_name (length (arg argv 2))
      then false
      else check_number_args argv

  -- The port that the server is to use; 0 lets the system choose.
  unfoldable pub process_args : List (List ℕ) → Option ℤ
  process_args argv =
      if ltb (length argv) 2 || ltb 3 (length argv)
      then none
      else if not (rate_ok (arg argv 1))
      then none
      else if length argv == 3
      then some (atoi (arg argv 2))
      else some (pos 0)

-- What `start_state` of rcopy.c takes of its command line.
unfoldable pub args_of : List (List ℕ) → (ℕ → Bool) → ℕ → ℕ → ℕ → Args
args_of argv calloc input_file socket_num server = record {
  calloc = calloc;
  out_name = arg argv 2;
  window_size = to_nat (atoi (arg argv 3));
  buffer_size = to_nat (atoi (arg argv 4));
  input_file = input_file;
  socket_num = socket_num;
  server = server;
}

positive_nat :
    (z : ℤ) (bound : ℕ)
    → is_positive z ≡ true
    → is_below z bound ≡ true
    → (0 < to_nat z) × (to_nat z < bound)
unfolding is_positive is_below to_nat
positive_nat (pos n) bound h k = ground (arith, h, k)
positive_nat (negsuc n) bound h k = cc

-- A command line that passes `check_args` gives `start_state` an output name of at most 100 bytes,
-- a window size from 1 to 2^30 - 1 and a buffer size from 1 to 1400.
pub check_args-bounds :
    (rate_ok : List ℕ → Bool) (argv : List (List ℕ)) (calloc : ℕ → Bool)
    (input_file socket_num server : ℕ)
    → check_args rate_ok argv ≡ true
    → let args = args_of argv calloc input_file socket_num server in
      (length args.out_name ≤ srej_max_name)
      × (0 < args.window_size)
      × (args.window_size < 2 ^ 30)
      × (0 < args.buffer_size)
      × (args.buffer_size ≤ srej_max_data)
unfolding check_args check_number_args args_of
check_args-bounds rate_ok argv calloc input_file socket_num server h =
    let w = atoi (arg argv 3) in
    let b = atoi (arg argv 4) in
    let pw : is_positive w ≡ true = ground (arith, h) in
    let bw : is_below w 1073741824 ≡ true = ground (arith, h) in
    let pb : is_positive b ≡ true = ground (arith, h) in
    let bb : is_below b (srej_max_data + 1) ≡ true = ground (arith, h) in
    let size = positive_nat w 1073741824 pw bw in
    let len = positive_nat b (srej_max_data + 1) pb bb in
    (ground (arith, h), size.0, omega (arith, size.1), len.0, omega (arith, len.1))
