-- ===== src/CommandLine/Tests.antt =====
-- Command lines of rcopy and server.
use cpe_networking_rejective.Prelude.{
  ℕ, ◌^◌, ◌≤◌, ◌<◌, ◌≡◌, refl, true, some, List, [], ◌∷◌, length,
}
use cpe_networking_rejective.Prelude.Int.{pos, negsuc}
use cpe_networking_rejective.Packet.{srej_max_data, srej_max_name}
use cpe_networking_rejective.CommandLine.{
  digits, negative, signed, atoi, is_positive, is_below, check_number_args, check_args,
  check_args-bounds, args_of, process_args,
}

-- rcopy a b 10 1000 0 h 5: the strings of the arguments.
abbrev line : List (List ℕ)
line =
    (114 ∷ [])
    ∷ (97 ∷ [])
    ∷ (98 ∷ [])
    ∷ (49 ∷ 48 ∷ [])
    ∷ (49 ∷ 48 ∷ 48 ∷ 48 ∷ [])
    ∷ (48 ∷ [])
    ∷ (104 ∷ [])
    ∷ (53 ∷ [])
    ∷ []

line_passes : check_args (λ rate. true) line ≡ true
unfolding check_args check_number_args atoi signed digits is_positive is_below
line_passes = refl

check_args-bounds_example :
    let args = args_of line (λ n. true) 4 5 9 in
    (length args.out_name ≤ srej_max_name)
    × (0 < args.window_size)
    × (args.window_size < 2 ^ 30)
    × (0 < args.buffer_size)
    × (args.buffer_size ≤ srej_max_data)
check_args-bounds_example = check_args-bounds (λ rate. true) line (λ n. true) 4 5 9 line_passes

-- " -12x" is -12.
negative_number : atoi (32 ∷ 45 ∷ 49 ∷ 50 ∷ 120 ∷ []) ≡ negsuc 11
unfolding atoi signed digits negative
negative_number = refl

server_port :
    process_args (λ rate. true) ((115 ∷ []) ∷ (48 ∷ []) ∷ (52 ∷ 55 ∷ []) ∷ []) ≡ some (pos 47)
unfolding process_args atoi signed digits
server_port = refl
