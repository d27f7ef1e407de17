-- ===== src/Poll/Tests.antt =====
-- Evaluations of the definitions of Poll.antt, and the theorems on them at concrete inputs.
use cpe_networking_rejective.Prelude.{
  ℕ, ◌≡◌, refl, subst, ◌⊎◌, Bool, none, some, List, [], ◌∷◌, ◌++◌, arith, ◌==◌, replicate,
}
use cpe_networking_rejective.Prelude.Int.{pos}
use cpe_networking_rejective.Poll.Manual.{plenty, plenty-IsMemory, manual_poll, manual_poll-IsPoll}
use cpe_networking_rejective.Outcome.{returns, exits, ◌>>=◌, minus_one}
use cpe_networking_rejective.Poll.{
  PollSet, no_fd, no_poll_set, setup_poll_set, add_to_poll_set, grow_poll_set, zero_out, s_calloc,
  s_realloc, enter, remove_from_poll_set, first_ready, poll_call,
}
use cpe_networking_rejective.Poll.Grow.{Ends}
use cpe_networking_rejective.Poll.Watched.{
  Op, add, remove, run_ops, watched_after, nothing, Watches, Keeps, poll_set-Watches,
}
use cpe_networking_rejective.Poll.Ready.{
  Lowest, polled_entries, poll_call-Lowest, poll_call-broken_stdin,
}

abbrev some_ops : List Op
some_ops = add 3 ∷ add 12 ∷ remove 3 ∷ []

-- Socket 12 is beyond the first array of 10 entries, which grows to 22.
abbrev poll_set_twelve : PollSet
poll_set_twelve = record {
  file_descriptors = replicate 12 no_fd ++ (record { fd = 12; events = 1 } ∷ replicate 9 no_fd);
  max_file_descriptor = 13;
  current_poll_set_size = 22;
}

grows_test :
    (setup_poll_set plenty no_poll_set >>= run_ops plenty some_ops) ≡ returns (some poll_set_twelve)
unfolding setup_poll_set s_calloc run_ops add_to_poll_set grow_poll_set s_realloc zero_out enter
    remove_from_poll_set
grows_test = refl

poll_set-Watches_example :
    Ends plenty
      (Keeps (watched_after some_ops nothing))
      (setup_poll_set plenty no_poll_set >>= run_ops plenty some_ops)
poll_set-Watches_example = poll_set-Watches plenty plenty-IsMemory some_ops (omega arith, tt)

twelve-Watches : Watches (watched_after some_ops nothing) poll_set_twelve
twelve-Watches =
    subst (Ends plenty (Keeps (watched_after some_ops nothing))) grows_test
      (poll_set-Watches plenty plenty-IsMemory some_ops (omega arith, tt))

-- The array of ten entries has no entry 10.
outside_test :
    (setup_poll_set plenty no_poll_set >>= run_ops plenty (add 3 ∷ remove 10 ∷ [])) ≡ returns none
unfolding setup_poll_set s_calloc run_ops add_to_poll_set enter remove_from_poll_set
outside_test = refl

abbrev twelve_only : ℕ → Bool
twelve_only i = i == 12

abbrev stdin_only : ℕ → Bool
stdin_only i = i == 0

ready_test :
    poll_call (manual_poll twelve_only nothing) (pos 1000) poll_set_twelve ≡ returns (pos 12)
unfolding poll_call first_ready
ready_test = refl

silent_test : poll_call (manual_poll nothing nothing) (pos 1000) poll_set_twelve ≡ returns minus_one
unfolding poll_call first_ready
silent_test = refl

-- Socket 12 has input, but the standard input has hung up.
stdin_test :
    poll_call (manual_poll twelve_only stdin_only) (pos 1000) poll_set_twelve ≡ returns (pos 0)
unfolding poll_call first_ready
stdin_test = refl

poll_call-Lowest_example :
    Lowest twelve_only nothing
      (watched_after some_ops nothing)
      (manual_poll twelve_only nothing (polled_entries poll_set_twelve) (pos 1000)).0
      (poll_call (manual_poll twelve_only nothing) (pos 1000) poll_set_twelve)
poll_call-Lowest_example =
    poll_call-Lowest twelve_only nothing (manual_poll twelve_only nothing)
      (manual_poll-IsPoll twelve_only nothing) (watched_after some_ops nothing) poll_set_twelve
      twelve-Watches (pos 1000) refl

poll_call-broken_stdin_example :
    (poll_call (manual_poll twelve_only stdin_only) (pos 1000) poll_set_twelve ≡ returns (pos 0))
    ⊎ (poll_call (manual_poll twelve_only stdin_only) (pos 1000) poll_set_twelve ≡ exits minus_one)
poll_call-broken_stdin_example =
    poll_call-broken_stdin twelve_only stdin_only (manual_poll twelve_only stdin_only)
      (manual_poll-IsPoll twelve_only stdin_only) (watched_after some_ops nothing) poll_set_twelve
      twelve-Watches (pos 1000) 12 refl refl refl
