-- ===== src/Net/Wait/Tests.antt =====
-- Evaluations of a wait, and the theorem on it at a concrete input.
use cpe_networking_rejective.Prelude.{
  ℕ, ◌≡◌, refl, subst, inr, Bool, some, [], ◌∷◌, ◌++◌, ◌==◌, replicate,
}
use cpe_networking_rejective.Prelude.Int.{pos}
use cpe_networking_rejective.Outcome.{returns, ◌>>=◌}
use cpe_networking_rejective.System.{SockAddr, zero_address, Host, started, go_on, checked}
use cpe_networking_rejective.Poll.{
  PollSet, no_fd, no_poll_set, setup_poll_set, add_to_poll_set, s_calloc, enter, poll_call,
  first_ready,
}
use cpe_networking_rejective.Poll.Grow.{Ends}
use cpe_networking_rejective.Poll.Watched.{
  Watches, Keeps, nothing, add, run_ops, watched_after, poll_set-Watches,
}
use cpe_networking_rejective.Poll.Manual.{plenty, plenty-IsMemory, manual_poll, manual_poll-IsPoll}
use cpe_networking_rejective.SafeUtil.{safe_recvfrom}
use cpe_networking_rejective.SafeUtil.Receive.{Datagram}
use cpe_networking_rejective.Net.{timeout, arrives}
use cpe_networking_rejective.Net.Wait.{next_event, event_of, Waits, next_event-Waits}

abbrev hello : Datagram
hello = record { payload = 104 ∷ 105 ∷ []; sender = zero_address }

-- The system has the datagram at hand.
abbrev bringing : Host
bringing = record {
  answer =
      λ history call. record { value = pos 2; written = 104 ∷ 105 ∷ []; address = zero_address };
  inet_ntop = λ family ip. ip;
}

abbrev four_only : ℕ → Bool
four_only i = i == 4

abbrev by_port : SockAddr → ℕ
by_port a = a.port

abbrev set_of_four : PollSet
set_of_four = record {
  file_descriptors = replicate 4 no_fd ++ (record { fd = 4; events = 1 } ∷ replicate 5 no_fd);
  max_file_descriptor = 5;
  current_poll_set_size = 10;
}

set_of_four-eq :
    (setup_poll_set plenty no_poll_set >>= run_ops plenty (add 4 ∷ [])) ≡ returns (some set_of_four)
unfolding setup_poll_set s_calloc run_ops add_to_poll_set enter
set_of_four-eq = refl

set_of_four-Watches : Watches (watched_after (add 4 ∷ []) nothing) set_of_four
set_of_four-Watches =
    subst (Ends plenty (Keeps (watched_after (add 4 ∷ []) nothing))) set_of_four-eq
      (poll_set-Watches plenty plenty-IsMemory (add 4 ∷ []) tt)

arrives_test :
    (next_event bringing
      (manual_poll four_only nothing)
      by_port
      set_of_four
      (pos 1000)
      (pos 4)
      (replicate 1407 0)
      started).0
    ≡ returns (arrives 0 (104 ∷ 105 ∷ []))
unfolding next_event poll_call first_ready safe_recvfrom checked go_on
arrives_test = refl

timeout_test :
    (next_event bringing
      (manual_poll nothing nothing)
      by_port
      set_of_four
      (pos 1000)
      (pos 4)
      (replicate 1407 0)
      started).0
    ≡ returns timeout
unfolding next_event poll_call first_ready safe_recvfrom checked go_on
timeout_test = refl

next_event-Waits_example :
    Waits
      (event_of by_port (some hello))
      (next_event bringing
        (manual_poll four_only nothing)
        by_port
        set_of_four
        (pos 1000)
        (pos 4)
        (replicate 1407 0)
        started).0
next_event-Waits_example =
    next_event-Waits bringing four_only nothing (manual_poll four_only nothing)
      (manual_poll-IsPoll four_only nothing) by_port 4 (some hello) set_of_four (pos 1000)
      (replicate 1407 0) started set_of_four-Watches refl refl refl (inr (refl, refl, refl))
