-- ===== src/Net/Wait.antt =====
-- udpCode_spring26_v3/server.c and rcopy.c: `pollCall` and then `safeRecvfrom`, as the states of both
-- programs wait for a packet, over the models of pollLib.c and safeUtil.c.
mod Tests
use cpe_networking_rejective.Prelude.{
  ℕ, ◌≡◌, refl, sym, ap, ap₂, ◌∙◌, Bool, true, false, Option, none, some, List, [], arith, ◌==◌,
  if◌then◌else◌, take,
}
use cpe_networking_rejective.Prelude.Int.{ℤ, pos, negsuc}
use cpe_networking_rejective.Outcome.{Outcome, returns, exits, minus_one}
use cpe_networking_rejective.System.{
  SockAddr, recvfrom, Answer, Host, Process, Sys, pure, go_on, ◌>>=◌,
}
use cpe_networking_rejective.Packet.{srej_max_packet}
use cpe_networking_rejective.Poll.{PollFd, PollSet, poll_call}
use cpe_networking_rejective.Poll.Watched.{Watches, nothing}
use cpe_networking_rejective.Poll.Ready.{IsPoll, Lowest, polled_entries, poll_call-Lowest}
use cpe_networking_rejective.SafeUtil.{safe_recvfrom}
use cpe_networking_rejective.SafeUtil.Receive.{Datagram, Takes, Receives, safe_recvfrom-Receives}
use cpe_networking_rejective.Net.{Event, timeout, arrives, received}

-- The bytes of a packet that was received into a buffer.
abbrev pub first_bytes : ℤ → List ℕ → List ℕ
first_bytes (pos n) buf = take n buf
first_bytes (negsuc n) buf = []

-- An address is known to the state machines by a number.
module _ (host : Host) (poll : List PollFd → ℤ → ℤ × List ℕ) (number : SockAddr → ℕ) where
  abbrev pub receive : ℤ → List ℕ → Sys Event
  receive socket_num buf = do
    (packet_len, filled, from) ← safe_recvfrom host socket_num buf srej_max_packet 0
    pure (arrives (number from) (first_bytes packet_len filled))

  abbrev pub receive_if : ℤ → ℤ → List ℕ → Sys Event
  receive_if (pos ready) socket_num buf = receive socket_num buf
  receive_if (negsuc n) socket_num buf = pure timeout

  -- `buf` is what the stack held where the packet goes.
  unfoldable pub next_event : PollSet → ℤ → ℤ → List ℕ → Sys Event
  next_event set_of_one time socket_num buf = do
    ready ← (λ p. (poll_call poll time set_of_one, p))
    receive_if ready socket_num buf

-- The datagram that waits at the socket, if one does, as an event for a state machine.
abbrev pub event_of : (SockAddr → ℕ) → Option Datagram → Event
event_of number none = timeout
event_of number (some d) = arrives (number d.sender) (received d.payload)

abbrev pub is_some : Option Datagram → Bool
is_some none = false
is_some (some d) = true

-- What `recvfrom` answers fits what waits.
abbrev pub Fits : Option Datagram → Answer → Type 0
Fits none a = Unit
Fits (some d) a = Takes d srej_max_packet a

-- The wait has ended in the event that the socket holds, or in an exit with -1.
abbrev pub Waits : Event → Outcome Event → Type 0
Waits e (returns seen) = seen ≡ e
Waits e (exits code) = code ≡ minus_one

Waits-received :
    (number : SockAddr → ℕ) (d : Datagram) (buf : List ℕ) (a : Answer)
    (r : Outcome (ℤ × List ℕ × SockAddr) × Process)
    → Receives d srej_max_packet buf a r.0
    → Waits
        (arrives (number d.sender) (received d.payload))
        (go_on (λ x. pure (arrives (number x.2) (first_bytes x.0 x.1))) r).0
unfolding go_on
Waits-received number d buf a (exits code, p) (e, down) = e
Waits-received number d buf a (returns (packet_len, filled, from), p) (e, front, rest, sender) =
    ap₂ arrives (ap number sender) (ap (λ z. first_bytes z filled) e ∙ front)

silent :
    (number : SockAddr → ℕ) (inbox : Option Datagram)
    → is_some inbox ≡ false
    → timeout ≡ event_of number inbox
silent number none h = refl
silent number (some d) h = cc

receive-Waits :
    (host : Host) (poll : List PollFd → ℤ → ℤ × List ℕ) (number : SockAddr → ℕ) (n : ℕ)
    (inbox : Option Datagram) (buf : List ℕ) (p : Process)
    → is_some inbox ≡ true
    → Fits inbox (host.answer p.history (recvfrom (pos n) srej_max_packet 0))
    → Waits (event_of number inbox) (receive host poll number (pos n) buf p).0
receive-Waits host poll number n none buf p h fits = cc
receive-Waits host poll number n (some d) buf p h fits =
    Waits-received number d buf (host.answer p.history (recvfrom (pos n) srej_max_packet 0))
      (safe_recvfrom host (pos n) buf srej_max_packet 0 p)
      (safe_recvfrom-Receives host (pos n) buf srej_max_packet 0 d p fits)

module _ (host : Host) (readable broken : ℕ → Bool) (poll : List PollFd → ℤ → ℤ × List ℕ)
    (law : IsPoll readable broken poll) (number : SockAddr → ℕ) (n : ℕ)
    (inbox : Option Datagram) where
  after_poll-Waits :
      (value : ℤ) (r : Outcome ℤ) (p : Process) (buf : List ℕ)
      → Lowest readable broken (λ i. if i == n then true else nothing i) value r
      → readable n ≡ is_some inbox
      → broken n ≡ false
      → Fits inbox (host.answer p.history (recvfrom (pos n) srej_max_packet 0))
      → Waits
          (event_of number inbox)
          (go_on (λ ready. receive_if host poll number ready (pos n) buf) (r, p)).0
  unfolding go_on
  after_poll-Waits value (exits code) p buf (e, failed) ready fine fits = e
  after_poll-Waits value (returns (negsuc m)) p buf (e, none_of) ready fine fits =
      silent number inbox (sym ready ∙ ground (arith, none_of n))
  after_poll-Waits value (returns (pos i)) p buf (member, event, before) ready fine fits =
      let here : i ≡ n = ground arith in
      receive-Waits host poll number n inbox buf p (sym ready ∙ ground (arith, here)) fits

  -- The events that the state machines take are what `pollCall` and `safeRecvfrom` give. When the
  -- poll set watches the process's socket alone, `poll` does as its manual says, neither this
  -- socket nor the standard input has failed or hung up, and `recvfrom` fails or takes the datagram
  -- that waits: the wait ends in `timeout` if no datagram waits, and otherwise in `arrives` with
  -- the datagram's sender and its bytes, cut to SREJ_MAX_PACKET, unless it exits with -1.
  pub next_event-Waits :
      (set_of_one : PollSet) (time : ℤ) (buf : List ℕ) (p : Process)
      → Watches (λ i. if i == n then true else nothing i) set_of_one
      → readable n ≡ is_some inbox
      → broken n ≡ false
      → broken 0 ≡ false
      → Fits inbox (host.answer p.history (recvfrom (pos n) srej_max_packet 0))
      → Waits (event_of number inbox) (next_event host poll number set_of_one time (pos n) buf p).0
  unfolding next_event
  next_event-Waits set_of_one time buf p watching ready fine stdin fits =
      let w = λ (i : ℕ). if i == n then true else nothing i in
      after_poll-Waits (poll (polled_entries set_of_one) time).0 (poll_call poll time set_of_one) p
        buf (poll_call-Lowest readable broken poll law w set_of_one watching time stdin) ready fine
        fits
