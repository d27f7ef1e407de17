-- ===== src/Networks/Phases.antt =====
-- What the socket interface asks of its user, apart from networks.c: the life of a socket, read off the
-- calls that were made, and in which phase of it each call may stand.
use cpe_networking_rejective.Prelude.{
  ℕ, ◌≡◌, ◌≢◌, Bool, true, false, not, ◌&&◌, [], ◌∷◌, arith, ◌==◌, if◌then◌else◌,
}
use cpe_networking_rejective.Prelude.Int.{ℤ, pos, negsuc}
use cpe_networking_rejective.Outcome.{Outcome, returns, exits}
use cpe_networking_rejective.System.{
  go_on, SockAddr, sock_stream, Call, socket, bind, getsockname, listen, accept, connect,
  getaddrinfo, recvfrom, sendto, recv, send, Answer, History, Process, Sys, is_negative,
}
use cpe_networking_rejective.HostName.{is_zero}

-- A socket of a type; bound to a port, as it is stored; connected to an address.
pub data Phase : Type 0 where
  closed : Phase
  opened : ℕ → Phase
  bound : ℕ → ℕ → Phase
  listening : ℕ → Phase
  connected_to : SockAddr → Phase

abbrev pub same : ℤ → ℤ → Bool
same (pos a) (pos b) = a == b
same (pos a) (negsuc b) = false
same (negsuc a) (pos b) = false
same (negsuc a) (negsuc b) = a == b

pub same_self : (s : ℤ) → same s s ≡ true
same_self (pos a) = ground arith
same_self (negsuc a) = ground arith

abbrev pub bind_phase : ℕ → Phase → Phase
bind_phase port closed = closed
bind_phase port (opened kind) = bound kind port
bind_phase port (bound kind old) = bound kind old
bind_phase port (listening old) = listening old
bind_phase port (connected_to a) = connected_to a

abbrev pub listen_phase : Phase → Phase
listen_phase closed = closed
listen_phase (opened kind) = opened kind
listen_phase (bound kind port) = listening port
listen_phase (listening port) = listening port
listen_phase (connected_to a) = connected_to a

-- What a call that has been answered makes of the socket `s`.
abbrev pub step : Call → Answer → ℤ → Phase → Phase
step (socket kind) a s phase =
    if not (is_negative a.value) && same a.value s then opened kind else phase
step (bind f address) a s phase =
    if not (is_negative a.value) && same f s then bind_phase address.port phase else phase
step (listen f backlog) a s phase =
    if not (is_negative a.value) && same f s then listen_phase phase else phase
step (connect f address) a s phase =
    if not (is_negative a.value) && same f s then connected_to address else phase
step (accept f) a s phase =
    if not (is_negative a.value) && same a.value s then connected_to a.address else phase
step (getsockname f) a s phase = phase
step (getaddrinfo name hints) a s phase = phase
step (recvfrom f len flags) a s phase = phase
step (sendto f buf flags address n) a s phase = phase
step (recv f len flags) a s phase = phase
step (send f buf flags) a s phase = phase

abbrev pub phase_of : History → ℤ → Phase
phase_of [] s = closed
phase_of ((call, a) ∷ history) s = step call a s (phase_of history s)

-- The calls that may follow a history.
abbrev pub Allowed : Call → History → Type 0
Allowed (socket kind) history = Unit
Allowed (bind f address) history = (kind : ℕ) × (phase_of history f ≡ opened kind)
Allowed (getsockname f) history = (kind : ℕ) × (port : ℕ) × (phase_of history f ≡ bound kind port)
Allowed (listen f backlog) history = (port : ℕ) × (phase_of history f ≡ bound sock_stream port)
Allowed (accept f) history = (port : ℕ) × (phase_of history f ≡ listening port)
Allowed (connect f address) history = phase_of history f ≡ opened sock_stream
Allowed (getaddrinfo name hints) history = Unit
Allowed (recvfrom f len flags) history = phase_of history f ≢ closed
Allowed (sendto f buf flags address n) history = phase_of history f ≢ closed
Allowed (recv f len flags) history = (peer : SockAddr) × (phase_of history f ≡ connected_to peer)
Allowed (send f buf flags) history = (peer : SockAddr) × (phase_of history f ≡ connected_to peer)

abbrev pub IsLegal : History → Type 0
IsLegal [] = Unit
IsLegal ((call, a) ∷ history) = Allowed call history × IsLegal history

-- `getaddrinfo` fails by any value but 0, all others by a negative one.
abbrev pub call_failed : Call → Answer → Bool
call_failed (getaddrinfo name hints) a = not (is_zero a.value)
call_failed (socket kind) a = is_negative a.value
call_failed (bind f address) a = is_negative a.value
call_failed (getsockname f) a = is_negative a.value
call_failed (listen f backlog) a = is_negative a.value
call_failed (accept f) a = is_negative a.value
call_failed (connect f address) a = is_negative a.value
call_failed (recvfrom f len flags) a = is_negative a.value
call_failed (sendto f buf flags address n) a = is_negative a.value
call_failed (recv f len flags) a = is_negative a.value
call_failed (send f buf flags) a = is_negative a.value

abbrev pub LastFailed : History → Type 0
LastFailed [] = ⊥
LastFailed ((call, a) ∷ history) = call_failed call a ≡ true

-- A function has used the sockets as it may. It has returned a value of `P`, or the last call failed
-- and the process has ended with an exit code other than 0.
abbrev pub EndsWith : {A : Type 0} → (A → History → Type 0) → Outcome A → History → Type 0
EndsWith P (returns a) history = P a history
EndsWith P (exits code) history = (code ≢ pos 0) × LastFailed history

abbrev pub Sound : {A : Type 0} → (A → History → Type 0) → Outcome A × Process → Type 0
Sound P (r, p) = IsLegal p.history × EndsWith P r p.history

-- A sequence is sound if its first part is, and the rest after it.
pub go_on-Sound :
    {A B : Type 0} (P : A → History → Type 0) (Q : B → History → Type 0) (f : A → Sys B)
    (r : Outcome A × Process)
    → Sound P r
    → ((a : A) (q : Process) → IsLegal q.history → P a q.history → Sound Q (f a q))
    → Sound Q (go_on f r)
unfolding go_on
go_on-Sound P Q f (returns a, p) (legal, h) k = k a p legal h
go_on-Sound P Q f (exits code, p) h k = h
