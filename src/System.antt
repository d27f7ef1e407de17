-- ===== src/System.antt =====
-- What the network code of udpCode_spring26_v3 sees of the system: its calls, their answers, and the
-- static buffers and the output of the process. safeUtil.c, gethostbyname.c and networks.c are
-- modelled over it.
use cpe_networking_rejective.Prelude.{ℕ, Bool, true, false, List, [], ◌∷◌, if◌then◌else◌, replicate}
use cpe_networking_rejective.Prelude.Int.{ℤ, pos, negsuc}
use cpe_networking_rejective.Outcome.{Outcome, returns, exits}

-- `struct sockaddr_in6`, or `struct sockaddr_in` with an address of 4 bytes. The port is the number as
-- it is stored, in network order.
pub record SockAddr : Type 0 where
  pub family : ℕ
  pub port : ℕ
  pub addr : List ℕ

abbrev pub af_inet : ℕ
af_inet = 2

abbrev pub af_inet6 : ℕ
af_inet6 = 10

abbrev pub sock_stream : ℕ
sock_stream = 1

abbrev pub sock_dgram : ℕ
sock_dgram = 2

-- What `memset` leaves of an address.
abbrev pub zero_address : SockAddr
zero_address = record { family = 0; port = 0; addr = replicate 16 0 }

-- `struct addrinfo` as a hint: flags and family.
pub record Hints : Type 0 where
  pub flags : ℕ
  pub family : ℕ

-- A system call with its arguments. A socket is opened with the family AF_INET6 and the protocol 0.
pub data Call : Type 0 where
  socket : ℕ → Call
  bind : ℤ → SockAddr → Call
  getsockname : ℤ → Call
  listen : ℤ → ℕ → Call
  accept : ℤ → Call
  connect : ℤ → SockAddr → Call
  getaddrinfo : List ℕ → Hints → Call
  recvfrom : ℤ → ℕ → ℕ → Call
  sendto : ℤ → List ℕ → ℕ → SockAddr → ℕ → Call
  recv : ℤ → ℕ → ℕ → Call
  send : ℤ → List ℕ → ℕ → Call

-- The value that a call returns, and what it writes: bytes into a buffer, an address.
pub record Answer : Type 0 where
  pub value : ℤ
  pub written : List ℕ
  pub address : SockAddr

-- The calls that were made, with their answers, the latest first.
abbrev pub History : Type 0
History = List (Call × Answer)

-- The system answers a call as it likes, in view of the calls before. `inet_ntop` prints an address.
pub record Host : Type 0 where
  pub answer : History → Call → Answer
  pub inet_ntop : ℕ → List ℕ → List ℕ

-- A line of the output, by what is put into the format.
pub data Line : Type 0 where
  server_port : ℕ → Line
  client_accepted : List ℕ → ℕ → Line
  connected : List ℕ → List ℕ → ℤ → Line
  server_info : List ℕ → ℤ → Line
  ip_info : List ℕ → ℕ → Line
  host_ip : ℕ → List ℕ → List ℕ → Line
  blank : Line

-- The process: the calls so far, its output, the latest line first, and the static buffers of
-- gethostbyname.c (the two `ipString` are texts).
pub record Process : Type 0 where
  pub history : History
  pub printed : List Line
  pub ip_address : List ℕ
  pub ip_string : List ℕ
  pub info_string : List ℕ

abbrev pub started : Process
started = record {
  history = [];
  printed = [];
  ip_address = replicate 46 0;
  ip_string = [];
  info_string = [];
}

-- A C function: it returns or exits, and leaves the process in a state.
abbrev pub Sys : Type 0 → Type 0
Sys A = Process → Outcome A × Process

abbrev pub pure : {A : Type 0} → A → Sys A
pure a p = (returns a, p)

-- How a sequence goes on after its first part.
unfoldable pub go_on : {A B : Type 0} → (A → Sys B) → Outcome A × Process → Outcome B × Process
go_on f (returns a, p) = f a p
go_on f (exits code, p) = (exits code, p)

infixl 5 ◌>>=◌ ◌>>◌
abbrev pub ◌>>=◌ : {A B : Type 0} → Sys A → (A → Sys B) → Sys B
◌>>=◌ m f p = go_on f (m p)

abbrev pub ◌>>◌ : {A B : Type 0} → Sys A → Sys B → Sys B
m >> k = m >>= λ _. k

abbrev pub exit_with : {A : Type 0} → ℤ → Sys A
exit_with code p = (exits code, p)

abbrev pub print : Line → Sys (Unit {0})
print line p = (returns tt, record p { printed = line ∷ p.printed })

-- `value < 0`.
abbrev pub is_negative : ℤ → Bool
is_negative (pos n) = false
is_negative (negsuc n) = true

module _ (host : Host) where
  abbrev pub system : Call → Sys Answer
  system call p =
      let a = host.answer p.history call in
      (returns a, record p { history = (call, a) ∷ p.history })

  -- `if ((value = call) < 0) { perror(...); exit(code); }`.
  unfoldable pub checked : Call → ℤ → Sys Answer
  checked call code = do a ← system call; if is_negative a.value then exit_with code else pure a
