-- ===== src/Networks/Calls.antt =====
-- udpCode_spring26_v3/networks.c and gethostbyname.c: each call of a set-up uses the socket interface as
-- Phases.antt asks.
use cpe_networking_rejective.Prelude.{
  ℕ, ◌≡◌, refl, ap, ◌∙◌, ◌≢◌, inl, inr, Bool, true, false, Option, none, some, List, ◌∷◌,
  Bool-cases,
}
use cpe_networking_rejective.Prelude.Int.{ℤ, pos}
use cpe_networking_rejective.Outcome.{minus_one}
use cpe_networking_rejective.System.{
  af_inet6, go_on, SockAddr, sock_stream, sock_dgram, Call, socket, bind, getsockname, listen,
  connect, getaddrinfo, Answer, History, Host, Process, Sys, is_negative, checked,
}
use cpe_networking_rejective.HostName.{
  is_zero, IpPointer, null, static_ip, htons, get_ip_address46, gethostbyname6,
  get_ip_address_string6, hints_for, get_ip_address_string46,
}
use cpe_networking_rejective.Networks.{
  listen_backlog, port_address, to_u16, found, when, create_udp_socket, af_inet6, address_or,
}
use cpe_networking_rejective.Networks.Phases.{
  Phase, opened, bound, listening, connected_to, same_self, phase_of, Allowed, IsLegal, call_failed,
  LastFailed, Sound, go_on-Sound,
}

pub minus_one_bad : minus_one ≢ pos 0
minus_one_bad e = cc

-- A socket that was just opened.
abbrev pub Opened : ℕ → Answer → History → Type 0
Opened kind a history = (is_negative a.value ≡ false) × (phase_of history a.value ≡ opened kind)

-- A socket that is ready, in a phase.
abbrev pub In : Phase → ℤ → History → Type 0
In phase s history = (is_negative s ≡ false) × (phase_of history s ≡ phase)

-- What a lookup for the socket `s` leaves: NULL only after a failure, and an address of the same
-- family and port.
abbrev pub Looked : ℤ → ℕ → SockAddr → IpPointer × Option SockAddr → History → Type 0
Looked s kind a (pointer, filled) history =
    (phase_of history s ≡ opened kind)
    × (pointer ≡ null → LastFailed history)
    × ((b : SockAddr) × (filled ≡ some b) × (b.family ≡ a.family) × (b.port ≡ a.port))

-- The address of a port, as it is stored.
abbrev pub ToPort : ℤ → SockAddr → Type 0
ToPort port address = (address.family ≡ af_inet6) × (address.port ≡ htons (to_u16 port))

address_or-some :
    (filled : Option SockAddr) (b other : SockAddr) → filled ≡ some b → address_or filled other ≡ b
address_or-some none b other e = cc
address_or-some (some c) b other e = cc

pub ToPort-Looked :
    (s : ℤ) (kind : ℕ) (port : ℤ) (looked : IpPointer × Option SockAddr) (history : History)
    → Looked s kind (port_address port) looked history
    → ToPort port (address_or looked.1 (port_address port))
unfolding port_address
ToPort-Looked s kind port (pointer, filled) history (now, fails, (b, e, f, g)) =
    let same_b = address_or-some filled b (port_address port) e in
    (ap (λ (x : SockAddr). x.family) same_b ∙ f, ap (λ (x : SockAddr). x.port) same_b ∙ g)

pub found-Sound :
    (K : History → Type 0) (pointer : IpPointer) (p : Process)
    → IsLegal p.history
    → K p.history
    → (pointer ≡ null → LastFailed p.history)
    → Sound (λ u history. K history) (found pointer p)
found-Sound K null p legal k fails = (legal, (minus_one_bad, fails refl))
found-Sound K static_ip p legal k fails = (legal, k)

pub when-Sound :
    (K : History → Type 0) (debug_flag : Bool) (m : Sys (Unit {0})) (p : Process)
    → IsLegal p.history
    → K p.history
    → Sound (λ u history. K history) (m p)
    → Sound (λ u history. K history) (when debug_flag m p)
when-Sound K true m p legal k h = h
when-Sound K false m p legal k h = (legal, k)

module _ (host : Host) where
  pub checked-Sound :
      (P : Answer → History → Type 0) (call : Call) (code : ℤ) (p : Process)
      → code ≢ pos 0
      → IsLegal p.history
      → Allowed call p.history
      → ((a : Answer) → call_failed call a ≡ is_negative a.value)
      → ((a : Answer) → is_negative a.value ≡ false → P a ((call, a) ∷ p.history))
      → Sound P (checked host call code p)
  unfolding checked go_on
  checked-Sound P call code p bad legal allowed fails good =
      let a = host.answer p.history call in
      elim (Bool-cases (is_negative a.value)) [
        | inl down ↦ rw down ((allowed, legal), (bad, fails a ∙ down))
        | inr up ↦ rw up ((allowed, legal), good a up)
      ]

  pub socket-Sound :
      (kind : ℕ) (code : ℤ) (p : Process)
      → code ≢ pos 0
      → IsLegal p.history
      → Sound (Opened kind) (checked host (socket kind) code p)
  socket-Sound kind code p bad legal =
      checked-Sound (Opened kind) (socket kind) code p bad legal tt (λ a. refl)
        (λ a up. (up, rw (up, same_self a.value) refl))

  pub bind-Sound :
      (s : ℤ) (kind : ℕ) (address : SockAddr) (p : Process)
      → IsLegal p.history
      → phase_of p.history s ≡ opened kind
      → Sound
          (λ a history. phase_of history s ≡ bound kind address.port)
          (checked host (bind s address) minus_one p)
  bind-Sound s kind address p legal now =
      checked-Sound _ (bind s address) minus_one p minus_one_bad legal (kind, now) (λ a. refl)
        (λ a up. rw (up, same_self s, now) refl)

  pub listen-Sound :
      (s : ℤ) (port : ℕ) (p : Process)
      → IsLegal p.history
      → phase_of p.history s ≡ bound sock_stream port
      → Sound
          (λ a history. phase_of history s ≡ listening port)
          (checked host (listen s listen_backlog) minus_one p)
  listen-Sound s port p legal now =
      checked-Sound _ (listen s listen_backlog) minus_one p minus_one_bad legal (port, now)
        (λ a. refl) (λ a up. rw (up, same_self s, now) refl)

  pub getsockname-Sound :
      (s : ℤ) (kind port : ℕ) (p : Process)
      → IsLegal p.history
      → phase_of p.history s ≡ bound kind port
      → Sound
          (λ a history. phase_of history s ≡ bound kind port)
          (checked host (getsockname s) minus_one p)
  getsockname-Sound s kind port p legal now =
      checked-Sound _ (getsockname s) minus_one p minus_one_bad legal (kind, port, now) (λ a. refl)
        (λ a up. now)

  pub create_udp_socket-Sound :
      (p : Process) → IsLegal p.history → Sound (In (opened sock_dgram)) (create_udp_socket host p)
  unfolding create_udp_socket
  create_udp_socket-Sound p legal =
      go_on-Sound (Opened sock_dgram) _ _ _
        (socket-Sound sock_dgram minus_one p minus_one_bad legal) (λ a q legal1 now. (legal1, now))

  pub connect-Sound :
      (s : ℤ) (address : SockAddr) (p : Process)
      → IsLegal p.history
      → phase_of p.history s ≡ opened sock_stream
      → Sound
          (λ a history. phase_of history s ≡ connected_to address)
          (checked host (connect s address) minus_one p)
  connect-Sound s address p legal now =
      checked-Sound _ (connect s address) minus_one p minus_one_bad legal now (λ a. refl)
        (λ a up. rw (up, same_self s) refl)

  pub get_ip_address_string6-Sound :
      (K : History → Type 0) (ip_address : Option (List ℕ)) (p : Process)
      → IsLegal p.history
      → K p.history
      → Sound (λ text history. K history) (get_ip_address_string6 host ip_address p)
  unfolding get_ip_address_string6 get_ip_address_string46
  get_ip_address_string6-Sound K none p legal k = (legal, k)
  get_ip_address_string6-Sound K (some ip_address) p legal k = (legal, k)

  pub gethostbyname6-Sound :
      (s : ℤ) (kind : ℕ) (name : List ℕ) (a : SockAddr) (p : Process)
      → IsLegal p.history
      → phase_of p.history s ≡ opened kind
      → Sound (Looked s kind a) (gethostbyname6 host name (some a) p)
  unfolding gethostbyname6 get_ip_address46 go_on
  gethostbyname6-Sound s kind name a p legal now =
      let asked = getaddrinfo name (hints_for af_inet6) in
      elim (Bool-cases (is_zero (host.answer p.history asked).value)) [
        | inl good ↦ rw good ((tt, legal), (now, (λ e. cc), (_, refl, refl, refl)))
        | inr bad ↦ rw bad ((tt, legal), (now, (λ e. rw bad refl), (_, refl, refl, refl)))
      ]
