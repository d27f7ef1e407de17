-- ===== src/Networks.antt =====
-- udpCode_spring26_v3/networks.c: the sockets of servers and clients.
-- A host name and a port given as text are the lists of their bytes. A socket that is opened stays
-- open when the process exits later: the system closes it.
pub mod Phases
pub mod Calls
pub mod Servers
pub mod Clients
mod Tests
use cpe_networking_rejective.Prelude.{
  ℕ, ◌-◌, ◌%◌, ◌^◌, Bool, true, false, Option, none, some, List, [], if◌then◌else◌, take,
}
use cpe_networking_rejective.Prelude.Int.{ℤ, pos, negsuc}
use cpe_networking_rejective.Outcome.{returns, minus_one}
use cpe_networking_rejective.System.{
  SockAddr, af_inet6, sock_stream, sock_dgram, zero_address, socket, bind, getsockname, listen,
  accept, connect, Host, server_port, client_accepted, connected, server_info, Sys, pure, ◌>>=◌,
  ◌>>◌, exit_with, print, is_negative, system, checked,
}
use cpe_networking_rejective.HostName.{
  IpPointer, null, static_ip, bytes_at, htons, ntohs, gethostbyname6, get_ip_address_string6,
}
use cpe_networking_rejective.CommandLine.{atoi}

abbrev pub listen_backlog : ℕ
listen_backlog = 10

-- The conversion of an `int` to `uint16_t`.
unfoldable pub to_u16 : ℤ → ℕ
to_u16 (pos n) = n % 2 ^ 16
to_u16 (negsuc n) = 2 ^ 16 - 1 - n % 2 ^ 16

-- `serverAddress` of a server: any local address.
unfoldable pub any_address : ℤ → SockAddr
unfolding to_u16 htons
any_address port = record zero_address { family = af_inet6; port = htons (to_u16 port) }

-- The address of a client's server before its name is looked up.
unfoldable pub port_address : ℤ → SockAddr
unfolding to_u16 htons
port_address port = record zero_address { family = af_inet6; port = htons (to_u16 port) }

-- The bytes behind a pointer, now.
abbrev pub bytes_now : IpPointer → Sys (Option (List ℕ))
bytes_now pointer p = (returns (bytes_at pointer p), p)

abbrev pub address_or : Option SockAddr → SockAddr → SockAddr
address_or none other = other
address_or (some a) other = a

abbrev pub bytes_or : Option (List ℕ) → List ℕ → List ℕ
bytes_or none other = other
bytes_or (some b) other = b

abbrev pub when : Bool → Sys (Unit {0}) → Sys (Unit {0})
when true m = m
when false m = pure tt

-- Where a NULL from `gethostbyname6` ends the process.
abbrev pub found : IpPointer → Sys (Unit {0})
found null = exit_with minus_one
found static_ip = pure tt

module _ (host : Host) where
  unfoldable pub create_udp_socket : Sys ℤ
  unfolding checked
  create_udp_socket = do a ← checked host (socket sock_dgram) minus_one; pure a.value

  unfoldable pub tcp_server_setup : ℤ → Sys ℤ
  unfolding checked any_address
  tcp_server_setup port = do
    opened ← checked host (socket sock_stream) (pos 1)
    checked host (bind opened.value (any_address port)) minus_one
    named ← checked host (getsockname opened.value) minus_one
    checked host (listen opened.value listen_backlog) minus_one
    print (server_port (ntohs named.address.port))
    pure opened.value

  unfoldable pub tcp_accept : ℤ → Bool → Sys ℤ
  unfolding checked get_ip_address_string6
  tcp_accept main_server_socket debug_flag = do
    a ← checked host (accept main_server_socket) minus_one
    when debug_flag (do
      text ← get_ip_address_string6 host (some a.address.addr)
      print (client_accepted text (ntohs a.address.port)))
    pure a.value

  unfoldable pub tcp_client_setup : List ℕ → List ℕ → Bool → Sys ℤ
  unfolding checked port_address gethostbyname6 get_ip_address_string6
  tcp_client_setup server_name port_text debug_flag = do
    opened ← checked host (socket sock_stream) minus_one
    let blank_address = port_address (atoi port_text)
    (pointer, filled) ← gethostbyname6 host server_name (some blank_address)
    found pointer
    checked host (connect opened.value (address_or filled blank_address)) minus_one
    when debug_flag (do
      bytes_here ← bytes_now pointer
      text ← get_ip_address_string6 host bytes_here
      print (connected server_name text (atoi port_text)))
    pure opened.value

  -- The answer of `getsockname` is not tested: if it fails, the port that was asked for is printed.
  unfoldable pub udp_server_setup : ℤ → Sys ℤ
  unfolding create_udp_socket any_address
  udp_server_setup port = do
    socket_num ← create_udp_socket
    let server_address = any_address port
    checked host (bind socket_num server_address) minus_one
    named ← system host (getsockname socket_num)
    print (
        server_port
          (ntohs (if is_negative named.value then server_address.port else named.address.port)))
    pure socket_num

  -- The socket, and `*serverAddress`.
  unfoldable pub setup_udp_client_to_server : List ℕ → ℤ → Sys (ℤ × SockAddr)
  unfolding create_udp_socket port_address gethostbyname6
  setup_udp_client_to_server host_name port = do
    socket_num ← create_udp_socket
    let blank_address = port_address port
    (pointer, filled) ← gethostbyname6 host host_name (some blank_address)
    found pointer
    bytes_here ← bytes_now pointer
    print (server_info (host.inet_ntop af_inet6 (take 16 (bytes_or bytes_here []))) port)
    pure (socket_num, address_or filled blank_address)
