-- ===== src/Networks/Tests.antt =====
-- Evaluations of the definitions of Networks.antt, and the theorems on them at concrete inputs.
use cpe_networking_rejective.Prelude.{◌≡◌, refl, true, false, [], ◌∷◌, replicate}
use cpe_networking_rejective.Prelude.Int.{ℤ, pos, negsuc}
use cpe_networking_rejective.Outcome.{returns, exits, minus_one}
use cpe_networking_rejective.System.{
  is_negative, SockAddr, af_inet6, sock_dgram, Call, socket, bind, getsockname, listen, accept,
  connect, getaddrinfo, recvfrom, sendto, recv, send, Answer, Host, server_port, client_accepted,
  connected, started, go_on, ◌>>=◌, checked,
}
use cpe_networking_rejective.HostName.{
  htons, hints_for, copy_address, store_ip, get_ip_address46, gethostbyname6,
  get_ip_address_string46, get_ip_address_string6,
}
use cpe_networking_rejective.Networks.{
  to_u16, any_address, port_address, create_udp_socket, tcp_server_setup, tcp_accept,
  tcp_client_setup, udp_server_setup, setup_udp_client_to_server,
}
use cpe_networking_rejective.Networks.Phases.{phase_of, connected_to, bound, Sound}
use cpe_networking_rejective.Networks.Calls.{In}
use cpe_networking_rejective.Networks.Servers.{tcp_serve-Sound, udp_server_setup-Sound}
use cpe_networking_rejective.CommandLine.{atoi, signed, digits, negative}

-- Port 80, as it is stored.
abbrev peer : SockAddr
peer = record { family = af_inet6; port = 20480; addr = replicate 16 9 }

abbrev value_only : ℤ → Answer
value_only v = record { value = v; written = []; address = peer }

-- The system opens socket 3 and accepts socket 4; `binds` is the value of `bind`.
abbrev reply : ℤ → Call → Answer
reply binds (socket kind) = value_only (pos 3)
reply binds (bind f address) = value_only binds
reply binds (getsockname f) = value_only (pos 0)
reply binds (listen f backlog) = value_only (pos 0)
reply binds (accept f) = value_only (pos 4)
reply binds (connect f address) = value_only (pos 0)
reply binds (getaddrinfo name hints) = value_only (pos 0)
reply binds (recvfrom f len flags) = value_only (pos 0)
reply binds (sendto f buf flags address n) = value_only (pos 0)
reply binds (recv f len flags) = value_only (pos 0)
reply binds (send f buf flags) = value_only (pos 0)

abbrev working : Host
working = record { answer = λ history call. reply (pos 0) call; inet_ntop = λ family ip. ip }

-- The port is taken.
abbrev busy : Host
busy = record { answer = λ history call. reply (negsuc 97) call; inet_ntop = λ family ip. ip }

server_test :
    ((tcp_server_setup working (pos 80) started).0 ≡ returns (pos 3))
    × ((tcp_server_setup working (pos 80) started).1.printed ≡ server_port 80 ∷ [])
unfolding tcp_server_setup checked any_address to_u16 htons go_on
server_test = (refl, refl)

busy_test : (tcp_server_setup busy (pos 80) started).0 ≡ exits minus_one
unfolding tcp_server_setup checked any_address to_u16 htons go_on
busy_test = refl

accept_test :
    ((tcp_accept working (pos 3) true started).0 ≡ returns (pos 4))
    × ((tcp_accept working (pos 3) true started).1.printed
        ≡ client_accepted (replicate 16 9) 80 ∷ [])
unfolding tcp_accept checked get_ip_address_string6 get_ip_address_string46 htons go_on
accept_test = (refl, refl)

-- The port "80".
client_test :
    (tcp_client_setup working (7 ∷ []) (56 ∷ 48 ∷ []) true started).1.printed
    ≡ connected (7 ∷ []) (replicate 16 9) (pos 80) ∷ []
unfolding tcp_client_setup checked port_address to_u16 htons gethostbyname6 get_ip_address46
    hints_for copy_address store_ip get_ip_address_string6 get_ip_address_string46 atoi signed
    digits negative go_on
client_test = refl

udp_server_test : (udp_server_setup working (pos 80) started).0 ≡ returns (pos 3)
unfolding udp_server_setup create_udp_socket checked any_address to_u16 htons go_on
udp_server_test = refl

-- No check of the command line keeps a port below 2^16: 65616 is stored as 80.
udp_client_test :
    (setup_udp_client_to_server working (7 ∷ []) (pos 65616) started).0 ≡ returns (pos 3, peer)
unfolding setup_udp_client_to_server create_udp_socket checked port_address to_u16 htons
    gethostbyname6 get_ip_address46 hints_for copy_address store_ip go_on
udp_client_test = refl

negative_port_test : to_u16 (negsuc 0) ≡ 65535
unfolding to_u16
negative_port_test = refl

udp_server_setup-Sound_example :
    Sound
      (In (bound sock_dgram (htons (to_u16 (pos 80)))))
      (udp_server_setup working (pos 80) started)
udp_server_setup-Sound_example = udp_server_setup-Sound working (pos 80) started tt

tcp_serve-Sound_example :
    Sound
      (λ s history.
        (is_negative s ≡ false) × ((b : SockAddr) × (phase_of history s ≡ connected_to b)))
      ((tcp_server_setup working (pos 80) >>= λ s. tcp_accept working s true) started)
tcp_serve-Sound_example = tcp_serve-Sound working (pos 80) true started tt
