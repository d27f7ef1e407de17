-- ===== src/Networks/Servers.antt =====
-- udpCode_spring26_v3/networks.c: the sockets of a server are bound to its port and
-- listen, or are connected to a client.
use cpe_networking_rejective.Prelude.{ℕ, ◌≡◌, refl, Bool, false, some}
use cpe_networking_rejective.Prelude.Int.{ℤ, pos}
use cpe_networking_rejective.Outcome.{minus_one}
use cpe_networking_rejective.System.{
  go_on, SockAddr, sock_stream, sock_dgram, accept, Answer, History, Host, Process, ◌>>=◌,
  is_negative,
}
use cpe_networking_rejective.HostName.{htons}
use cpe_networking_rejective.Networks.{
  any_address, to_u16, tcp_server_setup, tcp_accept, udp_server_setup,
}
use cpe_networking_rejective.Networks.Phases.{
  opened, bound, listening, connected_to, same_self, phase_of, IsLegal, Sound, go_on-Sound,
}
use cpe_networking_rejective.Networks.Calls.{
  minus_one_bad, Opened, In, when-Sound, checked-Sound, socket-Sound, bind-Sound, listen-Sound,
  getsockname-Sound, get_ip_address_string6-Sound, create_udp_socket-Sound,
}

module _ (host : Host) where
  -- TEXT
  pub tcp_server_setup-Sound :
      (port : ℤ) (p : Process)
      → IsLegal p.history
      → Sound (In (listening (htons (to_u16 port)))) (tcp_server_setup host port p)
  unfolding tcp_server_setup any_address go_on
  tcp_server_setup-Sound port p legal =
      let stored = htons (to_u16 port) in
      let Q = In (listening stored) in
      let named = bound sock_stream stored in
      go_on-Sound (Opened sock_stream) _ _ _
        (socket-Sound host sock_stream (pos 1) p (λ e. cc) legal)
        (λ o p1 legal1 now1.
          go_on-Sound (λ a h. phase_of h o.value ≡ named) _ _ _
            (bind-Sound host o.value sock_stream (any_address port) p1 legal1 now1.1)
            (λ b p2 legal2 now2.
              go_on-Sound (λ a h. phase_of h o.value ≡ named) _ _ _
                (getsockname-Sound host o.value sock_stream stored p2 legal2 now2)
                (λ n p3 legal3 now3.
                  go_on-Sound (λ a h. phase_of h o.value ≡ listening stored) _ _ _
                    (listen-Sound host o.value stored p3 legal3 now3)
                    (λ l p4 legal4 now4. (legal4, (now1.0, now4))))))

  -- From a process that has used the sockets as it may, `udpServerSetup` returns a new datagram
  -- socket that is bound to the port that was asked for, modulo 2^16, in network order, and has
  -- made no call that the phase of a socket forbids; or the last system call failed and the process
  -- has ended with a code other than 0.
  pub udp_server_setup-Sound :
      (port : ℤ) (p : Process)
      → IsLegal p.history
      → Sound (In (bound sock_dgram (htons (to_u16 port)))) (udp_server_setup host port p)
  unfolding udp_server_setup any_address go_on
  udp_server_setup-Sound port p legal =
      let stored = htons (to_u16 port) in
      let named = bound sock_dgram stored in
      let Q = In named in
      go_on-Sound (In (opened sock_dgram)) _ _ _ (create_udp_socket-Sound host p legal)
        (λ s p1 legal1 now1.
          go_on-Sound (λ a h. phase_of h s ≡ named) _ _ _
            (bind-Sound host s sock_dgram (any_address port) p1 legal1 now1.1)
            (λ b p2 legal2 now2. (((sock_dgram, stored, now2), legal2), (now1.0, now2))))

  -- TEXT
  pub tcp_accept-Sound :
      (main_server_socket : ℤ) (port : ℕ) (debug_flag : Bool) (p : Process)
      → IsLegal p.history
      → phase_of p.history main_server_socket ≡ listening port
      → Sound
          (λ s history.
            (is_negative s ≡ false) × ((b : SockAddr) × (phase_of history s ≡ connected_to b)))
          (tcp_accept host main_server_socket debug_flag p)
  unfolding tcp_accept
  tcp_accept-Sound main_server_socket port debug_flag p legal now =
      let Ready = λ (a : Answer) (h : History).
        (is_negative a.value ≡ false) × (phase_of h a.value ≡ connected_to a.address) in
      go_on-Sound Ready _ _ _
        (checked-Sound host Ready (accept main_server_socket) minus_one p minus_one_bad legal
          (port, now) (λ a. refl) (λ a up. (up, rw (up, same_self a.value) refl)))
        (λ a p1 legal1 now1.
          go_on-Sound (λ u h. Ready a h) _ _ _
            (when-Sound (Ready a) debug_flag _ p1 legal1 now1 (
              go_on-Sound (λ t h. Ready a h) _ _ _
                (get_ip_address_string6-Sound host (Ready a) (some a.address.addr) p1 legal1 now1)
                (λ t q l k. (l, k))))
            (λ u p2 legal2 now2. (legal2, (now2.0, (a.address, now2.1)))))

  -- `tcpServerSetup` and then `tcpAccept` on its socket, from a process that has used the sockets
  -- as it may, bind a new stream socket before they listen on it and listen before they accept.
  -- They return a socket that is connected to a client, or the last system call failed and the
  -- process has ended with a code other than 0.
  pub tcp_serve-Sound :
      (port : ℤ) (debug_flag : Bool) (p : Process)
      → IsLegal p.history
      → Sound
          (λ s history.
            (is_negative s ≡ false) × ((b : SockAddr) × (phase_of history s ≡ connected_to b)))
          ((tcp_server_setup host port >>= λ s. tcp_accept host s debug_flag) p)
  tcp_serve-Sound port debug_flag p legal =
      let stored = htons (to_u16 port) in
      go_on-Sound (In (listening stored)) _ _ _ (tcp_server_setup-Sound port p legal)
        (λ s q l h. tcp_accept-Sound s stored debug_flag q l h.1)
