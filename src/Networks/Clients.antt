-- ===== src/Networks/Clients.antt =====
-- udpCode_spring26_v3/networks.c: the sockets of a client, for the address and port of
-- its server.
use cpe_networking_rejective.Prelude.{ℕ, ◌≡◌, Bool, false, List}
use cpe_networking_rejective.Prelude.Int.{ℤ}
use cpe_networking_rejective.Outcome.{minus_one}
use cpe_networking_rejective.System.{
  SockAddr, sock_stream, sock_dgram, History, Host, Process, is_negative,
}
use cpe_networking_rejective.CommandLine.{atoi}
use cpe_networking_rejective.Networks.{
  port_address, tcp_client_setup, setup_udp_client_to_server, address_or,
}
use cpe_networking_rejective.Networks.Phases.{
  Phase, opened, connected_to, phase_of, IsLegal, Sound, go_on-Sound,
}
use cpe_networking_rejective.Networks.Calls.{
  minus_one_bad, Opened, In, Looked, ToPort, ToPort-Looked, found-Sound, when-Sound, socket-Sound,
  connect-Sound, get_ip_address_string6-Sound, gethostbyname6-Sound, create_udp_socket-Sound,
}

abbrev pub Connected : ℤ → ℤ → History → Type 0
Connected port s history =
    (is_negative s ≡ false)
    × ((b : SockAddr) × (phase_of history s ≡ connected_to b) × ToPort port b)

module _ (host : Host) where
  -- From a process that has used the sockets as it may, `tcpClientSetup` returns a new stream
  -- socket that is connected to an address with the family AF_INET6 and the port that was asked
  -- for, modulo 2^16, in network order, and has made no call that the phase of a socket forbids; or
  -- the last system call failed, `getaddrinfo` included, and the process has ended with a code
  -- other than 0.
  pub tcp_client_setup-Sound :
      (server_name port_text : List ℕ) (debug_flag : Bool) (p : Process)
      → IsLegal p.history
      → Sound
          (Connected (atoi port_text))
          (tcp_client_setup host server_name port_text debug_flag p)
  unfolding tcp_client_setup
  tcp_client_setup-Sound server_name port_text debug_flag p legal =
      let port = atoi port_text in
      let blank = port_address port in
      let Ready = Connected port in
      go_on-Sound (Opened sock_stream) _ _ _
        (socket-Sound host sock_stream minus_one p minus_one_bad legal)
        (λ o p1 legal1 now1.
          go_on-Sound (Looked o.value sock_stream blank) _ _ _
            (gethostbyname6-Sound host o.value sock_stream server_name blank p1 legal1 now1.1)
            (λ looked p2 legal2 now2.
              let At = λ (phase : Phase) (h : History). phase_of h o.value ≡ phase in
              let K = At (connected_to (address_or looked.1 blank)) in
              go_on-Sound (λ u h. At (opened sock_stream) h) _ _ _
                (found-Sound (At (opened sock_stream)) looked.0 p2 legal2 now2.0 now2.1)
                (λ u p3 legal3 now3.
                  go_on-Sound (λ c h. K h) _ _ _
                    (connect-Sound host o.value (address_or looked.1 blank) p3 legal3 now3)
                    (λ c p4 legal4 now4.
                      go_on-Sound (λ u h. K h) _ _ _
                        (when-Sound K debug_flag _ p4 legal4 now4 (
                          go_on-Sound (λ b h. K h) _ _ _ (legal4, now4)
                            (λ b q l k.
                              go_on-Sound (λ t h. K h) _ _ _
                                (get_ip_address_string6-Sound host K b q l k)
                                (λ t q2 l2 k2. (l2, k2)))))
                        (λ u p5 legal5 now5. (
                          legal5,
                          (
                            now1.0,
                            (
                              address_or looked.1 blank,
                              now5,
                              ToPort-Looked o.value sock_stream port looked _ now2,
                            ),
                          ),
                        ))))))

  -- TEXT
  pub setup_udp_client_to_server-Sound :
      (host_name : List ℕ) (port : ℤ) (p : Process)
      → IsLegal p.history
      → Sound
          (λ r history. In (opened sock_dgram) r.0 history × ToPort port r.1)
          (setup_udp_client_to_server host host_name port p)
  unfolding setup_udp_client_to_server
  setup_udp_client_to_server-Sound host_name port p legal =
      let blank = port_address port in
      go_on-Sound (In (opened sock_dgram)) _ _ _ (create_udp_socket-Sound host p legal)
        (λ s p1 legal1 now1.
          go_on-Sound (Looked s sock_dgram blank) _ _ _
            (gethostbyname6-Sound host s sock_dgram host_name blank p1 legal1 now1.1)
            (λ looked p2 legal2 now2.
              go_on-Sound (λ u h. phase_of h s ≡ opened sock_dgram) _ _ _
                (found-Sound (λ h. phase_of h s ≡ opened sock_dgram) looked.0 p2 legal2 now2.0
                  now2.1)
                (λ u p3 legal3 now3.
                  go_on-Sound (λ b h. phase_of h s ≡ opened sock_dgram) _ _ _ (legal3, now3)
                    (λ b q l k.
                      go_on-Sound (λ u h. phase_of h s ≡ opened sock_dgram) _ _ _ (l, k)
                        (λ u q2 l2 k2.
                          (l2, ((now1.0, k2), ToPort-Looked s sock_dgram port looked _ now2)))))))
