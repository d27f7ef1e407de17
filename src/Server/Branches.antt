-- ===== src/Server/Branches.antt =====
-- udpCode_spring26_v3/server.c: the branches of `recv_data_state`.
use cpe_networking_rejective.Prelude.{
  ℕ, ◌≡◌, refl, ◌≢◌, true, false, Option, none, some, List, arith,
}
use cpe_networking_rejective.Checksum.{Checksum}
use cpe_networking_rejective.Net.{timeout, arrives, received}
use cpe_networking_rejective.Packet.{flag_data, flag_eof, get_flag, check_packet}
use cpe_networking_rejective.Server.{
  ServerInfo, System, State, recv_data, wait_on_done, done, handle_eof_packet, handle_data_packet,
  recv_data_state,
}

module _ ⦃ck : Checksum⦄ where
  abbrev pub after_piece : Option ServerInfo → Option (ServerInfo × State)
  after_piece none = none
  after_piece (some i) = some (i, recv_data)

  module _ (os : System) where
    -- The branches of `recv_data_state`.
    pub recv_quiet : (info : ServerInfo) → recv_data_state os info timeout ≡ some (info, done)
    unfolding recv_data_state
    recv_quiet info = refl

    pub recv_bad :
        (info : ServerInfo) (from : ℕ) (data_in : List ℕ)
        → check_packet (received data_in) ≡ false
        → recv_data_state os info (arrives from data_in)
          ≡ some (record info { client = from }, recv_data)
    unfolding recv_data_state
    recv_bad info from data_in bad = ground (arith, bad)

    pub recv_piece :
        (info : ServerInfo) (from : ℕ) (data_in : List ℕ) (r : Option ServerInfo)
        → check_packet (received data_in) ≡ true
        → get_flag (received data_in) ≡ flag_data
        → handle_data_packet os (record info { client = from }) (received data_in) ≡ r
        → recv_data_state os info (arrives from data_in) ≡ after_piece r
    unfolding recv_data_state
    recv_piece info from data_in r good flag e = ground (arith, good, flag, e)

    pub recv_eof :
        (info : ServerInfo) (from : ℕ) (data_in : List ℕ)
        → check_packet (received data_in) ≡ true
        → get_flag (received data_in) ≡ flag_eof
        → recv_data_state os info (arrives from data_in)
          ≡ some (handle_eof_packet (record info { client = from }), wait_on_done)
    unfolding recv_data_state
    recv_eof info from data_in good flag = ground (arith, good, flag)

    pub recv_noise :
        (info : ServerInfo) (from : ℕ) (data_in : List ℕ)
        → check_packet (received data_in) ≡ true
        → get_flag (received data_in) ≢ flag_data
        → get_flag (received data_in) ≢ flag_eof
        → recv_data_state os info (arrives from data_in)
          ≡ some (record info { client = from }, recv_data)
    unfolding recv_data_state
    recv_noise info from data_in good no_data no_eof = ground (arith, good, no_data, no_eof)
