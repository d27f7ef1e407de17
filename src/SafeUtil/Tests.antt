-- ===== src/SafeUtil/Tests.antt =====
-- Evaluations of the definitions of SafeUtil.antt.
use cpe_networking_rejective.Prelude.{◌≡◌, refl, [], ◌∷◌, replicate}
use cpe_networking_rejective.Prelude.Int.{pos, negsuc}
use cpe_networking_rejective.Outcome.{returns, exits, minus_one}
use cpe_networking_rejective.System.{zero_address, sendto, Host, started, go_on, checked}
use cpe_networking_rejective.SafeUtil.{safe_recvfrom, safe_sendto, safe_recv, safe_send}

-- Every call moves three bytes.
abbrev three_bytes : Host
three_bytes = record {
  answer = λ history call. record {
    value = pos 3;
    written = 104 ∷ 101 ∷ 108 ∷ [];
    address = zero_address;
  };
  inet_ntop = λ family ip. ip;
}

abbrev unreachable : Host
unreachable = record {
  answer = λ history call. record { value = negsuc 100; written = []; address = zero_address };
  inet_ntop = λ family ip. ip;
}

recvfrom_test :
    (safe_recvfrom three_bytes (pos 3) (replicate 5 0) 3 0 started).0
    ≡ returns (pos 3, 104 ∷ 101 ∷ 108 ∷ 0 ∷ 0 ∷ [], zero_address)
unfolding safe_recvfrom checked go_on
recvfrom_test = refl

recv_test :
    (safe_recv three_bytes (pos 3) (replicate 4 0) 3 0 started).0
    ≡ returns (pos 3, 104 ∷ 101 ∷ 108 ∷ 0 ∷ [])
unfolding safe_recv checked go_on
recv_test = refl

sendto_test :
    (safe_sendto three_bytes (pos 3) (1 ∷ 2 ∷ 3 ∷ 4 ∷ []) 3 0 zero_address 28 started).1.history
    ≡ (
      sendto (pos 3) (1 ∷ 2 ∷ 3 ∷ []) 0 zero_address 28,
      record { value = pos 3; written = 104 ∷ 101 ∷ 108 ∷ []; address = zero_address },
    )
      ∷ []
unfolding safe_sendto checked go_on
sendto_test = refl

send_test : (safe_send unreachable (pos 3) (1 ∷ []) 1 0 started).0 ≡ exits minus_one
unfolding safe_send checked go_on
send_test = refl
