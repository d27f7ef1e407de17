-- ===== src/HostName/Tests.antt =====
-- Evaluations of the definitions of HostName.antt, and the theorem on them at a concrete input.
use cpe_networking_rejective.Prelude.{ℕ, ◌≡◌, refl, Option, none, some, List, [], ◌∷◌, replicate}
use cpe_networking_rejective.Prelude.Int.{pos, negsuc}
use cpe_networking_rejective.Outcome.{returns}
use cpe_networking_rejective.System.{
  SockAddr, af_inet, af_inet6, zero_address, Hints, Call, socket, bind, getsockname, listen, accept,
  connect, getaddrinfo, recvfrom, sendto, recv, send, Answer, Host, ip_info, host_ip, blank,
  started, Sys, go_on, ◌>>=◌,
}
use cpe_networking_rejective.HostName.{
  codes, null, static_ip, bytes_at, htons, ip_length, hints_for, copy_address, store_ip,
  get_ip_address46, gethostbyname4, gethostbyname6, get_ip_address_string46, get_ip_address_string4,
  get_ip_address_string6, ip_address_to_string, print_ip_info, print_host_ip,
  gethostbyname_test_lookup, gethostbyname_test,
}
use cpe_networking_rejective.HostName.Lookup.{
  lookup_answer, Lookup, six, family_of, gethostbyname, gethostbyname-Lookup,
}

abbrev nobody : SockAddr
nobody = zero_address

abbrev with_ip : List ℕ → SockAddr
with_ip ip = record { family = af_inet6; port = 0; addr = ip }

-- The only host known has the addresses 7 ... 7; its name is 1 byte long.
abbrev resolve : List ℕ → Hints → Answer
resolve (c ∷ []) hints = record {
  value = pos 0;
  written = [];
  address = with_ip (replicate (ip_length hints.family) c);
}
resolve [] hints = record { value = pos 2; written = []; address = nobody }
resolve (c ∷ d ∷ cs) hints = record { value = negsuc 1; written = []; address = nobody }

abbrev nothing_to_say : Answer
nothing_to_say = record { value = pos 0; written = []; address = nobody }

abbrev reply : Call → Answer
reply (socket kind) = nothing_to_say
reply (bind f address) = nothing_to_say
reply (getsockname f) = nothing_to_say
reply (listen f backlog) = nothing_to_say
reply (accept f) = nothing_to_say
reply (connect f address) = nothing_to_say
reply (getaddrinfo name hints) = resolve name hints
reply (recvfrom f len flags) = nothing_to_say
reply (sendto f buf flags address n) = nothing_to_say
reply (recv f len flags) = nothing_to_say
reply (send f buf flags) = nothing_to_say

-- An address is printed by its bytes.
abbrev resolver : Host
resolver = record { answer = λ history call. reply call; inet_ntop = λ family ip. ip }

found_test : (gethostbyname4 resolver (7 ∷ []) none started).0 ≡ returns (static_ip, none)
unfolding gethostbyname4 get_ip_address46 hints_for copy_address store_ip go_on
found_test = refl

missing_test :
    (gethostbyname6 resolver [] (some zero_address) started).0 ≡ returns (null, some zero_address)
unfolding gethostbyname6 get_ip_address46 hints_for copy_address store_ip go_on
missing_test = refl

-- Both pointers are to one buffer: after the second lookup the first one points to the second address.
two_lookups : Sys (Option (List ℕ))
unfolding gethostbyname4
two_lookups = do
  (first_pointer, a) ← gethostbyname4 resolver (7 ∷ []) none
  (second_pointer, b) ← gethostbyname4 resolver (8 ∷ []) none
  (λ p. (returns (bytes_at first_pointer p), p))

overwritten_test : (two_lookups started).0 ≡ returns (some (8 ∷ 8 ∷ 8 ∷ 8 ∷ replicate 42 0))
unfolding two_lookups gethostbyname4 get_ip_address46 hints_for copy_address store_ip go_on
overwritten_test = refl

test_lookup_test :
    (gethostbyname_test_lookup resolver (7 ∷ []) started).1.printed
    ≡ blank
      ∷ host_ip af_inet (7 ∷ []) (replicate 4 7)
      ∷ host_ip af_inet6 (7 ∷ []) (replicate 16 7)
      ∷ []
unfolding gethostbyname_test_lookup gethostbyname4 gethostbyname6 get_ip_address46 hints_for
    copy_address store_ip print_host_ip get_ip_address_string46 go_on
test_lookup_test = refl

-- None of its four names has one byte.
test_test : (gethostbyname_test resolver started).1.printed ≡ blank ∷ blank ∷ blank ∷ blank ∷ []
unfolding gethostbyname_test gethostbyname_test_lookup gethostbyname4 gethostbyname6
    get_ip_address46 hints_for copy_address store_ip print_host_ip get_ip_address_string46 go_on
test_test = refl

not_found_test : (get_ip_address_string6 resolver none started).0 ≡ returns (codes "(IP not found)")
unfolding get_ip_address_string6 get_ip_address_string46
not_found_test = refl

string4_test :
    (get_ip_address_string4 resolver (some (1 ∷ 2 ∷ 3 ∷ 4 ∷ 5 ∷ [])) started).0
    ≡ returns (1 ∷ 2 ∷ 3 ∷ 4 ∷ [])
unfolding get_ip_address_string4 get_ip_address_string46
string4_test = refl

-- Port 80 is stored as 0x5000.
info_test :
    (print_ip_info resolver (record (with_ip (replicate 16 1)) { port = 20480 }) started).1.printed
    ≡ ip_info (replicate 16 1) 80 ∷ []
unfolding print_ip_info ip_address_to_string htons go_on
info_test = refl

gethostbyname-Lookup_example :
    Lookup
      (lookup_answer resolver (7 ∷ []) (family_of six) started)
      (ip_length (family_of six))
      zero_address
      started
      (gethostbyname resolver six (7 ∷ []) (some zero_address) started)
unfolding hints_for
gethostbyname-Lookup_example =
    gethostbyname-Lookup resolver six (7 ∷ []) zero_address started refl refl
