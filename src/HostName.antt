-- ===== src/HostName.antt =====
-- udpCode_spring26_v3/gethostbyname.c: the first address of a host, and addresses as text.
-- The pointer that the lookups return is NULL or points to their static buffer `ipAddress`, so a
-- later lookup changes what it points to. `none` for an address structure is NULL. The numbers of
-- AI_V4MAPPED and AI_ALL are those of Linux.
pub mod Lookup
mod Tests
use Prim.Native.Char.{code}
use Prim.Native.String.{String}
use cpe_networking_rejective.Prelude.{
  ℕ, zero, suc, ◌+◌, ◌*◌, ◌/◌, ◌%◌, Bool, true, false, not, Option, none, some, List, [], ◌∷◌, ◌==◌,
  if◌then◌else◌, take,
}
use cpe_networking_rejective.Prelude.Int.{ℤ, pos, negsuc}
use cpe_networking_rejective.Outcome.{returns}
use cpe_networking_rejective.System.{
  SockAddr, af_inet, af_inet6, zero_address, Hints, getaddrinfo, Host, ip_info, host_ip, blank,
  Process, Sys, pure, ◌>>=◌, ◌>>◌, print, system,
}
use cpe_networking_rejective.SafeUtil.{overwrite}

-- The bytes of an ASCII text.
abbrev pub codes : String → List ℕ
codes String.[] = []
codes (String.◌∷◌ c s) = code c ∷ codes s

pub data IpPointer : Type 0 where
  null : IpPointer
  static_ip : IpPointer

-- What a pointer points to.
abbrev pub bytes_at : IpPointer → Process → Option (List ℕ)
bytes_at null p = none
bytes_at static_ip p = some p.ip_address

-- `ntohs` and `htons` of a little endian machine, on a `uint16_t`.
unfoldable pub htons : ℕ → ℕ
htons n = n % 256 * 256 + n / 256 % 256

abbrev pub ntohs : ℕ → ℕ
ntohs = htons

-- How many bytes an address of a family has.
abbrev pub ip_length : ℕ → ℕ
ip_length address_family = if address_family == af_inet then 4 else 16

unfoldable pub hints_for : ℕ → Hints
hints_for address_family =
    if address_family == af_inet
    then record { flags = 0; family = af_inet }
    else record { flags = 8 + 16; family = af_inet6 }

-- The two `memcpy` of `getIPAddress46`.
unfoldable pub copy_address : ℕ → SockAddr → SockAddr → SockAddr
copy_address n found a_sockaddr = record a_sockaddr {
  addr = overwrite (take n found.addr) a_sockaddr.addr;
}

unfoldable pub store_ip : ℕ → SockAddr → Process → Process
store_ip n a_sockaddr p = record p { ip_address = overwrite (take n a_sockaddr.addr) p.ip_address }

-- The second `memcpy`, and the pointer to its target.
abbrev pub point_to_static : ℕ → SockAddr → Sys (IpPointer × SockAddr)
point_to_static n filled p = (returns (static_ip, filled), store_ip n filled p)

abbrev pub is_zero : ℤ → Bool
is_zero (pos zero) = true
is_zero (pos (suc n)) = false
is_zero (negsuc n) = false

module _ (host : Host) where
  -- The pointer, and `*aSockaddr`.
  unfoldable pub get_ip_address46 : List ℕ → SockAddr → ℕ → Sys (IpPointer × SockAddr)
  unfolding hints_for copy_address store_ip
  get_ip_address46 host_name a_sockaddr address_family = do
    a ← system host (getaddrinfo host_name (hints_for address_family))
    let n = ip_length address_family
    let filled = copy_address n a.address a_sockaddr
    if is_zero a.value then point_to_static n filled else pure (null, a_sockaddr)

  -- `*aSockaddr` comes back as NULL if the caller gave none.
  unfoldable pub gethostbyname4 : List ℕ → Option SockAddr → Sys (IpPointer × Option SockAddr)
  unfolding get_ip_address46
  gethostbyname4 host_name none = do
    (pointer, temp) ← get_ip_address46 host_name zero_address af_inet
    pure (pointer, none)
  gethostbyname4 host_name (some a_sockaddr) = do
    (pointer, filled) ← get_ip_address46 host_name a_sockaddr af_inet
    pure (pointer, some filled)

  unfoldable pub gethostbyname6 : List ℕ → Option SockAddr → Sys (IpPointer × Option SockAddr)
  unfolding get_ip_address46
  gethostbyname6 host_name none = do
    (pointer, temp) ← get_ip_address46 host_name zero_address af_inet6
    pure (pointer, none)
  gethostbyname6 host_name (some a_sockaddr) = do
    (pointer, filled) ← get_ip_address46 host_name a_sockaddr af_inet6
    pure (pointer, some filled)

  -- The bytes that `ipAddress` points to, or `none` for NULL; the text is left in `ipString`.
  unfoldable pub get_ip_address_string46 : Option (List ℕ) → ℕ → Sys (List ℕ)
  get_ip_address_string46 none address_family p =
      let text = codes "(IP not found)" in (returns text, record p { ip_string = text })
  get_ip_address_string46 (some ip_address) address_family p =
      let text = host.inet_ntop address_family (take (ip_length address_family) ip_address) in
      (returns text, record p { ip_string = text })

  unfoldable pub get_ip_address_string4 : Option (List ℕ) → Sys (List ℕ)
  unfolding get_ip_address_string46
  get_ip_address_string4 ip_address = get_ip_address_string46 ip_address af_inet

  unfoldable pub get_ip_address_string6 : Option (List ℕ) → Sys (List ℕ)
  unfolding get_ip_address_string46
  get_ip_address_string6 ip_address = get_ip_address_string46 ip_address af_inet6

  unfoldable pub ip_address_to_string : SockAddr → Sys (List ℕ)
  ip_address_to_string ip_address_struct p =
      let text = host.inet_ntop af_inet6 (take 16 ip_address_struct.addr) in
      (returns text, record p { info_string = text })

  unfoldable pub print_ip_info : SockAddr → Sys (Unit {0})
  unfolding ip_address_to_string htons
  print_ip_info ip_address_struct = do
    ip_string ← ip_address_to_string ip_address_struct
    print (ip_info ip_string (ntohs ip_address_struct.port))

  -- One of the two halves of `gethostbyname_test_lookup`: a pointer that is not NULL is printed.
  unfoldable pub print_host_ip : ℕ → List ℕ → IpPointer → Sys (Unit {0})
  unfolding get_ip_address_string46
  print_host_ip address_family host_name null p = (returns tt, p)
  print_host_ip address_family host_name static_ip p =
      (do
        text ← get_ip_address_string46 (some p.ip_address) address_family
        print (host_ip address_family host_name text))
        p

  unfoldable pub gethostbyname_test_lookup : List ℕ → Sys (Unit {0})
  unfolding gethostbyname4 gethostbyname6 print_host_ip
  gethostbyname_test_lookup host_name = do
    (six, temp6) ← gethostbyname6 host_name none
    print_host_ip af_inet6 host_name six
    (four, temp4) ← gethostbyname4 host_name none
    print_host_ip af_inet host_name four
    print blank

  unfoldable pub gethostbyname_test : Sys (Unit {0})
  unfolding gethostbyname_test_lookup
  gethostbyname_test = do
    gethostbyname_test_lookup (codes "www.google.com")
    gethostbyname_test_lookup (codes "ipv6.google.com")
    gethostbyname_test_lookup (codes "my.calpoly.edu")
    gethostbyname_test_lookup (codes "does not exist")
