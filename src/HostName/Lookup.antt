-- ===== src/HostName/Lookup.antt =====
-- udpCode_spring26_v3/gethostbyname.c: what a lookup returns, writes and leaves alone.
use cpe_networking_rejective.Prelude.{
  ℕ, ◌≡◌, refl, sym, ap, ◌∙◌, ◌⊎◌, inl, inr, true, false, Option, some, List, ◌++◌, append-nil,
  arith, Bool-cases, length, take, drop, take-all, drop-all, take-append, drop-append,
}
use cpe_networking_rejective.Outcome.{Outcome, returns, exits}
use cpe_networking_rejective.System.{
  SockAddr, af_inet, af_inet6, getaddrinfo, Answer, Host, Process, Sys, pure, go_on,
}
use cpe_networking_rejective.SafeUtil.{overwrite}
use cpe_networking_rejective.HostName.{
  IpPointer, null, static_ip, ip_length, hints_for, copy_address, store_ip, is_zero,
  get_ip_address46, gethostbyname4, gethostbyname6,
}

overwrite_whole :
    (n : ℕ) (new_bytes buf : List ℕ)
    → length new_bytes ≡ n
    → length buf ≡ n
    → overwrite (take n new_bytes) buf ≡ new_bytes
overwrite_whole n new_bytes buf h k =
    rw (take-all n new_bytes (omega arith), drop-all (length new_bytes) buf (omega arith))
      (append-nil new_bytes)

overwrite_front :
    (n : ℕ) (new_bytes buf : List ℕ)
    → length new_bytes ≡ n
    → take n (overwrite (take n new_bytes) buf) ≡ new_bytes
overwrite_front n new_bytes buf h = rw (take-all n new_bytes (omega arith)) (
    ap (λ k. take k (new_bytes ++ drop (length new_bytes) buf)) (sym h)
    ∙ take-append new_bytes (drop (length new_bytes) buf))

overwrite_rest :
    (n : ℕ) (new_bytes buf : List ℕ)
    → length new_bytes ≡ n
    → drop n (overwrite (take n new_bytes) buf) ≡ drop n buf
overwrite_rest n new_bytes buf h = rw (take-all n new_bytes (omega arith)) (
    ap (λ k. drop k (new_bytes ++ drop (length new_bytes) buf)) (sym h)
    ∙ drop-append new_bytes (drop (length new_bytes) buf)
    ∙ ap (λ k. drop k buf) h)

-- What the system answers a lookup of the name, from the state of the process.
abbrev pub lookup_answer : Host → List ℕ → ℕ → Process → Answer
lookup_answer host host_name address_family p =
    host.answer p.history (getaddrinfo host_name (hints_for address_family))

-- How a lookup into the structure `a` has ended: it found an address, which is in the structure, whose
-- other fields are kept, and behind the pointer; or it returned NULL, with the structure and the
-- static buffer as they were.
abbrev pub Lookup :
    Answer → ℕ → SockAddr → Process → Outcome (IpPointer × Option SockAddr) × Process → Type 0
Lookup answer n a p (exits code, q) = ⊥
Lookup answer n a p (returns (pointer, filled), q) =
    ((is_zero answer.value ≡ true)
      × (pointer ≡ static_ip)
      × (filled ≡ some (record a { addr = answer.address.addr }))
      × (take n q.ip_address ≡ answer.address.addr)
      × (drop n q.ip_address ≡ drop n p.ip_address))
    ⊎ ((is_zero answer.value ≡ false)
        × (pointer ≡ null)
        × (filled ≡ some a)
        × (q.ip_address ≡ p.ip_address))

module _ (host : Host) where
  get_ip_address46-Lookup :
      (host_name : List ℕ) (a : SockAddr) (family : ℕ) (p : Process)
      → length (lookup_answer host host_name family p).address.addr ≡ ip_length family
      → length a.addr ≡ ip_length family
      → Lookup
          (lookup_answer host host_name family p)
          (ip_length family)
          a
          p
          (go_on (λ r. pure (r.0, some r.1)) (get_ip_address46 host host_name a family p))
  unfolding get_ip_address46 go_on copy_address store_ip
  get_ip_address46-Lookup host_name a family p full room =
      let answer = lookup_answer host host_name family p in
      let n = ip_length family in
      let ip = answer.address.addr in
      let whole = overwrite_whole n ip a.addr full room in
      elim (Bool-cases (is_zero answer.value)) [
        | inl good ↦ rw good (
            inl (
              good,
              refl,
              ap (λ x. some (record a { addr = x })) whole,
              ap (λ x. take n (overwrite (take n x) p.ip_address)) whole
                  ∙ overwrite_front n ip p.ip_address full,
              ap (λ x. drop n (overwrite (take n x) p.ip_address)) whole
                  ∙ overwrite_rest n ip p.ip_address full,
            ))
        | inr bad ↦ rw bad (inr (bad, refl, refl, refl))
      ]

-- The two lookups.
pub data IpVersion : Type 0 where
  four : IpVersion
  six : IpVersion

abbrev pub family_of : IpVersion → ℕ
family_of four = af_inet
family_of six = af_inet6

abbrev pub gethostbyname :
    Host → IpVersion → List ℕ → Option SockAddr → Sys (IpPointer × Option SockAddr)
gethostbyname host four = gethostbyname4 host
gethostbyname host six = gethostbyname6 host

-- `gethostbyname4` and `gethostbyname6` on a structure with room for an address, when `getaddrinfo`
-- gives addresses of the length that it was asked for: if it succeeds, the first address is in the
-- structure, whose other fields are kept, and at the front of the static buffer, the rest of which
-- is kept, and the pointer is to this buffer; if it fails, the pointer is NULL, and the structure
-- and the buffer are as before.
pub gethostbyname-Lookup :
    (host : Host) (version : IpVersion) (host_name : List ℕ) (a : SockAddr) (p : Process)
    → length (lookup_answer host host_name (family_of version) p).address.addr
      ≡ ip_length (family_of version)
    → length a.addr ≡ ip_length (family_of version)
    → Lookup
        (lookup_answer host host_name (family_of version) p)
        (ip_length (family_of version))
        a
        p
        (gethostbyname host version host_name (some a) p)
unfolding gethostbyname4 gethostbyname6
gethostbyname-Lookup host four host_name a p full room =
    get_ip_address46-Lookup host host_name a af_inet p full room
gethostbyname-Lookup host six host_name a p full room =
    get_ip_address46-Lookup host host_name a af_inet6 p full room
