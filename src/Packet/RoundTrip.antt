-- ===== src/Packet/RoundTrip.antt =====
-- Packet.c: what `make_packet` builds, `check_packet` accepts and the field readers read back.
use cpe_networking_rejective.Prelude.{
  ℕ, ◌+◌, ◌/◌, ◌%◌, ◌^◌, ◌≤◌, ◌<◌, ◌≡◌, refl, true, List, ◌∷◌, arith, length, take, drop,
  length-take, All-take, Bytes,
}
use cpe_networking_rejective.Checksum.{Checksum, internet_checksum}
use cpe_networking_rejective.Checksum.Patch.{internet_checksum-le, internet_checksum-patch}
use cpe_networking_rejective.Packet.{
  read_u32, get_seq, get_flag, make_packet, check_packet, srej_header_len, srej_max_data,
}

module _ ⦃ck : Checksum⦄ where
  -- The value that `make_packet` returns.
  pub length-make_packet :
      (seq flag : ℕ) (payload : List ℕ) (data_len : ℕ)
      → data_len ≤ length payload
      → length (make_packet seq flag payload data_len) ≡ srej_header_len + data_len
  unfolding make_packet
  length-make_packet seq flag payload data_len h = omega (arith, length-take data_len payload)

  pub length_bounds :
      (seq flag : ℕ) (payload : List ℕ) (data_len : ℕ)
      → let n = length (make_packet seq flag payload data_len) in
        (srej_header_len ≤ n) × (n ≤ srej_header_len + data_len)
  unfolding make_packet
  length_bounds seq flag payload data_len = omega (arith, length-take data_len payload)

  pub get_seq-make_packet :
      (seq flag : ℕ) (payload : List ℕ) (data_len : ℕ)
      → seq < 2 ^ 32
      → get_seq (make_packet seq flag payload data_len) ≡ seq
  unfolding make_packet get_seq read_u32
  get_seq-make_packet seq flag payload data_len h = omega arith

  pub get_flag-make_packet :
      (seq flag : ℕ) (payload : List ℕ) (data_len : ℕ)
      → get_flag (make_packet seq flag payload data_len) ≡ flag
  unfolding make_packet get_flag
  get_flag-make_packet seq flag payload data_len = refl

  pub drop-make_packet :
      (seq flag : ℕ) (payload : List ℕ) (data_len : ℕ)
      → drop srej_header_len (make_packet seq flag payload data_len) ≡ take data_len payload
  unfolding make_packet
  drop-make_packet seq flag payload data_len = refl

  -- The header before the checksum is stored, and the payload.
  abbrev unsummed : ℕ → ℕ → List ℕ → List ℕ
  unsummed seq flag body =
      (seq / 2 ^ 24 % 256)
      ∷ (seq / 2 ^ 16 % 256)
      ∷ (seq / 2 ^ 8 % 256)
      ∷ (seq % 256)
      ∷ 0
      ∷ 0
      ∷ flag
      ∷ body

  pub make_packet-Bytes :
      (seq flag : ℕ) (payload : List ℕ) (data_len : ℕ)
      → flag < 256
      → Bytes payload
      → Bytes (make_packet seq flag payload data_len)
  unfolding make_packet
  make_packet-Bytes seq flag payload data_len h k = (
    omega arith,
    (
      omega arith,
      (
        omega arith,
        (
          omega arith,
          (omega arith, (omega arith, (h, All-take (λ b. b < 256) data_len payload k))),
        ),
      ),
    ),
  )

  unsummed-Bytes :
      (seq flag : ℕ) (body : List ℕ) → flag < 256 → Bytes body → Bytes (unsummed seq flag body)
  unsummed-Bytes seq flag body h k = (
    omega arith,
    (omega arith, (omega arith, (omega arith, (omega arith, (omega arith, (h, k)))))),
  )

  -- The stored checksum is the Internet checksum of the packet with a zero in its place.
  make_packet-eq :
      (seq flag : ℕ) (payload : List ℕ) (data_len : ℕ)
      → flag < 256
      → Bytes payload
      → data_len ≤ srej_max_data
      → let body = take data_len payload in
        let k = internet_checksum (unsummed seq flag body) in
        make_packet seq flag payload data_len
        ≡ (seq / 2 ^ 24 % 256)
          ∷ (seq / 2 ^ 16 % 256)
          ∷ (seq / 2 ^ 8 % 256)
          ∷ (seq % 256)
          ∷ (k % 256)
          ∷ (k / 256)
          ∷ flag
          ∷ body
  unfolding make_packet
  make_packet-eq seq flag payload data_len h k small =
      let body = take data_len payload in
      let z = unsummed seq flag body in
      let e =
        ck.computes z (unsummed-Bytes seq flag body h (All-take (λ b. b < 256) data_len payload k))
          (omega (arith, length-take data_len payload)) in
      let fits : internet_checksum z / 256 % 256 ≡ internet_checksum z / 256 =
        omega (arith, internet_checksum-le z) in
      rw (e, fits)

  -- `check_packet` accepts every packet that `make_packet` builds of a one byte flag, a payload of
  -- bytes and a length of at most 1400, odd lengths included, when the checksum routine computes
  -- the Internet checksum of RFC 1071 of the packet, as the one of checksum.c does.
  pub check_packet-make_packet :
      (seq flag : ℕ) (payload : List ℕ) (data_len : ℕ)
      → flag < 256
      → Bytes payload
      → data_len ≤ srej_max_data
      → check_packet (make_packet seq flag payload data_len) ≡ true
  unfolding check_packet
  check_packet-make_packet seq flag payload data_len h k small =
      let p = make_packet seq flag payload data_len in
      let body = take data_len payload in
      let e : internet_checksum p ≡ 0 = rw (make_packet-eq seq flag payload data_len h k small) (
        internet_checksum-patch (seq / 2 ^ 24 % 256) (seq / 2 ^ 16 % 256) (seq / 2 ^ 8 % 256)
          (seq % 256) (flag ∷ body)) in
      let n = length_bounds seq flag payload data_len in
      let d =
        ck.computes p (make_packet-Bytes seq flag payload data_len h k) (omega (arith, n.1)) in
      ground (arith, e, d, n)

  -- Of a packet that `make_packet` builds with a 32 bit number and no more bytes than the payload
  -- has, `get_seq` and `get_flag` read the number and the flag, the bytes after the header are the
  -- payload's, and the length is 7 more than theirs.
  pub packet_fields :
      (seq flag : ℕ) (payload : List ℕ) (data_len : ℕ)
      → seq < 2 ^ 32
      → data_len ≤ length payload
      → let packet = make_packet seq flag payload data_len in
        (get_seq packet ≡ seq)
        × (get_flag packet ≡ flag)
        × (drop srej_header_len packet ≡ take data_len payload)
        × (length packet ≡ srej_header_len + data_len)
  packet_fields seq flag payload data_len h le = (
    get_seq-make_packet seq flag payload data_len h,
    get_flag-make_packet seq flag payload data_len,
    drop-make_packet seq flag payload data_len,
    length-make_packet seq flag payload data_len le,
  )
