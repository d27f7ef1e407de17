-- ===== src/Upload.antt =====
-- The abstract view that client and server share: the file as numbered pieces.
use cpe_networking_rejective.Prelude.{
  ℕ, zero, suc, ◌+◌, ◌≤◌, ◌<◌, ◌≡◌, true, Option, none, List, [], ◌++◌, drop,
}
use cpe_networking_rejective.Checksum.{Checksum}
use cpe_networking_rejective.Packet.{
  srej_header_len, flag_data, flag_rr, read_u32, get_seq, get_flag, check_packet,
}

-- The file that is sent: the packet with number `s`, from `first` up to but not including `limit`,
-- carries the bytes `chunk s`.
pub record Upload : Type 0 where
  pub chunk : ℕ → List ℕ
  pub first : ℕ
  pub limit : ℕ

-- The first `n` packets of the file, from number `s` on.
abbrev pub chunks : (ℕ → List ℕ) → ℕ → ℕ → List ℕ
chunks chunk s zero = []
chunks chunk s (suc n) = chunk s ++ chunks chunk (suc s) n

-- `write` fails for a piece of the file, when the output file holds the pieces before it.
abbrev pub RefusesPiece : (List ℕ → List ℕ → Option ℕ) → Upload → Type 0
RefusesPiece write f =
    (k : ℕ) × (f.first + k < f.limit)
    × (write (chunks f.chunk f.first k) (f.chunk (f.first + k)) ≡ none)

-- An intact data packet of this file. (The checksum is what tells a damaged one.)
abbrev pub IsGenuine : ⦃ck : Checksum⦄ → Upload → List ℕ → Type 0
IsGenuine f packet =
    check_packet packet ≡ true
    → get_flag packet ≡ flag_data
    → (get_seq packet < f.limit) × (drop srej_header_len packet ≡ f.chunk (get_seq packet))

-- An intact data packet is a piece of this file: it has a number of the file, from the first on, and
-- carries the bytes of that number.
abbrev pub IsPiece : ⦃ck : Checksum⦄ → Upload → List ℕ → Type 0
IsPiece f packet =
    check_packet packet ≡ true
    → get_flag packet ≡ flag_data
    → (f.first ≤ get_seq packet)
      × (get_seq packet < f.limit)
      × (drop srej_header_len packet ≡ f.chunk (get_seq packet))

pub IsPiece-IsGenuine :
    ⦃ck : Checksum⦄ → (f : Upload) (packet : List ℕ) → IsPiece f packet → IsGenuine f packet
IsPiece-IsGenuine f packet h = λ good flag. let (low, small, body) = h good flag in (small, body)

-- An intact RR of the server is for at most `top`.
abbrev pub RrLe : ⦃ck : Checksum⦄ → ℕ → List ℕ → Type 0
RrLe top packet =
    check_packet packet ≡ true
    → get_flag packet ≡ flag_rr
    → read_u32 (drop srej_header_len packet) ≤ top
