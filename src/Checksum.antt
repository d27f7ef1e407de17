-- ===== src/Checksum.antt =====
-- The packet checksum as the program sees it: what it relies on of `in_cksum`, a function of
-- libcpe464 that Packet.c and PDU.c call.
pub mod InCksum
pub mod Patch
use cpe_networking_rejective.Prelude.{
  ℕ, zero, suc, ◌+◌, ◌-◌, ◌*◌, ◌/◌, ◌%◌, ◌^◌, ◌≤◌, ◌<◌, min, max, ◌≡◌, refl, sym, subst, ap, ap₂,
  ◌∙◌, ◌≢◌, ◌↔◌, ◌⊎◌, inl, inr, Bool, true, false, not, ◌&&◌, ◌||◌, Option, none, some, List, [],
  ◌∷◌, ◌++◌, append_assoc, append-nil, arith, mod-lt, mod-eq_of_lt, dec_lt, ℕ_discrete, ltb, leb,
  ◌==◌, if◌then◌else◌, ltb→lt, lt→ltb, leb→le, ==_iff, ==_true, Bool-cases, Option-cases, length,
  get_or, set, take, drop, replicate, All, length-append, length-set, length-replicate, length-take,
  length-drop, take-all, drop-all, take-append, drop-append, get_or-set_self, get_or-set_ne,
  get_or-replicate, All-append, All-take, All-imp, u32, Bytes, mod_window,
}

-- The sum of the 16 bit words of a buffer, low byte first as on the little-endian hosts that the
-- program is built for; the last byte of an odd buffer is a word of its own.
unfoldable pub word_sum : List ℕ → ℕ
word_sum [] = 0
word_sum (a ∷ []) = a
word_sum (a ∷ b ∷ r) = a + 256 * b + word_sum r

-- A number as a 16 bit one's complement sum: the carries out of the word come back in below.
unfoldable pub ones_sum : ℕ → ℕ
ones_sum s = if s == 0 then 0 else (s - 1) % 65535 + 1

-- The Internet checksum of RFC 1071: the complement of the one's complement sum of the words.
unfoldable pub internet_checksum : List ℕ → ℕ
internet_checksum p = 65535 - ones_sum (word_sum p)

-- `in_cksum(packet, len)`, and that it computes the Internet checksum, of odd lengths too, as the
-- routine of checksum.c does: see InCksum, also for its comment on odd lengths. The packets of
-- the program have both.
pub record Checksum : Type 0 where
  pub in_cksum : List ℕ → ℕ
  pub computes : (p : List ℕ) → Bytes p → length p ≤ 65535 → in_cksum p ≡ internet_checksum p
