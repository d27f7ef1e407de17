-- ===== src/Checksum/InCksum.antt =====
-- libcpe464_2_21b/libcpe464/checksum.c: `in_cksum`, and that it keeps the promise of `Checksum`.
-- The NOTE at the head of the file says that the length must be even, since the routine goes off the
-- end of odd data by one byte, and that the byte there must be zero. The code takes the last byte of
-- odd data by itself, as a `u_char`: `in_cksum` is modelled with what stands in memory after the data.
use cpe_networking_rejective.Prelude.{
  ℕ, zero, suc, ◌+◌, ◌-◌, ◌*◌, ◌/◌, ◌%◌, ◌^◌, ◌≤◌, ◌<◌, ◌≡◌, refl, sym, subst, ap, ◌∙◌, List, [],
  ◌∷◌, arith, length, get_or, take, drop, length-take, take-all, Bytes,
}
use cpe_networking_rejective.Checksum.{Checksum, word_sum, ones_sum, internet_checksum}

-- The `while (nleft > 1)` loop and the odd byte after it; `w` is the memory from the pointer on. `int
-- sum` does not overflow on buffers of up to 65535 bytes: see `sum_words-lt`.
unfoldable pub sum_words : ℕ → List ℕ → ℕ → ℕ
sum_words sum w zero = sum
sum_words sum w (suc zero) = sum + get_or w 0 0
sum_words sum w (suc (suc nleft)) =
    sum_words (sum + (get_or w 0 0 + 256 * get_or w 1 0)) (drop 2 w) nleft

-- `sum = (sum >> 16) + (sum & 0xffff); sum += (sum >> 16); answer = ~sum;`
unfoldable pub fold_sum : ℕ → ℕ
fold_sum sum = let once = sum / 2 ^ 16 + sum % 2 ^ 16 in 65535 - (once + once / 2 ^ 16) % 2 ^ 16

-- `addr` is the memory from the address on, `len` bytes of which are the data.
unfoldable pub in_cksum : List ℕ → ℕ → ℕ
unfolding sum_words fold_sum
in_cksum addr len = fold_sum (sum_words 0 addr len)

sum_words-word_sum :
    (sum : ℕ) (w : List ℕ) (nleft : ℕ)
    → nleft ≤ length w
    → sum_words sum w nleft ≡ sum + word_sum (take nleft w)
unfolding sum_words word_sum
sum_words-word_sum sum w zero h = omega arith
sum_words-word_sum sum [] (suc nleft) h = absurd (omega arith)
sum_words-word_sum sum (a ∷ w) (suc zero) h = refl
sum_words-word_sum sum (a ∷ []) (suc (suc nleft)) h = absurd (omega arith)
sum_words-word_sum sum (a ∷ b ∷ w) (suc (suc nleft)) h =
    omega (arith, sum_words-word_sum (sum + (a + 256 * b)) w nleft (omega arith))

word_sum-le : (p : List ℕ) → Bytes p → 2 * word_sum p ≤ 65535 * (length p + 1)
unfolding word_sum
word_sum-le [] h = omega arith
word_sum-le (a ∷ []) h = omega arith
word_sum-le (a ∷ b ∷ r) h = omega (arith, word_sum-le r h.1.1)

-- The C `int` holds the sum.
sum_words-lt :
    (addr : List ℕ) (len : ℕ)
    → Bytes (take len addr)
    → len ≤ length addr
    → len ≤ 65535
    → sum_words 0 addr len < 2 ^ 31
sum_words-lt addr len h k l =
    omega
      (arith, sum_words-word_sum 0 addr len k, word_sum-le (take len addr) h, length-take len addr)

-- Folding the carries back twice gives the one's complement sum.
fold_sum-ones_sum : (s : ℕ) → s < 2 ^ 31 → fold_sum s ≡ 65535 - ones_sum s
unfolding fold_sum ones_sum
fold_sum-ones_sum s h = ground arith

-- `in_cksum` of an address and a length of at most 65535, odd or even, is the Internet checksum of
-- RFC 1071 of the bytes that are the data, whatever stands in memory behind them.
pub in_cksum-internet_checksum :
    (addr : List ℕ) (len : ℕ)
    → Bytes (take len addr)
    → len ≤ length addr
    → len ≤ 65535
    → in_cksum addr len ≡ internet_checksum (take len addr)
unfolding in_cksum internet_checksum
in_cksum-internet_checksum addr len h k l =
    let e : sum_words 0 addr len ≡ word_sum (take len addr) =
      omega (arith, sum_words-word_sum 0 addr len k) in
    fold_sum-ones_sum (sum_words 0 addr len) (sum_words-lt addr len h k l)
    ∙ ap (λ s. 65535 - ones_sum s) e

-- A packet and its length as one list, with nothing behind it.
pub in_cksum_whole :
    (p : List ℕ) → Bytes p → length p ≤ 65535 → in_cksum p (length p) ≡ internet_checksum p
in_cksum_whole p h k =
    let whole : take (length p) p ≡ p = take-all (length p) p (omega arith) in
    in_cksum-internet_checksum p (length p) (subst Bytes (sym whole) h) (omega arith) k
    ∙ ap internet_checksum whole

instance abbrev pub linked : Checksum
linked = record { in_cksum = λ p. in_cksum p (length p); computes = in_cksum_whole }
