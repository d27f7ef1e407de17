-- ===== src/SafeUtil/Receive.antt =====
-- udpCode_spring26_v3/safeUtil.c: what `safeRecvfrom` gives of a datagram, and how it fails.
use cpe_networking_rejective.Prelude.{
  ℕ, ◌≡◌, refl, ap, ◌∙◌, ◌⊎◌, inl, inr, true, false, List, length, take, drop, take-append,
  drop-append,
}
use cpe_networking_rejective.Prelude.Int.{ℤ, pos}
use cpe_networking_rejective.Outcome.{Outcome, returns, exits, minus_one}
use cpe_networking_rejective.System.{
  SockAddr, recvfrom, Answer, Host, Process, go_on, is_negative, checked,
}
use cpe_networking_rejective.SafeUtil.{overwrite, safe_recvfrom}

-- The datagram that waits, and its sender.
pub record Datagram : Type 0 where
  pub payload : List ℕ
  pub sender : SockAddr

-- What the manual says of `recvfrom` with room for `len` bytes: it fails, or takes the datagram, of
-- which the bytes beyond `len` are lost.
abbrev pub Takes : Datagram → ℕ → Answer → Type 0
Takes d len a =
    (is_negative a.value ≡ true)
    ⊎ ((a.value ≡ pos (length (take len d.payload)))
        × (a.written ≡ take len d.payload)
        × (a.address ≡ d.sender))

-- How `safeRecvfrom` has ended: in an exit with -1 if the call failed, or with the datagram at the front
-- of the buffer, the rest of which is as before.
abbrev pub Receives : Datagram → ℕ → List ℕ → Answer → Outcome (ℤ × List ℕ × SockAddr) → Type 0
Receives d len buf a (exits code) = (code ≡ minus_one) × (is_negative a.value ≡ true)
Receives d len buf a (returns (packet_len, filled, from)) =
    (packet_len ≡ pos (length (take len d.payload)))
    × (take (length (take len d.payload)) filled ≡ take len d.payload)
    × (drop (length (take len d.payload)) filled ≡ drop (length (take len d.payload)) buf)
    × (from ≡ d.sender)

-- When `recvfrom` fails or takes a datagram, cut to the room of `len` bytes, `safeRecvfrom` exits
-- with -1 in the first case, and otherwise returns the number of bytes taken, with these at the
-- front of the buffer, the rest of the buffer as before, and the sender's address.
pub safe_recvfrom-Receives :
    (host : Host) (socket_num : ℤ) (buf : List ℕ) (len flags : ℕ) (d : Datagram) (p : Process)
    → let a = host.answer p.history (recvfrom socket_num len flags) in
      Takes d len a → Receives d len buf a (safe_recvfrom host socket_num buf len flags p).0
unfolding safe_recvfrom checked go_on
safe_recvfrom-Receives host socket_num buf len flags d p takes =
    let a = host.answer p.history (recvfrom socket_num len flags) in
    elim takes [
      | inl down ↦ rw down (refl, down)
      | inr (e, w, from) ↦
          let up : is_negative a.value ≡ false = rw e refl in
          let new = take len d.payload in
          let rest = drop (length new) buf in
          rw up (
            e,
            ap (λ x. take (length new) (overwrite x buf)) w ∙ take-append new rest,
            ap (λ x. drop (length new) (overwrite x buf)) w ∙ drop-append new rest,
            from,
          )
    ]
