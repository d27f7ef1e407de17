-- ===== src/SafeUtil.antt =====
-- udpCode_spring26_v3/safeUtil.c: the calls that end the process when they fail. (`sCalloc` and
-- `srealloc` are in Poll.antt, which uses them.)
-- A buffer is the list of its bytes; a call that reads into one returns what it holds then.
pub mod Receive
mod Tests
use cpe_networking_rejective.Prelude.{ℕ, List, ◌++◌, length, take, drop}
use cpe_networking_rejective.Prelude.Int.{ℤ}
use cpe_networking_rejective.Outcome.{minus_one}
use cpe_networking_rejective.System.{
  SockAddr, Host, Sys, pure, ◌>>=◌, checked, recvfrom, sendto, recv, send,
}

-- The buffer after bytes were written at its start.
abbrev pub overwrite : List ℕ → List ℕ → List ℕ
overwrite new_bytes buf = new_bytes ++ drop (length new_bytes) buf

module _ (host : Host) where
  -- The value, `buf` and `*srcAddr`. With __LIBCPE464_ the call is `recvfromErr`.
  unfoldable pub safe_recvfrom : ℤ → List ℕ → ℕ → ℕ → Sys (ℤ × List ℕ × SockAddr)
  safe_recvfrom socket_num buf len flags = do
    a ← checked host (recvfrom socket_num len flags) minus_one
    pure (a.value, overwrite a.written buf, a.address)

  unfoldable pub safe_sendto : ℤ → List ℕ → ℕ → ℕ → SockAddr → ℕ → Sys ℤ
  safe_sendto socket_num buf len flags src_addr addr_len = do
    a ← checked host (sendto socket_num (take len buf) flags src_addr addr_len) minus_one
    pure a.value

  unfoldable pub safe_recv : ℤ → List ℕ → ℕ → ℕ → Sys (ℤ × List ℕ)
  safe_recv socket_num buf len flags = do
    a ← checked host (recv socket_num len flags) minus_one
    pure (a.value, overwrite a.written buf)

  unfoldable pub safe_send : ℤ → List ℕ → ℕ → ℕ → Sys ℤ
  safe_send socket_num buf len flags = do
    a ← checked host (send socket_num (take len buf) flags) minus_one
    pure a.value
