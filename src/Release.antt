-- ===== src/Release.antt =====
-- The ends of `process_client` of udpCode_spring26_v3/server.c and of `process_file` of rcopy.c, with
-- `buffer_free` of Buffer.c and `window_free` of Window.c: what a process gives back.
mod Tests
use cpe_networking_rejective.Prelude.{
  ℕ, Option, none, some, List, [], ◌∷◌, ◌++◌, ltb, ◌==◌, if◌then◌else◌, length,
}
use cpe_networking_rejective.Window.{Window}
use cpe_networking_rejective.Buffer.{Buffer}
use cpe_networking_rejective.Server.{ServerInfo}
use cpe_networking_rejective.ClientState.{RcopyInfo}

-- A descriptor that is closed, or an array that is freed.
pub data Release : Type 0 where
  closes : ℕ → Release
  frees : ℕ → Release

-- An array of no entries is NULL: that of a record of zeros.
abbrev free_array : ℕ → List Release
free_array n = if n == 0 then [] else frees n ∷ []

unfoldable pub window_free : Window → List Release
window_free window = free_array (length window.entry)

unfoldable pub buffer_free : Buffer → List Release
buffer_free buffer = free_array (length buffer.entry)

-- Descriptor 0 is not closed: it stands for a file that was not opened.
abbrev close_if : ℕ → List Release
close_if fd = if ltb 0 fd then closes fd ∷ [] else []

-- No file, or what `open` returned in its place, is not positive.
abbrev descriptor : Option ℕ → ℕ
descriptor none = 0
descriptor (some fd) = fd

unfoldable pub release_server : ServerInfo → List Release
unfolding buffer_free
release_server info =
    close_if (descriptor info.output_file) ++ (close_if info.socket_num ++ buffer_free info.buffer)

unfoldable pub release_client : RcopyInfo → List Release
unfolding window_free
release_client info =
    close_if info.input_file ++ (close_if info.socket_num ++ window_free info.window)
