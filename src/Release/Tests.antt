-- ===== src/Release/Tests.antt =====
-- What the processes give back, on records of zeros and on records in use.
use cpe_networking_rejective.Prelude.{◌≡◌, refl, none, [], ◌∷◌}
use cpe_networking_rejective.Window.{Window, zeroed}
use cpe_networking_rejective.Server.{new_client}
use cpe_networking_rejective.ClientState.{zeroed_info}
use cpe_networking_rejective.Release.{
  closes, frees, window_free, buffer_free, release_server, release_client,
}

-- A child that could not open its file has no buffer either.
server_release_test :
    release_server (record (new_client [] 7) { socket_num = 5; output_file = none }) ≡ closes 5 ∷ []
unfolding release_server buffer_free new_client
server_release_test = refl

abbrev one_slot : Window
one_slot = record { entry = zeroed ∷ []; size = 1; lower = 2; current = 2; upper = 3 }

client_release_test :
    release_client
      (record (zeroed_info [] []) { input_file = 3; socket_num = 4; window = one_slot })
    ≡ closes 3 ∷ closes 4 ∷ frees 1 ∷ []
unfolding release_client window_free zeroed_info
client_release_test = refl
