-- ===== src/Window/Tests.antt =====
-- Window.c on windows of three packets.
use cpe_networking_rejective.Prelude.{
  ℕ, ◌+◌, ◌^◌, ◌<◌, min, max, ◌≡◌, refl, ◌↔◌, true, false, Option, none, some, [], ◌∷◌, arith, ltb,
  if◌then◌else◌,
}
use cpe_networking_rejective.Window.{
  Window, window_init, window_open, window_empty, window_add, window_find, window_lowest, window_rr,
  release, release_from, advance,
}
use cpe_networking_rejective.Window.Invariant.{
  IsWindow, window_init-IsWindow, window_add-IsWindow, window_lowest_lem,
}
use cpe_networking_rejective.Window.Release.{window_rr_lem}

-- A window of three packets that starts at 2.
fresh : Window
unfolding window_init
fresh = get_or_window (window_init (λ n. true) 3 2)
  where
    get_or_window : Option Window → Window
    get_or_window none = record { entry = []; size = 0; lower = 0; current = 0; upper = 0 }
    get_or_window (some w) = w

fresh-eq : window_init (λ n. true) 3 2 ≡ some fresh
unfolding window_init fresh
fresh-eq = refl

fresh-IsWindow : IsWindow fresh
fresh-IsWindow =
    let sound = window_init-IsWindow (λ n. true) 3 2 (omega arith) (omega arith) fresh-eq in sound.0

fresh_open : window_open fresh ≡ true
unfolding fresh window_init window_open
fresh_open = refl

window_add-IsWindow_example :
    IsWindow (window_add fresh fresh.current (7 ∷ []) 1)
    × ((window_add fresh fresh.current (7 ∷ []) 1).current ≡ fresh.current + 1)
    × ((window_add fresh fresh.current (7 ∷ []) 1).lower ≡ fresh.lower)
    × ((window_add fresh fresh.current (7 ∷ []) 1).size ≡ fresh.size)
window_add-IsWindow_example = window_add-IsWindow fresh (7 ∷ []) 1 fresh-IsWindow fresh_open

-- One packet under way.
one_sent : Window
one_sent = window_add fresh fresh.current (7 ∷ []) 1

one_sent-IsWindow : IsWindow one_sent
unfolding one_sent
one_sent-IsWindow = (window_add-IsWindow fresh (7 ∷ []) 1 fresh-IsWindow fresh_open).0

window_lowest_example :
    (window_lowest one_sent ≡ window_find one_sent one_sent.lower)
    × ((window_lowest one_sent ≡ none) ↔ (window_empty one_sent ≡ true))
window_lowest_example = window_lowest_lem one_sent one_sent-IsWindow

one_sent_room : one_sent.current + one_sent.size < 2 ^ 32
unfolding one_sent fresh window_init window_add
one_sent_room = omega arith

window_rr_example :
    IsWindow (window_rr one_sent 3)
    × ((window_rr one_sent 3).lower ≡ max one_sent.lower (min 3 one_sent.current))
    × ((window_rr one_sent 3).current ≡ one_sent.current)
    × ((window_rr one_sent 3).size ≡ one_sent.size)
    × ((s : ℕ)
        → window_find (window_rr one_sent 3) s
          ≡ (if ltb s (min 3 one_sent.current) then none else window_find one_sent s))
window_rr_example = window_rr_lem one_sent 3 one_sent-IsWindow one_sent_room

-- The RR for 3 acknowledges packet 2, and one for 2 does not.
rr_empties :
    (window_empty (window_rr one_sent 3) ≡ true) × (window_empty (window_rr one_sent 2) ≡ false)
unfolding one_sent fresh window_init window_add window_empty window_rr window_find release
    release_from advance
rr_empties = (refl, refl)
