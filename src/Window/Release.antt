-- ===== src/Window/Release.antt =====
-- Window.c: `window_rr` forgets exactly the packets that the RR acknowledges.
use cpe_networking_rejective.Prelude.{
  ℕ, zero, suc, ◌+◌, ◌-◌, ◌^◌, ◌≤◌, ◌<◌, min, max, ◌≡◌, refl, sym, ap, ◌∙◌, ◌≢◌, false, ◌&&◌, none,
  arith, dec_lt, ltb, leb, if◌then◌else◌, lt→ltb, length, u32,
}
use cpe_networking_rejective.Window.{
  Window, window_find, window_rr, release, release_from, advance, is_none,
}
use cpe_networking_rejective.Window.Slots.{IsArray, window_find-release, release-IsArray}
use cpe_networking_rejective.Window.Invariant.{IsWindow}

release_fields :
    (w : Window) (seq : ℕ)
    → ((release w seq).lower ≡ w.lower)
      × ((release w seq).current ≡ w.current)
      × ((release w seq).size ≡ w.size)
unfolding release
release_fields w seq = ground arith

-- What the first loop has done when it stops: the numbers of [seq, stop) are forgotten.
record Released (w : Window) (seq stop : ℕ) (w' : Window) : Type 0 where
  array : IsArray w'
  lower_kept : w'.lower ≡ w.lower
  current_kept : w'.current ≡ w.current
  size_kept : w'.size ≡ w.size
  finds : (s : ℕ) → window_find w' s ≡ (if leb seq s && ltb s stop then none else window_find w s)

Released-none : (w : Window) (seq stop : ℕ) → IsArray w → stop ≤ seq → Released w seq stop w
Released-none w seq stop h le = record {
  array = h;
  lower_kept = refl;
  current_kept = refl;
  size_kept = refl;
  finds = λ s. ground arith;
}

Released-step :
    (w w' : Window) (seq stop : ℕ)
    → IsArray w
    → seq < stop
    → Released (release w seq) (seq + 1) stop w'
    → Released w seq stop w'
Released-step w w' seq stop h lt r =
    let f = release_fields w seq in
    record {
      array = r.array;
      lower_kept = r.lower_kept ∙ f.0;
      current_kept = r.current_kept ∙ f.1;
      size_kept = r.size_kept ∙ f.2;
      finds = λ s. ground (arith, r.finds s, window_find-release w seq s h);
    }

release_from-Released :
    (fuel : ℕ) (w : Window) (seq rr_seq stop : ℕ)
    → IsArray w
    → stop ≡ min rr_seq w.current
    → w.current < 2 ^ 32
    → stop < seq + fuel
    → Released w seq stop (release_from fuel w seq rr_seq)
unfolding release_from
release_from-Released zero w seq rr_seq stop h e small enough =
    Released-none w seq stop h (omega arith)
release_from-Released (suc fuel) w seq rr_seq stop h e small enough = elim (dec_lt seq stop) [
  | yes lt ↦
      let f = release_fields w seq in
      let next : u32 (seq + 1) ≡ seq + 1 = omega arith in
      rw (lt→ltb seq rr_seq (omega arith), lt→ltb seq w.current (omega arith), next)
        (Released-step w _ seq stop h lt (
          release_from-Released fuel (release w seq) (seq + 1) rr_seq stop (release-IsArray w seq h)
            (omega (arith, f)) (omega (arith, f)) (omega arith)))
  | no ge ↦
      let shut : ltb seq rr_seq && ltb seq w.current ≡ false = ground arith in
      rw shut (Released-none w seq stop h (omega arith))
]

find_lower : (w : Window) (k s : ℕ) → window_find (record w { lower = k }) s ≡ window_find w s
unfolding window_find
find_lower w k s = refl

-- The second loop goes to the first number that is still held.
advance_lem :
    (fuel : ℕ) (w : Window) (stop : ℕ)
    → w.lower ≤ stop
    → stop ≤ w.current
    → w.current < 2 ^ 32
    → stop < w.lower + fuel
    → ((s : ℕ) → w.lower ≤ s → s < stop → window_find w s ≡ none)
    → (stop < w.current → window_find w stop ≢ none)
    → advance fuel w ≡ record w { lower = stop }
unfolding advance
advance_lem zero w stop a b small enough gone held = absurd (omega arith)
advance_lem (suc fuel) w stop a b small enough gone held = elim (dec_lt w.lower stop) [
  | yes lt ↦
      let next : u32 (w.lower + 1) ≡ w.lower + 1 = omega arith in
      rw (lt→ltb w.lower w.current (omega arith), gone w.lower (omega arith) lt, next)
        (advance_lem fuel (record w { lower = w.lower + 1 }) stop (omega arith) b small
          (omega arith) (λ s x y. find_lower w (w.lower + 1) s ∙ gone s (omega arith) y)
          (λ x e. held x (sym (find_lower w (w.lower + 1) stop) ∙ e)))
  | no ge ↦
      let e : stop ≡ w.lower = omega arith in
      let stays : ltb w.lower w.current && is_none (window_find w w.lower) ≡ false =
        ground (arith, e, held, ap (window_find w) e) in
      rw (stays, e)
]

module _ (w : Window) (rr_seq : ℕ) (v : IsWindow w) where
  -- Where the RR leaves the lower edge: it never moves back, and never past what was sent.
  abbrev stop : ℕ
  stop = min rr_seq w.current

  abbrev new_lower : ℕ
  new_lower = max w.lower stop

  abbrev fuel : ℕ
  fuel = suc (w.current - w.lower)

  cleared : Window
  cleared = release_from fuel w w.lower rr_seq

  cleared-Released : Released w w.lower stop cleared
  unfolding cleared
  cleared-Released =
      release_from-Released fuel w w.lower rr_seq stop v.array refl (omega (arith, v.fits, v.room))
        (omega (arith, v.order))

  window_rr-eq :
      window_rr w rr_seq ≡ record cleared { lower = new_lower; upper = u32 (new_lower + w.size) }
  unfolding window_rr cleared
  window_rr-eq =
      let r = cleared-Released in
      let e =
        advance_lem fuel cleared new_lower (omega (arith, r.lower_kept))
          (omega (arith, r.current_kept, v.order)) (omega (arith, r.current_kept, v.fits, v.room))
          (omega (arith, r.lower_kept, v.order)) (λ s x y. ground (arith, r.finds s, r.lower_kept))
          (λ x e. ground (arith, r.finds new_lower, v.held new_lower, r.current_kept)) in
      ap (λ (m : Window). record m { upper = u32 (m.lower + m.size) }) e
      ∙ ap (λ (n : ℕ). record cleared { lower = new_lower; upper = u32 (new_lower + n) })
          r.size_kept

  find-window_rr :
      (s : ℕ) → window_find (window_rr w rr_seq) s ≡ (if ltb s stop then none else window_find w s)
  unfolding window_find
  find-window_rr s =
      ap (λ m. window_find m s) window_rr-eq ∙ cleared-Released.finds s ∙ ground (arith, v.gone s)

  -- On a sound window whose numbers do not wrap, `window_rr` moves `lower` to the RR's number, but
  -- never back and never past `current`, forgets exactly the packets below, keeps `current`, `size`
  -- and the other packets, and leaves a sound window.
  pub window_rr_lem :
      w.current + w.size < 2 ^ 32
      → let w' = window_rr w rr_seq in
        IsWindow w'
        × (w'.lower ≡ max w.lower (min rr_seq w.current))
        × (w'.current ≡ w.current)
        × (w'.size ≡ w.size)
        × ((s : ℕ)
            → window_find w' s ≡ (if ltb s (min rr_seq w.current) then none else window_find w s))
  window_rr_lem room =
      let r = cleared-Released in
      let e = window_rr-eq in
      let low = ap (λ (m : Window). m.lower) e in
      let cur = ap (λ (m : Window). m.current) e ∙ r.current_kept in
      let siz = ap (λ (m : Window). m.size) e ∙ r.size_kept in
      let ent = ap (λ (m : Window). m.entry) e in
      let upp = ap (λ (m : Window). m.upper) e in
      (
        record {
          array = record {
            pos = omega (arith, siz, v.array.pos);
            len = ap length ent ∙ r.array.len ∙ r.size_kept ∙ sym siz;
          };
          order = omega (arith, low, cur, v.order);
          fits = omega (arith, low, cur, siz, v.fits);
          top = omega (arith, low, siz, upp, v.order);
          room = omega (arith, low, siz, v.order);
          held = λ s a b. ground (arith, find-window_rr s, v.held s, low, cur);
          gone = λ s a. ground (arith, find-window_rr s, v.gone s, low, cur);
        },
        low,
        cur,
        siz,
        find-window_rr,
      )
