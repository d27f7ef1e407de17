-- ===== src/Rcopy/Pace.antt =====
-- rcopy.c: what each step uses up of the events, the reads and the tries.
use cpe_networking_rejective.Prelude.{
  ℕ, ◌+◌, ◌-◌, ◌≤◌, ◌<◌, ◌≡◌, refl, sym, subst, ap, ◌∙◌, ◌⊎◌, inl, inr, true, false, ◌&&◌, List, [],
  ◌∷◌, arith, ◌==◌, if◌then◌else◌, Bool-cases, length, take,
}
use cpe_networking_rejective.Checksum.{Checksum}
use cpe_networking_rejective.Net.{Event, timeout, arrives, received}
use cpe_networking_rejective.Window.{window_open}
use cpe_networking_rejective.Rcopy.{
  RcopyInfo, Read, bytes, failed, State, done, max_tries, resend_packet, handle_rr, handle_reject,
  handle_control, is_control, controls_from, process_controls, send_one, after_data, send_from,
  send_data_state,
}
use cpe_networking_rejective.Rcopy.SendData.{
  send_from_stop, send_from_end, send_from_go, List-cases,
}

-- The fields that the loops do not count in.
abbrev pub SameCounts : RcopyInfo → RcopyInfo → Type 0
SameCounts i j = (j.retry_count ≡ i.retry_count) × (j.reads ≡ i.reads) × (j.file_done ≡ i.file_done)

handle_rr-counts : (i : RcopyInfo) (packet : List ℕ) → SameCounts i (handle_rr i packet)
unfolding handle_rr
handle_rr-counts i packet = ground arith

handle_reject-counts : (i : RcopyInfo) (packet : List ℕ) → SameCounts i (handle_reject i packet)
unfolding handle_reject resend_packet
handle_reject-counts i packet = ground arith

-- How many events, reads and ends of file are still to come.
abbrev pub pace : RcopyInfo → ℕ
pace i = length i.events + length i.reads + (1 - i.file_done)

abbrev pub IsPaced : RcopyInfo → Type 0
IsPaced i = (i.retry_count < max_tries) × (i.file_done ≤ 1)

module _ ⦃ck : Checksum⦄ where
  handle_control-counts : (i : RcopyInfo) (packet : List ℕ) → SameCounts i (handle_control i packet)
  unfolding handle_control
  handle_control-counts i packet =
      ground (arith, handle_rr-counts i packet, handle_reject-counts i packet)

  controls_from-pace :
      (es : List Event) (i : RcopyInfo) (count : ℕ)
      → let (j, count') = controls_from es i count in
        SameCounts i j
        × (length j.events ≤ length es)
        × (count ≤ count')
        × (count < count' → length j.events < length es)
  unfolding controls_from
  controls_from-pace [] i count = ((refl, refl, refl), omega arith, omega arith, λ lt. omega arith)
  controls_from-pace (timeout ∷ es) i count =
      ((refl, refl, refl), omega arith, omega arith, λ lt. omega arith)
  controls_from-pace (arrives from data_in ∷ es) i count =
      let heard : RcopyInfo = record i { server = from } in
      let packet = received data_in in
      let next = if is_control packet then count + 1 else count in
      let c = handle_control-counts heard packet in
      let h = controls_from-pace es (handle_control heard packet) next in
      (
        (h.0.0 ∙ c.0, h.0.1 ∙ c.1, h.0.2 ∙ c.2),
        omega (arith, h.1),
        ground (arith, h.2),
        λ lt. omega (arith, h.1),
      )

  -- A control packet that is heard uses up an event.
  pub process_controls-pace :
      (i : RcopyInfo)
      → let (j, got_control) = process_controls i in
        SameCounts i j
        × (length j.events ≤ length i.events)
        × (0 < got_control → length j.events < length i.events)
  unfolding process_controls
  process_controls-pace i = let h = controls_from-pace i.events i 0 in (h.0, h.1, h.3)

  send_one-pace :
      (i : RcopyInfo) (d : List ℕ)
      → let j = send_one i d in
        (j.retry_count ≡ 0)
        × (j.reads ≡ i.reads)
        × (j.file_done ≡ i.file_done)
        × (length j.events ≤ length i.events)
  unfolding send_one
  send_one-pace i d = let h = process_controls-pace _ in (h.0.0, h.0.1, h.0.2, h.1)

  -- `send_data_state` reads or hears something, fails, or has nothing to do.
  abbrev pub Paces : RcopyInfo → List Read → RcopyInfo × State → Type 0
  Paces i rs r =
      IsPaced r.0
      × ((pace r.0 < length i.events + length rs + (1 - i.file_done))
          ⊎ ((r.1 ≡ done)
              ⊎ ((r ≡ after_data (record i { reads = rs }))
                  × (window_open i.window && i.file_done == 0 ≡ false))))

  pub after_data-same : (i : RcopyInfo) → (after_data i).0 ≡ i
  unfolding after_data
  after_data-same i = ground arith

  nothing_to_do :
      (i : RcopyInfo) (rs : List Read)
      → IsPaced i
      → window_open i.window && i.file_done == 0 ≡ false
      → Paces i rs (after_data (record i { reads = rs }))
  nothing_to_do i rs p h =
      (subst IsPaced (sym (after_data-same (record i { reads = rs }))) p, inr (inr (refl, h)))

  end_of_file :
      (i : RcopyInfo) (rs later : List Read)
      → IsPaced i
      → length later ≤ length rs
      → window_open i.window && i.file_done == 0 ≡ true
      → Paces i rs (after_data (record i { file_done = 1; reads = later }))
  end_of_file i rs later p le h =
      let e = after_data-same (record i { file_done = 1; reads = later }) in
      let z : i.file_done ≡ 0 = ground (arith, h) in
      (subst IsPaced (sym e) (p.0, omega arith), inl (rw e (omega (arith, z))))

  one_read :
      (i j : RcopyInfo) (r : RcopyInfo × State) (ds : List ℕ) (rs : List Read)
      → (j.retry_count ≡ 0)
        × (j.reads ≡ rs)
        × (j.file_done ≡ i.file_done)
        × (length j.events ≤ length i.events)
      → Paces j rs r
      → Paces i (bytes ds ∷ rs) r
  one_read i j r ds rs k (p, inl less) = (p, inl (omega (arith, k.2, k.3)))
  one_read i j r ds rs k (p, inr (inl over)) = (p, inr (inl over))
  one_read i j r ds rs k (p, inr (inr (e, no_more))) =
      let same =
        ap (λ (x : RcopyInfo × State). x.0) e ∙ after_data-same (record j { reads = rs }) in
      let less = ap pace same in (p, inl (omega (arith, k.2, k.3, less)))

  -- The branches of the loop.
  pub send_from_closed :
      (rs : List Read) (i : RcopyInfo)
      → window_open i.window && i.file_done == 0 ≡ false
      → send_from rs i ≡ after_data (record i { reads = rs })
  unfolding send_from
  send_from_closed [] i h = ground (arith, h)
  send_from_closed (failed ∷ rs) i h = ground (arith, h)
  send_from_closed (bytes ds ∷ rs) i h = send_from_stop i ds rs h

  pub send_from_nil :
      (i : RcopyInfo)
      → window_open i.window && i.file_done == 0 ≡ true
      → send_from [] i ≡ after_data (record i { file_done = 1; reads = [] })
  unfolding send_from
  send_from_nil i h = ground (arith, h)

  pub send_from_error :
      (i : RcopyInfo) (rs : List Read)
      → window_open i.window && i.file_done == 0 ≡ true
      → send_from (failed ∷ rs) i ≡ (record i { had_error = 1; reads = rs }, done)
  unfolding send_from
  send_from_error i rs h = ground (arith, h)

  closed_pace :
      (rs : List Read) (i : RcopyInfo)
      → IsPaced i
      → window_open i.window && i.file_done == 0 ≡ false
      → Paces i rs (send_from rs i)
  closed_pace rs i p no_more =
      subst (Paces i rs) (sym (send_from_closed rs i no_more)) (nothing_to_do i rs p no_more)

  send_from-pace : (rs : List Read) (i : RcopyInfo) → IsPaced i → Paces i rs (send_from rs i)
  send_from-pace [] i p = elim (Bool-cases (window_open i.window && i.file_done == 0)) [
    | inl more ↦
        subst (Paces i []) (sym (send_from_nil i more)) (end_of_file i [] [] p (omega arith) more)
    | inr no_more ↦ closed_pace [] i p no_more
  ]
  send_from-pace (failed ∷ rs) i p = elim (Bool-cases (window_open i.window && i.file_done == 0)) [
    | inl more ↦ subst (Paces i (failed ∷ rs)) (sym (send_from_error i rs more)) (p, inr (inl refl))
    | inr no_more ↦ closed_pace (failed ∷ rs) i p no_more
  ]
  send_from-pace (bytes ds ∷ rs) i p =
      elim (Bool-cases (window_open i.window && i.file_done == 0)) [
        | inr no_more ↦ closed_pace (bytes ds ∷ rs) i p no_more
        | inl more ↦ elim (List-cases (take i.buffer_size ds)) [
          | inl at_end ↦
              subst (Paces i (bytes ds ∷ rs)) (sym (send_from_end i ds rs more at_end))
                (end_of_file i (bytes ds ∷ rs) rs p (omega arith) more)
          | inr (c, cs, q) ↦
              let j = send_one (record i { reads = rs }) (c ∷ cs) in
              let k = send_one-pace (record i { reads = rs }) (c ∷ cs) in
              subst (Paces i (bytes ds ∷ rs)) (sym (send_from_go i ds rs c cs more q)) (
                one_read i j (send_from rs j) ds rs k
                  (send_from-pace rs j (omega (arith, k.0), omega (arith, k.2, p.1))))
        ]
      ]

  pub send_data_state-pace : (i : RcopyInfo) → IsPaced i → Paces i i.reads (send_data_state i)
  unfolding send_data_state
  send_data_state-pace i p = send_from-pace i.reads i p
