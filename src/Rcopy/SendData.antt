-- ===== src/Rcopy/SendData.antt =====
-- rcopy.c: `send_data_state` and `wait_on_ack_state`.
use cpe_networking_rejective.Prelude.{
  ℕ, suc, ◌+◌, ◌≤◌, ◌<◌, ◌≡◌, refl, sym, subst, ap, ◌∙◌, ◌≢◌, ◌⊎◌, inl, inr, true, false, ◌&&◌,
  List, [], ◌∷◌, arith, ◌==◌, Bool-cases, length, take, length-take,
}
use cpe_networking_rejective.Checksum.{Checksum}
use cpe_networking_rejective.Upload.{Upload}
use cpe_networking_rejective.Packet.{srej_max_data}
use cpe_networking_rejective.Window.{window_open, window_empty}
use cpe_networking_rejective.Rcopy.{
  RcopyInfo, State, start_state, filename, send_eof, done, Read, bytes, failed, send_one, send_from,
  after_data, send_data_state,
}
use cpe_networking_rejective.Rcopy.Sending.{
  IsSending, IsPending, send_one-IsSending, send_one_fields, with_reads,
}

module _ ⦃ck : Checksum⦄ where
  -- The reads to come go on where the window stands.
  abbrev pub NextIn : Upload → RcopyInfo → List Read → Type 0
  NextIn f i rs =
      (i.file_done ≡ 0 → IsPending f i.buffer_size i.window.current rs)
      × (i.file_done ≢ 0 → i.window.current ≡ f.limit)

  abbrev pub IsNext : Upload → RcopyInfo → Type 0
  IsNext f i = NextIn f i i.reads

  -- The sender in good order; it goes to SEND_EOF only when all is read and acknowledged.
  pub record Sends (f : Upload) (r : RcopyInfo × State) : Type 0 where
    pub sending : IsSending f r.0
    pub next : r.1 ≢ done → IsNext f r.0
    pub eof :
        r.1 ≡ send_eof
        → (r.0.file_done ≡ 1) × (window_empty r.0.window ≡ true) × (r.0.window.current ≡ f.limit)
    pub later : (r.1 ≢ start_state) × (r.1 ≢ filename)
    pub error : r.1 ≡ done → r.0.had_error ≡ 1

  after_data-Sends :
      (f : Upload) (i : RcopyInfo) → IsSending f i → IsNext f i → Sends f (after_data i)
  unfolding after_data
  after_data-Sends f i h n = elim (Bool-cases (i.file_done == 1 && window_empty i.window)) [
    | inl all ↦ rw all (record {
      sending = h;
      next = λ ne. n;
      eof = λ e.
          let read_all : i.file_done ≡ 1 = ground (arith, all) in
          (read_all, ground (arith, all), n.1 (omega (arith, read_all)));
      error = λ e. cc;
      later = (λ e. cc, λ e. cc);
    })
    | inr rest ↦ rw rest (record {
      sending = h;
      next = λ ne. n;
      eof = λ e. cc;
      error = λ e. cc;
      later = (λ e. cc, λ e. cc);
    })
  ]

  -- The branches of the loop.
  send_from_eof :
      (f : Upload) (i : RcopyInfo) → IsSending f i → NextIn f i [] → Sends f (send_from [] i)
  unfolding send_from
  send_from_eof f i h n = elim (Bool-cases (window_open i.window && i.file_done == 0)) [
    | inl more ↦ rw more (
        after_data-Sends f _ (with_reads f i [] 1 i.had_error h)
          (λ e. cc, λ ne. n.0 (ground (arith, more))))
    | inr no_more ↦
        rw no_more (after_data-Sends f _ (with_reads f i [] i.file_done i.had_error h) n)
  ]

  send_from_failed :
      (f : Upload) (i : RcopyInfo) (rs : List Read)
      → IsSending f i
      → NextIn f i (failed ∷ rs)
      → Sends f (send_from (failed ∷ rs) i)
  unfolding send_from
  send_from_failed f i rs h n = elim (Bool-cases (window_open i.window && i.file_done == 0)) [
    | inl more ↦ rw more (record {
      sending = with_reads f i rs i.file_done 1 h;
      next = λ ne. absurd (ne refl);
      eof = λ e. cc;
      error = λ e. refl;
      later = (λ e. cc, λ e. cc);
    })
    | inr no_more ↦
        rw no_more (after_data-Sends f _ (with_reads f i (failed ∷ rs) i.file_done i.had_error h) n)
  ]

  pub send_from_stop :
      (i : RcopyInfo) (ds : List ℕ) (rs : List Read)
      → window_open i.window && i.file_done == 0 ≡ false
      → send_from (bytes ds ∷ rs) i ≡ after_data (record i { reads = bytes ds ∷ rs })
  unfolding send_from
  send_from_stop i ds rs h = ground (arith, h)

  pub send_from_end :
      (i : RcopyInfo) (ds : List ℕ) (rs : List Read)
      → window_open i.window && i.file_done == 0 ≡ true
      → take i.buffer_size ds ≡ []
      → send_from (bytes ds ∷ rs) i ≡ after_data (record i { file_done = 1; reads = rs })
  unfolding send_from
  send_from_end i ds rs h e = ground (arith, h, e)

  pub send_from_go :
      (i : RcopyInfo) (ds : List ℕ) (rs : List Read) (c : ℕ) (cs : List ℕ)
      → window_open i.window && i.file_done == 0 ≡ true
      → take i.buffer_size ds ≡ c ∷ cs
      → send_from (bytes ds ∷ rs) i ≡ send_from rs (send_one (record i { reads = rs }) (c ∷ cs))
  unfolding send_from
  send_from_go i ds rs c cs h e = ground (arith, h, e)

  pub List-cases : (xs : List ℕ) → (xs ≡ []) ⊎ ((c : ℕ) × (cs : List ℕ) × (xs ≡ c ∷ cs))
  List-cases [] = inl refl
  List-cases (c ∷ cs) = inr (c, cs, refl)

  -- A read that gives nothing on an open window is the end of the file.
  pub at_limit :
      (f : Upload) (i : RcopyInfo) (ds : List ℕ) (rs : List Read)
      → IsPending f i.buffer_size i.window.current (bytes ds ∷ rs)
      → take i.buffer_size ds ≡ []
      → i.window.current ≡ f.limit
  at_limit f i ds rs (inl e) q = e.1
  at_limit f i ds rs (inr (lt, e, ne, p)) q = absurd (ne q)

  -- A read that gives bytes on an open window is the next piece of the file.
  pub next_piece :
      (f : Upload) (i : RcopyInfo) (ds : List ℕ) (rs : List Read) (c : ℕ) (cs : List ℕ)
      → IsPending f i.buffer_size i.window.current (bytes ds ∷ rs)
      → take i.buffer_size ds ≡ c ∷ cs
      → (i.window.current < f.limit)
        × (f.chunk i.window.current ≡ c ∷ cs)
        × IsPending f i.buffer_size (suc i.window.current) rs
  next_piece f i ds rs c cs (inl (e, at)) q = cc
  next_piece f i ds rs c cs (inr (lt, e, ne, p)) q = (lt, e ∙ q, p)

  pub pending :
      (f : Upload) (i j : RcopyInfo) (rs : List Read)
      → (j.window.current ≡ i.window.current + 1)
        × (j.buffer_size ≡ i.buffer_size)
        × (j.file_done ≡ i.file_done)
        × (j.had_error ≡ i.had_error)
        × (j.reads ≡ rs)
      → IsPending f i.buffer_size (suc i.window.current) rs
      → IsPending f j.buffer_size j.window.current rs
  pending f i j rs k p =
      let cur : j.window.current ≡ suc i.window.current = omega (arith, k.0) in
      subst (λ n. IsPending f n j.window.current rs) (sym k.1)
        (subst (λ s. IsPending f i.buffer_size s rs) (sym cur) p)

  send_from-Sends :
      (rs : List Read) (f : Upload) (i : RcopyInfo)
      → IsSending f i
      → NextIn f i rs
      → Sends f (send_from rs i)
  send_from-Sends [] f i h n = send_from_eof f i h n
  send_from-Sends (failed ∷ rs) f i h n = send_from_failed f i rs h n
  send_from-Sends (bytes ds ∷ rs) f i h n =
      elim (Bool-cases (window_open i.window && i.file_done == 0)) [
        | inr no_more ↦
            rw (send_from_stop i ds rs no_more)
              (after_data-Sends f _ (with_reads f i (bytes ds ∷ rs) i.file_done i.had_error h) n)
        | inl more ↦ elim (List-cases (take i.buffer_size ds)) [
          | inl at_end ↦ rw (send_from_end i ds rs more at_end) (
              after_data-Sends f _ (with_reads f i rs 1 i.had_error h)
                (λ e. cc, λ ne. at_limit f i ds rs (n.0 (ground (arith, more))) at_end))
          | inr (c, cs, q) ↦
              let z : i.file_done ≡ 0 = ground (arith, more) in
              let o : window_open i.window ≡ true = ground (arith, more) in
              let p = next_piece f i ds rs c cs (n.0 z) q in
              let le : length (c ∷ cs) ≤ srej_max_data =
                omega (arith, ap length q, length-take i.buffer_size ds, h.small) in
              let at = with_reads f i rs i.file_done i.had_error h in
              let k = send_one_fields f (record i { reads = rs }) (c ∷ cs) at o p.0 p.1 le in
              rw (send_from_go i ds rs c cs more q) (
                send_from-Sends rs f (send_one (record i { reads = rs }) (c ∷ cs))
                  (send_one-IsSending f (record i { reads = rs }) (c ∷ cs) at o p.0 p.1 le)
                  (
                    λ e. pending f i (send_one (record i { reads = rs }) (c ∷ cs)) rs k p.2,
                    λ ne. absurd (ne (k.2 ∙ z)),
                  ))
        ]
      ]

  -- From a sender in good order (a sound window that holds pieces of the file only, the reads to
  -- come being the rest of the file), `send_data_state` leaves one; it goes to SEND_EOF only with
  -- the end of the file read, the window empty and `current` behind the last piece, and to DONE
  -- only with an error.
  pub send_data_state-Sends :
      (f : Upload) (i : RcopyInfo) → IsSending f i → IsNext f i → Sends f (send_data_state i)
  unfolding send_data_state
  send_data_state-Sends f i h n = send_from-Sends i.reads f i h n
