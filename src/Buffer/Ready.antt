-- ===== src/Buffer/Ready.antt =====
-- Buffer.c: `buffer_write_ready` writes the run of packets that starts at `expected`, in order, and
-- stops before the first one that is missing.
use cpe_networking_rejective.Prelude.{
  ℕ, zero, suc, ◌+◌, ◌-◌, ◌%◌, ◌^◌, ◌≤◌, ◌<◌, ◌≡◌, refl, sym, ap, ap₂, ◌∙◌, ◌⊎◌, inl, inr, true,
  false, ◌&&◌, Option, none, some, List, [], ◌∷◌, ◌++◌, append_assoc, append-nil, arith, ltb, leb,
  ◌==◌, if◌then◌else◌, Bool-cases, Option-cases, length, get_or, set, take, take-all,
}
use cpe_networking_rejective.Buffer.{
  Buffer, BufferEntry, zeroed, buffer_has, data_at, written, write_from, buffer_write_ready,
}
use cpe_networking_rejective.Buffer.Slots.{
  IsArray, spot-lt, buffer_has-written, data_at-written, written-IsArray,
}

-- The bytes of `n` packets from `seq` on, in order.
abbrev pub run_data : Buffer → ℕ → ℕ → List ℕ
run_data b seq zero = []
run_data b seq (suc n) = data_at b seq ++ run_data b (suc seq) n

run_data-written :
    (b : Buffer) (wrote seq n : ℕ) → IsArray b → run_data (written b wrote) seq n ≡ run_data b seq n
run_data-written b wrote seq zero h = refl
run_data-written b wrote seq (suc n) h =
    ap₂ ◌++◌ (data_at-written b wrote seq h) (run_data-written b wrote (suc seq) n h)

-- The loop's measure: how many entries are in use.
used_count : List BufferEntry → ℕ
used_count [] = 0
used_count (e ∷ es) = (if e.used == 1 then 1 else 0) + used_count es

used_count-le : (es : List BufferEntry) → used_count es ≤ length es
unfolding used_count
used_count-le [] = omega arith
used_count-le (e ∷ es) = ground (arith, used_count-le es)

used_count-set :
    (es : List BufferEntry) (i : ℕ)
    → i < length es
    → (get_or es i zeroed).used ≡ 1
    → suc (used_count (set es i (record (get_or es i zeroed) { used = 0 }))) ≡ used_count es
unfolding used_count
used_count-set [] i h k = absurd (omega arith)
used_count-set (e ∷ es) zero h k = ground arith
used_count-set (e ∷ es) (suc i) h k = ground (arith, used_count-set es i (omega arith) k)

used_count-written :
    (b : Buffer) (wrote : ℕ)
    → IsArray b
    → buffer_has b b.expected ≡ true
    → suc (used_count (written b wrote).entry) ≡ used_count b.entry
unfolding written buffer_has
used_count-written b wrote h had =
    used_count-set b.entry (b.expected % b.size) (spot-lt b b.expected h) (ground arith)

-- What `buffer_write_ready` has done to `b` when it returns `b'`.
pub record Wrote (b b' : Buffer) : Type 0 where
  pub array : IsArray b'
  pub size_kept : b'.size ≡ b.size
  pub missing_kept : (b'.missing_seq ≡ b.missing_seq) × (b'.missing_active ≡ b.missing_active)
  pub count : ℕ
  pub expects : b'.expected ≡ b.expected + count
  pub output : b'.output_file ≡ b.output_file ++ run_data b b.expected count
  pub all_had : (s : ℕ) → b.expected ≤ s → s < b'.expected → buffer_has b s ≡ true
  pub stopped : buffer_has b b'.expected ≡ false
  pub has_rest :
      (s : ℕ)
      → buffer_has b' s ≡ (if leb b.expected s && ltb s b'.expected then false else buffer_has b s)
  pub bytes_rest : (s : ℕ) → data_at b' s ≡ data_at b s

-- A `write` that does not fail takes all bytes.
abbrev pub IsFull : (List ℕ → List ℕ → Option ℕ) → Type 0
IsFull write = (out xs : List ℕ) (n : ℕ) → write out xs ≡ some n → n ≡ length xs

-- `write` fails for the packet that comes `k` after `expected`, when the `k` packets before it have been
-- written; the buffer has them all.
abbrev pub Fails : (List ℕ → List ℕ → Option ℕ) → Buffer → Type 0
Fails write b =
    (k : ℕ) × ((s : ℕ) → b.expected ≤ s → s ≤ b.expected + k → buffer_has b s ≡ true)
    × (write (b.output_file ++ run_data b b.expected k) (data_at b (b.expected + k)) ≡ none)

-- The process exits only if `write` fails for one of the packets; otherwise the call returns.
abbrev pub Ends : (List ℕ → List ℕ → Option ℕ) → Buffer → Option Buffer → Type 0
Ends write b r = ((r ≡ none) × Fails write b) ⊎ ((b' : Buffer) × (r ≡ some b') × Wrote b b')

nothing_ready : (b : Buffer) → IsArray b → buffer_has b b.expected ≡ false → Wrote b b
nothing_ready b h no_more = record {
  array = h;
  size_kept = refl;
  missing_kept = (refl, refl);
  count = 0;
  expects = omega arith;
  output = sym (append-nil b.output_file);
  all_had = λ s x y. absurd (omega arith);
  stopped = no_more;
  has_rest = λ s. ground arith;
  bytes_rest = λ s. refl;
}

written_fields :
    (b : Buffer) (wrote : ℕ)
    → b.expected < 2 ^ 32 - 1
    → let c = written b wrote in
      (c.size ≡ b.size)
      × (c.missing_seq ≡ b.missing_seq)
      × (c.missing_active ≡ b.missing_active)
      × (c.expected ≡ b.expected + 1)
      × (c.output_file ≡ b.output_file ++ take wrote (data_at b b.expected))
unfolding written
written_fields b wrote h = ground arith

one_more :
    (b b' : Buffer) (wrote : ℕ)
    → IsArray b
    → b.expected < 2 ^ 32 - 1
    → buffer_has b b.expected ≡ true
    → wrote ≡ length (data_at b b.expected)
    → Wrote (written b wrote) b'
    → Wrote b b'
one_more b b' wrote h small had full r =
    let f = written_fields b wrote small in
    let next : (written b wrote).expected ≡ suc b.expected = omega (arith, f.3) in
    let first =
      f.4 ∙ ap (◌++◌ b.output_file) (take-all wrote (data_at b b.expected) (omega arith)) in
    let others =
      ap (λ k. run_data (written b wrote) k r.count) next
      ∙ run_data-written b wrote (suc b.expected) r.count h in
    record {
      array = r.array;
      size_kept = r.size_kept ∙ f.0;
      missing_kept = (r.missing_kept.0 ∙ f.1, r.missing_kept.1 ∙ f.2);
      count = suc r.count;
      expects = omega (arith, r.expects, f.3);
      output =
          r.output
          ∙ ap₂ ◌++◌ first others
          ∙ append_assoc b.output_file (data_at b b.expected) (run_data b (suc b.expected) r.count);
      all_had = λ s x y. ground (arith, f.3, r.all_had s, buffer_has-written b wrote s h had);
      stopped =
          ground (arith, f.3, r.expects, r.stopped, buffer_has-written b wrote b'.expected h had);
      has_rest =
          λ s. ground (arith, f.3, r.expects, r.has_rest s, buffer_has-written b wrote s h had);
      bytes_rest = λ s. r.bytes_rest s ∙ data_at-written b wrote s h;
    }

module _ (write : List ℕ → List ℕ → Option ℕ) (full : IsFull write) where
  Fails-now :
      (b : Buffer)
      → buffer_has b b.expected ≡ true
      → write b.output_file (data_at b b.expected) ≡ none
      → Fails write b
  Fails-now b had failed =
      let same : b.expected + 0 ≡ b.expected = omega arith in
      (
        0,
        λ s low high. let e : s ≡ b.expected = omega arith in ap (buffer_has b) e ∙ had,
        ap₂ write (append-nil b.output_file) (ap (data_at b) same) ∙ failed,
      )

  Fails-written :
      (b : Buffer) (wrote : ℕ)
      → IsArray b
      → b.expected < 2 ^ 32 - 1
      → buffer_has b b.expected ≡ true
      → wrote ≡ length (data_at b b.expected)
      → Fails write (written b wrote)
      → Fails write b
  Fails-written b wrote h small had whole (k, all, failed) =
      let c = written b wrote in
      let f = written_fields b wrote small in
      let next : c.expected ≡ suc b.expected = omega (arith, f.3) in
      let out : b.output_file ++ run_data b b.expected (suc k)
          ≡ c.output_file ++ run_data c c.expected k =
        sym (
          ap₂ ◌++◌
            (f.4 ∙ ap (◌++◌ b.output_file) (take-all wrote (data_at b b.expected) (omega arith)))
            (ap (λ s. run_data c s k) next ∙ run_data-written b wrote (suc b.expected) k h)
          ∙ append_assoc b.output_file (data_at b b.expected) (run_data b (suc b.expected) k)) in
      let at : b.expected + suc k ≡ c.expected + k = omega (arith, next) in
      (
        suc k,
        λ s low high. ground (arith, f.3, all s, had, buffer_has-written b wrote s h had),
        ap₂ write out (ap (data_at b) at ∙ sym (data_at-written b wrote (c.expected + k) h))
            ∙ failed,
      )

  again :
      (b : Buffer) (wrote : ℕ) (r : Option Buffer)
      → IsArray b
      → b.expected < 2 ^ 32 - 1
      → buffer_has b b.expected ≡ true
      → wrote ≡ length (data_at b b.expected)
      → Ends write (written b wrote) r
      → Ends write b r
  again b wrote r h small had e (inl (q, failed)) =
      inl (q, Fails-written b wrote h small had e failed)
  again b wrote r h small had e (inr (b', q, w)) = inr (b', q, one_more b b' wrote h small had e w)

  -- The three ways through a round of the loop.
  write_from_stop :
      (fuel : ℕ) (b : Buffer)
      → buffer_has b b.expected ≡ false
      → write_from write (suc fuel) b ≡ some b
  unfolding write_from
  write_from_stop fuel b h = ground arith

  write_from_fail :
      (fuel : ℕ) (b : Buffer)
      → buffer_has b b.expected ≡ true
      → write b.output_file (data_at b b.expected) ≡ none
      → write_from write (suc fuel) b ≡ none
  unfolding write_from
  write_from_fail fuel b h k = ground arith

  write_from_go :
      (fuel : ℕ) (b : Buffer) (wrote : ℕ)
      → buffer_has b b.expected ≡ true
      → write b.output_file (data_at b b.expected) ≡ some wrote
      → write_from write (suc fuel) b ≡ write_from write fuel (written b wrote)
  unfolding write_from
  write_from_go fuel b wrote h k = ground arith

  write_from-Ends :
      (fuel : ℕ) (b : Buffer)
      → IsArray b
      → used_count b.entry < fuel
      → ((s : ℕ) → buffer_has b s ≡ true → s < 2 ^ 32 - 1)
      → Ends write b (write_from write fuel b)
  write_from-Ends zero b h enough small = absurd (omega arith)
  write_from-Ends (suc fuel) b h enough small = elim (Bool-cases (buffer_has b b.expected)) [
    | inr no_more ↦ rw (write_from_stop fuel b no_more) (inr (b, refl, nothing_ready b h no_more))
    | inl had ↦ elim (Option-cases (write b.output_file (data_at b b.expected))) [
      | inl failed ↦ rw (write_from_fail fuel b had failed) (inl (refl, Fails-now b had failed))
      | inr (wrote, e) ↦ rw (write_from_go fuel b wrote had e) (
          again b wrote (write_from write fuel (written b wrote)) h (small b.expected had) had
            (full _ _ wrote e)
            (write_from-Ends fuel (written b wrote) (written-IsArray b wrote h)
              (omega (arith, used_count-written b wrote h had))
              (λ s k. ground (arith, small s, buffer_has-written b wrote s h had))))
    ]
  ]

  -- On an array of `size` entries whose packets have numbers below 2^32 - 1, with a `write` that
  -- never takes part of the bytes, `buffer_write_ready` exits only if `write` failed for a packet
  -- of the run that starts at `expected`, with the packets before it written; otherwise it returns
  -- with the packets from `expected` up to the first missing one appended to the output file, in
  -- order and each once, those packets emptied and all others kept.
  pub buffer_write_ready-Ends :
      (b : Buffer)
      → IsArray b
      → ((s : ℕ) → buffer_has b s ≡ true → s < 2 ^ 32 - 1)
      → Ends write b (buffer_write_ready write b)
  unfolding buffer_write_ready
  buffer_write_ready-Ends b h small =
      write_from-Ends (suc b.size) b h (omega (arith, used_count-le b.entry, h.len)) small
