-- ===== src/Server/Delivery.antt =====
-- server.c: whatever arrives, in whatever order and how often, the output file is a prefix of the
-- file that was sent.
use cpe_networking_rejective.Prelude.{
  ℕ, zero, suc, ◌+◌, ◌-◌, ◌%◌, ◌^◌, ◌≤◌, ◌<◌, ◌≡◌, refl, sym, ap, ap₂, ◌∙◌, true, Option, List,
  ◌++◌, append_assoc, arith, dec_lt, ℕ_discrete, length, take-all,
}
use cpe_networking_rejective.Upload.{Upload, chunks, RefusesPiece}
use cpe_networking_rejective.Buffer.{Buffer, buffer_has, data_at, buffer_save}
use cpe_networking_rejective.Buffer.Slots.{
  IsArray, buffer_has-buffer_save, data_at-buffer_save, buffer_save-IsArray,
}
use cpe_networking_rejective.Buffer.Ready.{run_data, Wrote, Fails}

chunks-add :
    (chunk : ℕ → List ℕ) (s m n : ℕ)
    → chunks chunk s m ++ chunks chunk (s + m) n ≡ chunks chunk s (m + n)
chunks-add chunk s zero n = ap₂ (chunks chunk) (omega arith) (omega arith)
chunks-add chunk s (suc m) n =
    let shift : s + suc m ≡ suc s + m = omega arith in
    let sum : suc m + n ≡ suc (m + n) = omega arith in
    append_assoc (chunk s) (chunks chunk (suc s) m) (chunks chunk (s + suc m) n)
    ∙ ap (λ k. chunk s ++ (chunks chunk (suc s) m ++ chunks chunk k n)) shift
    ∙ ap (◌++◌ (chunk s)) (chunks-add chunk (suc s) m n)
    ∙ ap (chunks chunk s) (sym sum)

-- What holds of the receive buffer between two packets.
pub record IsDelivering (f : Upload) (b : Buffer) : Type 0 where
  pub array : IsArray b
  pub room : f.limit + b.size < 2 ^ 32
  pub taken : ℕ
  pub expects : b.expected ≡ f.first + taken
  pub within : b.expected ≤ f.limit
  pub output : b.output_file ≡ chunks f.chunk f.first taken
  pub ahead :
      (s : ℕ) → buffer_has b s ≡ true → (b.expected ≤ s) × (s < f.limit) × (s < b.expected + b.size)
  pub genuine : (s : ℕ) → buffer_has b s ≡ true → data_at b s ≡ f.chunk s

run_data-chunks :
    (f : Upload) (b : Buffer) (s n : ℕ)
    → ((t : ℕ) → s ≤ t → t < s + n → data_at b t ≡ f.chunk t)
    → run_data b s n ≡ chunks f.chunk s n
run_data-chunks f b s zero h = refl
run_data-chunks f b s (suc n) h =
    ap₂ ◌++◌ (h s (omega arith) (omega arith))
      (run_data-chunks f b (suc s) n (λ t x y. h t (omega arith) (omega arith)))

pub save_fields :
    (b : Buffer) (seq : ℕ) (bytes : List ℕ) (n : ℕ)
    → let c = buffer_save b seq bytes n in
      (c.expected ≡ b.expected) × (c.size ≡ b.size) × (c.output_file ≡ b.output_file)
unfolding buffer_save
save_fields b seq bytes n = ground arith

-- Saving a genuine packet of the window.
pub buffer_save-IsDelivering :
    (f : Upload) (b : Buffer) (seq : ℕ) (bytes : List ℕ)
    → IsDelivering f b
    → b.expected ≤ seq
    → seq < b.expected + b.size
    → seq < f.limit
    → bytes ≡ f.chunk seq
    → IsDelivering f (buffer_save b seq bytes (length bytes))
buffer_save-IsDelivering f b seq bytes d low high lim e =
    let k = save_fields b seq bytes (length bytes) in
    let n = length bytes in
    record {
      array = buffer_save-IsArray b seq bytes n d.array;
      room = omega (arith, k, d.room);
      taken = d.taken;
      expects = k.0 ∙ d.expects;
      within = omega (arith, k, d.within);
      output = k.2 ∙ d.output;
      ahead = λ s x. ground (arith, k, d.ahead s, buffer_has-buffer_save b seq bytes n s d.array);
      genuine = λ s x. elim (ℕ_discrete s seq) [
        | yes q ↦ ground (
          arith,
          q,
          e,
          ap f.chunk q,
          ap (data_at b) q,
          ap (λ t. t % b.size) q,
          d.genuine seq,
          data_at-buffer_save b seq bytes n s d.array,
          take-all n bytes,
        )
        | no ne ↦ ground (
          arith,
          d.genuine s,
          buffer_has-buffer_save b seq bytes n s d.array,
          data_at-buffer_save b seq bytes n s d.array,
        )
      ];
    }

-- Writing the ready packets.
pub Wrote-IsDelivering :
    (f : Upload) (b b' : Buffer) → IsDelivering f b → Wrote b b' → IsDelivering f b'
Wrote-IsDelivering f b b' d w =
    let last : b'.expected ≤ f.limit = elim (dec_lt b.expected b'.expected) [
      | yes more ↦
          let q =
            d.ahead (b'.expected - 1) (w.all_had (b'.expected - 1) (omega arith) (omega arith)) in
          omega (arith, q)
      | no same ↦ omega arith
    ] in
    let fresh =
      run_data-chunks f b b.expected w.count
        (λ t x y. d.genuine t (w.all_had t x (omega (arith, w.expects)))) in
    record {
      array = w.array;
      room = omega (arith, w.size_kept, d.room);
      taken = d.taken + w.count;
      expects = omega (arith, w.expects, d.expects);
      within = last;
      output =
          w.output
          ∙ ap₂ ◌++◌ d.output (fresh ∙ ap (λ s. chunks f.chunk s w.count) d.expects)
          ∙ chunks-add f.chunk f.first d.taken w.count;
      ahead = λ s x. ground (arith, w.size_kept, w.has_rest s, d.ahead s, w.expects);
      genuine = λ s x. w.bytes_rest s ∙ d.genuine s (ground (arith, w.has_rest s));
    }

-- A `write` that fails in `buffer_write_ready` fails for a piece of the file.
pub Fails-RefusesPiece :
    (write : List ℕ → List ℕ → Option ℕ) (f : Upload) (b : Buffer)
    → IsDelivering f b
    → Fails write b
    → RefusesPiece write f
Fails-RefusesPiece write f b d (k, all, failed) =
    let at : b.expected + k ≡ f.first + (d.taken + k) = omega (arith, d.expects) in
    let had = all (b.expected + k) (omega arith) (omega arith) in
    let fresh = run_data-chunks f b b.expected k (λ t x y. d.genuine t (all t x (omega arith))) in
    let out : b.output_file ++ run_data b b.expected k ≡ chunks f.chunk f.first (d.taken + k) =
      ap₂ ◌++◌ d.output (fresh ∙ ap (λ s. chunks f.chunk s k) d.expects)
      ∙ chunks-add f.chunk f.first d.taken k in
    (
      d.taken + k,
      omega (arith, d.ahead (b.expected + k) had, at),
      sym (ap₂ write out (d.genuine (b.expected + k) had ∙ ap f.chunk at)) ∙ failed,
    )
