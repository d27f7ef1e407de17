-- ===== src/Buffer/Tests.antt =====
-- Buffer.c on a buffer of four packets.
use cpe_networking_rejective.Prelude.{
  ℕ, zero, suc, ◌-◌, ◌%◌, ◌^◌, ◌<◌, ◌≡◌, refl, ◌↔◌, true, false, ◌&&◌, Option, none, some, List, [],
  ◌∷◌, arith, ◌==◌, if◌then◌else◌, length, get_or,
}
use cpe_networking_rejective.Buffer.{
  Buffer, zeroed, buffer_has, buffer_save, data_at, buffer_write_ready, buffer_has_later, written,
  write_from, buffer_need_reject, buffer_clear_reject,
}
use cpe_networking_rejective.Buffer.Slots.{IsArray, buffer_has-buffer_save}
use cpe_networking_rejective.Buffer.Ready.{IsFull, Ends, buffer_write_ready-Ends}
use cpe_networking_rejective.Buffer.Reject.{IsPlaced, buffer_has_later_iff, need_reject_once}

-- A buffer that expects 5 and holds 5 and 7.
abbrev held : Buffer
held = record {
  entry =
      zeroed
      ∷ record { seq = 5; data_len = 1; used = 1; payload = 65 ∷ [] }
      ∷ zeroed
      ∷ record { seq = 7; data_len = 1; used = 1; payload = 67 ∷ [] }
      ∷ [];
  size = 4;
  output_file = 64 ∷ [];
  expected = 5;
  missing_seq = 0;
  missing_active = 0;
}

held-IsArray : IsArray held
held-IsArray = record { pos = omega arith; len = refl }

held-IsPlaced : IsPlaced held
held-IsPlaced zero h = absurd (ground arith)
held-IsPlaced (suc zero) h = refl
held-IsPlaced (suc (suc zero)) h = absurd (ground arith)
held-IsPlaced (suc (suc (suc zero))) h = refl
held-IsPlaced (suc (suc (suc (suc i)))) h = absurd (ground arith)

held_small : (s : ℕ) → buffer_has held s ≡ true → s < 2 ^ 32 - 1
unfolding buffer_has
held_small s h = small (s % 4) h
  where
    small :
        (i : ℕ)
        → (if (get_or held.entry i zeroed).used == 1 && (get_or held.entry i zeroed).seq == s
            then true
            else false)
          ≡ true
        → s < 2 ^ 32 - 1
    small zero h = ground arith
    small (suc zero) h = ground arith
    small (suc (suc zero)) h = ground arith
    small (suc (suc (suc zero))) h = ground arith
    small (suc (suc (suc (suc i)))) h = ground arith

-- A disk that is never full.
abbrev write_all : List ℕ → List ℕ → Option ℕ
write_all out xs = some (length xs)

write_all-IsFull : IsFull write_all
write_all-IsFull out xs n h = ground (arith, h)

buffer_write_ready_example : Ends write_all held (buffer_write_ready write_all held)
buffer_write_ready_example =
    buffer_write_ready-Ends write_all write_all-IsFull held held-IsArray held_small

buffer_has-buffer_save_example :
    buffer_has (buffer_save held 6 (66 ∷ []) 1) 6
    ≡ (if 6 == 6 then true else if 6 % held.size == 6 % held.size then false else buffer_has held 6)
buffer_has-buffer_save_example = buffer_has-buffer_save held 6 (66 ∷ []) 1 6 held-IsArray

buffer_has_later_example :
    (buffer_has_later held ≡ true) ↔ ((s : ℕ) × (held.expected < s) × (buffer_has held s ≡ true))
buffer_has_later_example = buffer_has_later_iff held held-IsArray held-IsPlaced

need_reject_once_example :
    ((buffer_need_reject (buffer_need_reject held).0).1 ≡ false)
    × (((buffer_need_reject (buffer_clear_reject (buffer_need_reject held).0 5)).1 ≡ true)
        ↔ (5 ≡ held.expected))
need_reject_once_example = need_reject_once held 5 (omega arith)

-- The run from 5 is written; 7 waits for 6.
writes_run :
    elim (buffer_write_ready write_all held) [ none ↦ [] | some b ↦ b.expected ∷ b.output_file ]
    ≡ 6 ∷ 64 ∷ 65 ∷ []
unfolding buffer_write_ready write_from written buffer_has data_at
writes_run = refl
