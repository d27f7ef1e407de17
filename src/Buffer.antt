-- ===== src/Buffer.antt =====
-- udpCode_spring26_v3/Buffer.h and Buffer.c: the receive buffer, a circular array of packets that
-- came out of order, in front of the output file.
-- `output_file` holds the bytes that were written to the descriptor; `write` is the system call: for
-- the bytes written before and those to be written it gives their number, `none` for an error.
-- Of the array `data` of an entry (`payload` here) only the first `data_len` bytes are kept.
pub mod Slots
pub mod Ready
pub mod Reject
mod Tests
use cpe_networking_rejective.Prelude.{
  ℕ, zero, suc, ◌+◌, ◌%◌, Bool, true, false, not, ◌&&◌, ◌||◌, Option, none, some, List, [], ◌++◌,
  ltb, leb, ◌==◌, if◌then◌else◌, get_or, set, take, replicate, u32,
}

pub record BufferEntry : Type 0 where
  pub seq : ℕ
  pub data_len : ℕ
  pub used : ℕ
  pub payload : List ℕ

pub record Buffer : Type 0 where
  pub entry : List BufferEntry
  pub size : ℕ
  pub output_file : List ℕ
  pub expected : ℕ
  pub missing_seq : ℕ
  pub missing_active : ℕ

-- An entry as `calloc` leaves it.
abbrev pub zeroed : BufferEntry
zeroed = record { seq = 0; data_len = 0; used = 0; payload = [] }

-- `calloc n` tells if the allocation of `n` entries succeeds; without it the process exits.
unfoldable pub buffer_init : (ℕ → Bool) → ℕ → ℕ → List ℕ → Option Buffer
buffer_init calloc size start_seq output_file =
    if calloc size
    then some (record {
      entry = replicate size zeroed;
      size = size;
      output_file = output_file;
      expected = start_seq;
      missing_seq = 0;
      missing_active = 0;
    })
    else none

unfoldable pub buffer_expected : Buffer → ℕ
buffer_expected b = b.expected

-- True is the result 1, here and below.
unfoldable pub buffer_in_window : Buffer → ℕ → Bool
buffer_in_window b seq =
    if leb b.expected seq && ltb seq (u32 (b.expected + b.size)) then true else false

unfoldable pub buffer_has : Buffer → ℕ → Bool
buffer_has b seq =
    let e = get_or b.entry (seq % b.size) zeroed in
    if e.used == 1 && e.seq == seq then true else false

-- The loop of `buffer_has_later`; the first argument is `size - count`.
unfoldable pub has_later_from : ℕ → Buffer → ℕ → Bool
has_later_from zero b count = false
has_later_from (suc left) b count =
    let e = get_or b.entry count zeroed in
    let rest = has_later_from left b (count + 1) in
    if e.used == 1 && ltb b.expected e.seq then true else rest

unfoldable pub buffer_has_later : Buffer → Bool
buffer_has_later b = has_later_from b.size b 0

unfoldable pub buffer_save : Buffer → ℕ → List ℕ → ℕ → Buffer
buffer_save b seq bytes data_len =
    let spot = seq % b.size in
    let saved : BufferEntry = record {
      seq = seq;
      data_len = data_len;
      used = 1;
      payload = take data_len bytes;
    } in
    if buffer_has b seq then b else record b { entry = set b.entry spot saved }

-- The bytes that `buffer_write_ready` hands to `write` for a sequence number.
unfoldable pub data_at : Buffer → ℕ → List ℕ
data_at b seq = let e = get_or b.entry (seq % b.size) zeroed in take e.data_len e.payload

-- The rest of the loop's body once `write` has taken `wrote` bytes.
unfoldable pub written : Buffer → ℕ → Buffer
written b wrote =
    let spot = b.expected % b.size in
    let e = get_or b.entry spot zeroed in
    record b {
      entry = set b.entry spot (record e { used = 0 });
      output_file = b.output_file ++ take wrote (data_at b b.expected);
      expected = u32 (b.expected + 1);
    }

module _ (write : List ℕ → List ℕ → Option ℕ) where
  -- `while (buffer_has(buffer, buffer->expected) == 1)`; `none` is the `exit(-1)` after a failed write.
  unfoldable pub write_from : ℕ → Buffer → Option Buffer
  write_from zero b = some b
  write_from (suc fuel) b = elim (buffer_has b b.expected) [
    | true ↦ elim (write b.output_file (data_at b b.expected)) [
      | none ↦ none
      | some wrote ↦ write_from fuel (written b wrote)
    ]
    | false ↦ some b
  ]

  -- Every round empties an entry, so the fuel is never used up: see `Ready`.
  unfoldable pub buffer_write_ready : Buffer → Option Buffer
  buffer_write_ready b = write_from (suc b.size) b

unfoldable pub buffer_need_reject : Buffer → Buffer × Bool
buffer_need_reject b =
    if b.missing_active == 0 || not (b.missing_seq == b.expected)
    then (record b { missing_active = 1; missing_seq = b.expected }, true)
    else (b, false)

unfoldable pub buffer_clear_reject : Buffer → ℕ → Buffer
buffer_clear_reject b seq =
    if b.missing_active == 1 && b.missing_seq == seq then record b { missing_active = 0 } else b
