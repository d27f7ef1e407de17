-- ===== src/Rcopy/Controls.antt =====
-- rcopy.c: control packets keep the window sound, and never send anything but what it holds.
use cpe_networking_rejective.Prelude.{
  ℕ, ◌+◌, ◌^◌, ◌≤◌, ◌<◌, ◌≡◌, refl, sym, ap, ◌∙◌, inl, inr, true, false, none, some, List, [], ◌∷◌,
  ◌++◌, append_assoc, append-nil, arith, ltb, ◌==◌, if◌then◌else◌, Bool-cases, Option-cases, length,
  take, drop, All, All-append, All-imp,
}
use cpe_networking_rejective.Checksum.{Checksum}
use cpe_networking_rejective.Net.{Event, timeout, arrives, received}
use cpe_networking_rejective.Packet.{
  srej_header_len, flag_rr, flag_srej, read_u32, get_flag, check_packet,
}
use cpe_networking_rejective.Window.{Window, WindowEntry, window_find}
use cpe_networking_rejective.Window.Invariant.{IsWindow}
use cpe_networking_rejective.Window.Release.{window_rr_lem}
use cpe_networking_rejective.Rcopy.{
  RcopyInfo, resend_packet, handle_rr, handle_reject, handle_control, is_control, controls_from,
  process_controls,
}

-- A packet as the window holds it.
abbrev pub IsHeld : Window → ℕ × List ℕ → Type 0
IsHeld w q =
    (s : ℕ) × (e : WindowEntry) × (window_find w s ≡ some e) × (q.1 ≡ take e.packet_len e.packet)

-- What a control packet may do to the sender: the window slides over acknowledged packets, and
-- what is sent is a packet of the window.
pub record Heard (i j : RcopyInfo) : Type 0 where
  pub sound : IsWindow j.window
  pub current_kept : j.window.current ≡ i.window.current
  pub size_kept : j.window.size ≡ i.window.size
  pub grows : i.window.lower ≤ j.window.lower
  pub found :
      (s : ℕ) (e : WindowEntry) → window_find j.window s ≡ some e → window_find i.window s ≡ some e
  pub rest_kept :
      (j.buffer_size ≡ i.buffer_size)
      × (j.file_done ≡ i.file_done)
      × (j.had_error ≡ i.had_error)
      × (j.reads ≡ i.reads)
  pub resent : List (ℕ × List ℕ)
  pub sent_more : j.sent ≡ i.sent ++ resent
  pub resent_held : All (IsHeld i.window) resent

Heard-refl : (i : RcopyInfo) → IsWindow i.window → Heard i i
Heard-refl i v = record {
  sound = v;
  current_kept = refl;
  size_kept = refl;
  grows = omega arith;
  found = λ s e h. h;
  rest_kept = (refl, refl, refl, refl);
  resent = [];
  sent_more = sym (append-nil i.sent);
  resent_held = tt;
}

IsHeld-found :
    (w w' : Window)
    → ((s : ℕ) (e : WindowEntry) → window_find w' s ≡ some e → window_find w s ≡ some e)
    → (q : ℕ × List ℕ) → IsHeld w' q
    → IsHeld w q
IsHeld-found w w' found q (s, e, f, b) = (s, e, found s e f, b)

pub Heard-trans : {i j k : RcopyInfo} → Heard i j → Heard j k → Heard i k
Heard-trans {i} {j} h g = record {
  sound = g.sound;
  current_kept = g.current_kept ∙ h.current_kept;
  size_kept = g.size_kept ∙ h.size_kept;
  grows = omega (arith, h.grows, g.grows);
  found = λ s e q. h.found s e (g.found s e q);
  rest_kept = (
    g.rest_kept.0 ∙ h.rest_kept.0,
    g.rest_kept.1 ∙ h.rest_kept.1,
    g.rest_kept.2 ∙ h.rest_kept.2,
    g.rest_kept.3 ∙ h.rest_kept.3,
  );
  resent = h.resent ++ g.resent;
  sent_more =
      g.sent_more ∙ ap (λ x. x ++ g.resent) h.sent_more ∙ append_assoc i.sent h.resent g.resent;
  resent_held = All-append (IsHeld i.window) h.resent g.resent h.resent_held (
      All-imp (IsHeld j.window) (IsHeld i.window) (IsHeld-found i.window j.window h.found) g.resent
        g.resent_held);
}

handle_rr-Heard :
    (i : RcopyInfo) (packet : List ℕ)
    → IsWindow i.window
    → i.window.current + i.window.size < 2 ^ 32
    → Heard i (handle_rr i packet)
unfolding handle_rr
handle_rr-Heard i packet v room = elim (Bool-cases (ltb (length packet) (srej_header_len + 4))) [
  | inl short ↦ rw short (Heard-refl i v)
  | inr long ↦
      let seq = read_u32 (drop srej_header_len packet) in
      let q = window_rr_lem i.window seq v room in
      rw long (record {
        sound = q.0;
        current_kept = q.2;
        size_kept = q.3;
        grows = omega (arith, q.1);
        found = λ s e f. ground (arith, f, q.4 s);
        rest_kept = (refl, refl, refl, refl);
        resent = [];
        sent_more = sym (append-nil i.sent);
        resent_held = tt;
      })
]

pub resend_packet-Heard :
    (i : RcopyInfo) (s : ℕ) (e : WindowEntry)
    → IsWindow i.window
    → window_find i.window s ≡ some e
    → Heard i (resend_packet i e)
unfolding resend_packet
resend_packet-Heard i s e v f = record {
  sound = v;
  current_kept = refl;
  size_kept = refl;
  grows = omega arith;
  found = λ t d h. h;
  rest_kept = (refl, refl, refl, refl);
  resent = (i.server, take e.packet_len e.packet) ∷ [];
  sent_more = refl;
  resent_held = ((s, e, f, refl), tt);
}

-- The branches of `handle_reject`.
reject_short :
    (i : RcopyInfo) (packet : List ℕ)
    → ltb (length packet) (srej_header_len + 4) ≡ true
    → handle_reject i packet ≡ i
unfolding handle_reject
reject_short i packet h = ground arith

reject_absent :
    (i : RcopyInfo) (packet : List ℕ)
    → ltb (length packet) (srej_header_len + 4) ≡ false
    → window_find i.window (read_u32 (drop srej_header_len packet)) ≡ none
    → handle_reject i packet ≡ i
unfolding handle_reject
reject_absent i packet h k = ground arith

reject_found :
    (i : RcopyInfo) (packet : List ℕ) (e : WindowEntry)
    → ltb (length packet) (srej_header_len + 4) ≡ false
    → window_find i.window (read_u32 (drop srej_header_len packet)) ≡ some e
    → handle_reject i packet ≡ resend_packet i e
unfolding handle_reject
reject_found i packet e h k = ground arith

handle_reject-Heard :
    (i : RcopyInfo) (packet : List ℕ) → IsWindow i.window → Heard i (handle_reject i packet)
handle_reject-Heard i packet v =
    let seq = read_u32 (drop srej_header_len packet) in
    elim (Bool-cases (ltb (length packet) (srej_header_len + 4))) [
      | inl short ↦ rw (reject_short i packet short) (Heard-refl i v)
      | inr long ↦ elim (Option-cases (window_find i.window seq)) [
        | inl absent ↦ rw (reject_absent i packet long absent) (Heard-refl i v)
        | inr (e, f) ↦ rw (reject_found i packet e long f) (resend_packet-Heard i seq e v f)
      ]
    ]

module _ ⦃ck : Checksum⦄ where
  pub handle_control-Heard :
      (i : RcopyInfo) (packet : List ℕ)
      → IsWindow i.window
      → i.window.current + i.window.size < 2 ^ 32
      → Heard i (handle_control i packet)
  unfolding handle_control
  handle_control-Heard i packet v room = elim (Bool-cases (check_packet packet)) [
    | inr bad ↦ rw bad (Heard-refl i v)
    | inl good ↦ elim (Bool-cases (get_flag packet == flag_rr)) [
      | inl rr ↦ rw (good, rr) (handle_rr-Heard i packet v room)
      | inr other ↦ elim (Bool-cases (get_flag packet == flag_srej)) [
        | inl srej ↦ rw (good, other, srej) (handle_reject-Heard i packet v)
        | inr none_of_them ↦ rw (good, other, none_of_them) (Heard-refl i v)
      ]
    ]
  ]

  -- Hearing from an address changes nothing that `Heard` speaks of.
  from_address :
      (i : RcopyInfo) (from : ℕ) {j : RcopyInfo} → Heard (record i { server = from }) j → Heard i j
  from_address i from h = record {
    sound = h.sound;
    current_kept = h.current_kept;
    size_kept = h.size_kept;
    grows = h.grows;
    found = h.found;
    rest_kept = h.rest_kept;
    resent = h.resent;
    sent_more = h.sent_more;
    resent_held = h.resent_held;
  }

  no_more_events :
      (i : RcopyInfo) (es : List Event) → IsWindow i.window → Heard i (record i { events = es })
  no_more_events i es v = record {
    sound = v;
    current_kept = refl;
    size_kept = refl;
    grows = omega arith;
    found = λ s e h. h;
    rest_kept = (refl, refl, refl, refl);
    resent = [];
    sent_more = sym (append-nil i.sent);
    resent_held = tt;
  }

  controls_from-Heard :
      (es : List Event) (i : RcopyInfo) (count : ℕ)
      → IsWindow i.window
      → i.window.current + i.window.size < 2 ^ 32
      → Heard i (controls_from es i count).0
  unfolding controls_from
  controls_from-Heard [] i count v room = no_more_events i [] v
  controls_from-Heard (timeout ∷ es) i count v room = no_more_events i es v
  controls_from-Heard (arrives from bytes ∷ es) i count v room =
      let packet = received bytes in
      let at : RcopyInfo = record i { server = from } in
      let h = handle_control-Heard at packet v room in
      let n = if is_control packet then count + 1 else count in
      from_address i from (
        Heard-trans h (
          controls_from-Heard es (handle_control at packet) n h.sound
            (omega (arith, h.current_kept, h.size_kept))))

  -- On a sound window whose numbers do not wrap, `process_controls` leaves a sound window with the
  -- same `current` and `size` and a `lower` that has not gone back; what the window still holds it
  -- held before, and every packet that it sends is one that the window held.
  pub process_controls-Heard :
      (i : RcopyInfo)
      → IsWindow i.window
      → i.window.current + i.window.size < 2 ^ 32
      → Heard i (process_controls i).0
  unfolding process_controls
  process_controls-Heard i v room = controls_from-Heard i.events i 0 v room
