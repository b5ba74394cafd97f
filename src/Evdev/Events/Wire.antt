-- ===== src/Evdev/Events/Wire.antt =====
-- What the reader sends to the peer.
use toothkey.Base.{
  ℕ, ◌<◌, ◌≡◌, refl, true, false, some, List, [], ◌∷◌, arith, if◌then◌else◌, ltb, length, has, eqb,
  eqb→eq, ◌∙◌, all_below, all_below_sound,
}
use toothkey.Evdev.Keys.{Key, Key-discrete, max_keys}
use toothkey.Evdev.Report.{Held, Slots, rollover, pressed, usages_of, host_view}
use toothkey.Evdev.Report.Modifiers.{bit_at, modifier, mod_byte-bits, mod_byte-total}
use toothkey.Evdev.Report.Layout.{build_report-host_view}
use toothkey.Evdev.Events.{Reader, Effect, on_report, emit, forward, on_key_event}
use toothkey.Evdev.Events.Tracking.{IsTracked, is_ignored, on_key_event-IsTracked}

-- The slots that these keys ask for.
abbrev pub slots_of : List Key → Slots
slots_of keys =
    if ltb max_keys (length (usages_of keys)) then rollover else pressed (usages_of keys)

-- A report from which a host reads these keys: ten bytes, a modifier bit for each modifier held and
-- for no other, and the slots.
pub record Tells (h : Held) (report : List ℕ) : Type 0 where
  pub byte : ℕ
  pub long : length report ≡ 10
  pub read : host_view report ≡ some (byte, slots_of h.keys)
  pub byte_small : byte < 256
  pub bits : (j : ℕ) → j < 8 → bit_at j byte ≡ has Key-discrete h.mods (modifier j)

no_bits : all_below 8 (λ j. eqb (bit_at j 0) false) ≡ true
unfolding all_below bit_at
no_bits = refl

no_bit : (j : ℕ) → j < 8 → bit_at j 0 ≡ false
no_bit j hj = eqb→eq _ _ (all_below_sound 8 _ j no_bits hj)

-- The report that is sent tells the keys held.
pub emit-Tells : (h : Held) → IsTracked h → (r : List ℕ) × (emit h ≡ on_report r ∷ []) × Tells h r
unfolding emit
emit-Tells h t =
    let (byte, e) = mod_byte-total 0 h.mods t.only_modifiers in
    let (r, built, long, read) = build_report-host_view h byte e in
    let (small, bits) = mod_byte-bits 0 h.mods byte (omega arith) e in
    (
      r,
      rw (built, emit),
      record {
        byte = byte;
        long = long;
        read = read;
        byte_small = small;
        bits = λ j hj. ground (arith, bits j hj, no_bit j hj);
      },
    )

on_key_event_loud :
    (s : Reader) (code : Key) (value : ℕ)
    → s.suppress_forwarding ≡ false
    → is_ignored s.held code value ≡ false
    → (on_key_event s code value).1 ≡ emit (on_key_event s code value).0.held
unfolding on_key_event forward
on_key_event_loud s code value loud plain = ground arith

abbrev pub reports : List Effect → List (List ℕ)
reports [] = []
reports (on_report r ∷ es) = r ∷ reports es
reports (_ ∷ es) = reports es

-- While forwarding is muted nothing at all is sent to the peer, and the keys held are followed all
-- the same as without the muting.
pub on_key_event_muted :
    (s : Reader) (code : Key) (value : ℕ)
    → (reports (on_key_event (record s { suppress_forwarding = true }) code value).1 ≡ [])
      × ((on_key_event (record s { suppress_forwarding = true }) code value).0.held
          ≡ (on_key_event (record s { suppress_forwarding = false }) code value).0.held)
unfolding on_key_event forward
on_key_event_muted s code value = ground arith

-- An autorepeat, and a press that completes a chord, send no report.
pub on_key_event_ignored :
    (s : Reader) (code : Key) (value : ℕ)
    → is_ignored s.held code value ≡ true
    → (reports (on_key_event s code value).1 ≡ []) × ((on_key_event s code value).0.held ≡ s.held)
unfolding on_key_event
on_key_event_ignored s code value h = ground arith

-- From lists of held keys that are in order, a key event that is neither muted nor ignored sends
-- one report, and that report tells the keys held after it.
pub on_key_event-Tells :
    (s : Reader) (code : Key) (value : ℕ)
    → IsTracked s.held
    → s.suppress_forwarding ≡ false
    → is_ignored s.held code value ≡ false
    → (r : List ℕ) × ((on_key_event s code value).1 ≡ on_report r ∷ [])
      × Tells (on_key_event s code value).0.held r
on_key_event-Tells s code value t loud plain =
    let (r, sent, tells) = emit-Tells _ (on_key_event-IsTracked s code value t) in
    (r, on_key_event_loud s code value loud plain ∙ sent, tells)
