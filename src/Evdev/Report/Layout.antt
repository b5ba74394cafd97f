-- ===== src/Evdev/Report/Layout.antt =====
-- The six key slots of a report: which usages they hold, and what a host reads from them.
use toothkey.Base.{
  ℕ, ◌<◌, ◌≤◌, ◌≡◌, refl, Option, some, List, [], ◌∷◌, arith, ltb, if◌then◌else◌, length, set,
  replicate, All, Option-cases, inl, inr,
}
use toothkey.Evdev.Keys.{Key, keycode_to_hid, max_keys, hid_error_rollover, key_a}
use toothkey.Evdev.Report.{
  Held, Slots, rollover, pressed, mod_byte, usages_of, write_slots, build_report, host_view,
}

-- Every usage of the table lies above ErrorRollOver and the two other error codes, and in a byte.
pub hid_range : (code : Key) (u : ℕ) → keycode_to_hid code ≡ some u → (4 ≤ u) × (u < 149)
unfolding keycode_to_hid
hid_range key_a u e = ground arith
hid_range _ u e = ground arith

abbrev IsUsage : ℕ → Type 0
IsUsage u = (4 ≤ u) × (u < 149)

pub usages_of-IsUsage : (codes : List Key) → All IsUsage (usages_of codes)
unfolding usages_of
usages_of-IsUsage [] = tt
usages_of-IsUsage (code ∷ codes) = elim (Option-cases (keycode_to_hid code)) [
  | inl n ↦ ground (arith, usages_of-IsUsage codes)
  | inr (u, e) ↦ ground (arith, hid_range code u e, usages_of-IsUsage codes)
]

-- The six slots as they should be: a rollover in each, or the usages and then zeros.
abbrev view : List ℕ → Slots
view us = if ltb max_keys (length us) then rollover else pressed us

abbrev blank : ℕ → List ℕ
blank byte = set (set (set (replicate 10 0) 0 0xA1) 1 0x01) 2 byte

abbrev filled : ℕ → List ℕ → Option (List ℕ)
filled byte us =
    if ltb max_keys (length us)
    then write_slots 4 (replicate max_keys hid_error_rollover) (blank byte)
    else write_slots 4 us (blank byte)

abbrev Reads : ℕ → List ℕ → Type 0
Reads byte us =
    (r : List ℕ) × (filled byte us ≡ some r)
    × (length r ≡ 10)
    × (host_view r ≡ some (byte, view us))

-- the report with these six slots
abbrev report : ℕ → List ℕ → List ℕ
report byte slots = 0xA1 ∷ 0x01 ∷ byte ∷ 0 ∷ slots

reads :
    (byte : ℕ) (us slots : List ℕ)
    → filled byte us ≡ some (report byte slots)
    → length slots ≡ 6
    → host_view (report byte slots) ≡ some (byte, view us)
    → Reads byte us
reads byte us slots e l v = (report byte slots, e, omega (arith, l), v)

filled-Reads : (byte : ℕ) (us : List ℕ) → All IsUsage us → Reads byte us
unfolding write_slots host_view
filled-Reads byte [] h = reads byte [] (replicate 6 0) refl refl refl
filled-Reads byte (a ∷ []) h = reads byte (a ∷ []) (a ∷ replicate 5 0) refl refl (ground arith)
filled-Reads byte (a ∷ b ∷ []) h =
    reads byte (a ∷ b ∷ []) (a ∷ b ∷ replicate 4 0) refl refl (ground arith)
filled-Reads byte (a ∷ b ∷ c ∷ []) h =
    reads byte (a ∷ b ∷ c ∷ []) (a ∷ b ∷ c ∷ replicate 3 0) refl refl (ground arith)
filled-Reads byte (a ∷ b ∷ c ∷ d ∷ []) h =
    reads byte (a ∷ b ∷ c ∷ d ∷ []) (a ∷ b ∷ c ∷ d ∷ 0 ∷ 0 ∷ []) refl refl (ground arith)
filled-Reads byte (a ∷ b ∷ c ∷ d ∷ e ∷ []) h =
    reads byte (a ∷ b ∷ c ∷ d ∷ e ∷ []) (a ∷ b ∷ c ∷ d ∷ e ∷ 0 ∷ []) refl refl (ground arith)
filled-Reads byte (a ∷ b ∷ c ∷ d ∷ e ∷ f ∷ []) h =
    reads byte (a ∷ b ∷ c ∷ d ∷ e ∷ f ∷ []) (a ∷ b ∷ c ∷ d ∷ e ∷ f ∷ []) refl refl (ground arith)
filled-Reads byte (a ∷ b ∷ c ∷ d ∷ e ∷ f ∷ g ∷ us) h =
    reads byte (a ∷ b ∷ c ∷ d ∷ e ∷ f ∷ g ∷ us) (replicate 6 hid_error_rollover) (ground arith) refl
      (ground arith)

-- The report that is built has ten bytes, and a host reads from it the modifier byte and the
-- usages of the keys, in order; or a rollover, if there are more than six.
pub build_report-host_view :
    (h : Held) (byte : ℕ)
    → mod_byte 0 h.mods ≡ some byte
    → (r : List ℕ) × (build_report h ≡ some r)
      × (length r ≡ 10)
      × (host_view r
          ≡ some (
            byte,
            (if ltb max_keys (length (usages_of h.keys))
                then rollover
                else pressed (usages_of h.keys)),
          ))
unfolding build_report
build_report-host_view h byte e =
    let (r, made, long, seen) = filled-Reads byte (usages_of h.keys) (usages_of-IsUsage h.keys) in
    (r, rw (e, build_report) made, long, seen)
