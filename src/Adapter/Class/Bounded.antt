-- ===== src/Adapter/Class/Bounded.antt =====
-- How often btmgmt can hold up the set-up.
use toothkey.Base.{
  ℕ, ◌+◌, ◌*◌, ◌≤◌, ◌≡◌, Bool, true, false, Option, List, [], ◌∷◌, ◌++◌, length, length-append,
  arith, Bool-cases, inl, inr,
}
use toothkey.Adapter.Class.{
  Run, after_btmgmt, run_btmgmt, major_of, minor_byte, returned, not_found, timed_out, raised,
  Command, btmgmt, hciconfig, Radio, keyboard_class, set_class_of_device, Try,
  verify_class_of_device,
}

-- the calls of btmgmt that found no program or ran into its time
abbrev stalled : Command × Run → ℕ
stalled (btmgmt major minor, returned ok) = 0
stalled (btmgmt major minor, not_found) = 1
stalled (btmgmt major minor, timed_out) = 1
stalled (btmgmt major minor, raised) = 0
stalled (hciconfig cod, end) = 0

abbrev pub stalls : List (Command × Run) → ℕ
stalls [] = 0
stalls (c ∷ more) = stalled c + stalls more

stalls-snoc :
    (xs : List (Command × Run)) (c : Command × Run) → stalls (xs ++ c ∷ []) ≡ stalls xs + stalled c
stalls-snoc [] c = omega arith
stalls-snoc (x ∷ xs) c = omega (arith, stalls-snoc xs c)

-- what is left: a stall can come as long as btmgmt counts as usable
abbrev pub allowance : Bool → ℕ
allowance true = 1
allowance false = 0

-- two commands in a row
stalls-two :
    (xs : List (Command × Run)) (c d : Command × Run)
    → (stalls ((xs ++ c ∷ []) ++ d ∷ []) ≡ stalls xs + stalled c + stalled d)
      × (length ((xs ++ c ∷ []) ++ d ∷ []) ≡ length xs + 2)
stalls-two xs c d = (
  omega (arith, stalls-snoc (xs ++ c ∷ []) d, stalls-snoc xs c),
  omega (arith, length-append (xs ++ c ∷ []) (d ∷ []), length-append xs (c ∷ [])),
)

-- at most two commands, and a stall uses up the allowance
abbrev IsBounded : Radio → Radio → Type 0
IsBounded r r' =
    (length (r'.ran) ≤ length (r.ran) + 2)
    × (stalls (r'.ran) + allowance (r'.btmgmt_usable)
        ≡ stalls (r.ran) + allowance (r.btmgmt_usable))

after_btmgmt-IsBounded :
    (cod : ℕ) (end fallback : Run) (r : Radio)
    → IsBounded
        (record r { btmgmt_usable = true })
        (after_btmgmt cod end fallback (run_btmgmt cod end (record r { btmgmt_usable = true }))).0
after_btmgmt-IsBounded cod (returned true) fallback r = (
  omega
      (arith, length-append (r.ran) ((btmgmt (major_of cod) (minor_byte cod), returned true) ∷ [])),
  omega (arith, stalls-snoc (r.ran) (btmgmt (major_of cod) (minor_byte cod), returned true)),
)
after_btmgmt-IsBounded cod (returned false) fallback r =
    let two =
      stalls-two (r.ran) (btmgmt (major_of cod) (minor_byte cod), returned false)
        (hciconfig cod, fallback) in
    (omega (arith, two.1), omega (arith, two.0))
after_btmgmt-IsBounded cod not_found fallback r =
    let two =
      stalls-two (r.ran) (btmgmt (major_of cod) (minor_byte cod), not_found)
        (hciconfig cod, fallback) in
    (omega (arith, two.1), omega (arith, two.0))
after_btmgmt-IsBounded cod timed_out fallback r =
    let two =
      stalls-two (r.ran) (btmgmt (major_of cod) (minor_byte cod), timed_out)
        (hciconfig cod, fallback) in
    (omega (arith, two.1), omega (arith, two.0))
after_btmgmt-IsBounded cod raised fallback r = (
  omega (arith, length-append (r.ran) ((btmgmt (major_of cod) (minor_byte cod), raised) ∷ [])),
  omega (arith, stalls-snoc (r.ran) (btmgmt (major_of cod) (minor_byte cod), raised)),
)

set_class_of_device-IsBounded :
    (cod : ℕ) (end fallback : Run) (r : Radio)
    → IsBounded r (set_class_of_device cod end fallback r).0
unfolding set_class_of_device
set_class_of_device-IsBounded cod end fallback r = elim (Bool-cases (r.btmgmt_usable)) [
  | inl usable ↦ rw usable (after_btmgmt-IsBounded cod end fallback r)
  | inr not_usable ↦ rw not_usable (
    omega (arith, length-append (r.ran) ((hciconfig cod, fallback) ∷ [])),
    omega (arith, stalls-snoc (r.ran) (hciconfig cod, fallback)),
  )
]

-- Whatever the class reads as and however the commands end, an exception included, the check runs at most two commands a
-- try, and btmgmt stalls at most once from when it counts as usable until the end of the check,
-- and not at all once it does not.
pub verify_class_of_device-stalls :
    (ts : List Try) (final : Option ℕ) (r : Radio)
    → (length ((verify_class_of_device ts final r).0.ran) ≤ length (r.ran) + 2 * length ts)
      × (stalls ((verify_class_of_device ts final r).0.ran)
          ≤ stalls (r.ran) + allowance (r.btmgmt_usable))
unfolding verify_class_of_device
verify_class_of_device-stalls [] final r = (omega arith, omega arith)
verify_class_of_device-stalls (t ∷ ts) final r =
    let r' : Radio = (set_class_of_device keyboard_class (t.managed) (t.configured) r).0 in
    ground (
      arith,
      verify_class_of_device-stalls ts final r',
      set_class_of_device-IsBounded keyboard_class (t.managed) (t.configured) r,
    )
