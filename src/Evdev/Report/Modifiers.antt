-- ===== src/Evdev/Report/Modifiers.antt =====
-- The modifier byte of a report: one bit for each modifier that is held.
use toothkey.Base.{
  ℕ, ◌/◌, ◌%◌, ◌^◌, ◌<◌, ◌≡◌, refl, Bool, true, false, ◌&&◌, ◌||◌, some, List, [], ◌∷◌, bit_or,
  arith, ◌==◌, all_below, all_below_sound, has, get_or, Option-cases, inl, eqb, eqb→eq, ltb, ltb→lt,
  inr, is_some, All, is_decided,
}
use toothkey.Evdev.Keys.{
  Key, other, Key-discrete, keycode_to_mod_bit, key_leftctrl, key_leftshift, key_leftalt,
  key_leftmeta, key_rightctrl, key_rightshift, key_rightalt, key_rightmeta,
}
use toothkey.Evdev.Report.{mod_byte}

-- the eight modifiers, in the order of their bits
abbrev pub modifiers : List Key
modifiers =
    key_leftctrl ∷ key_leftshift ∷ key_leftalt ∷ key_leftmeta ∷ key_rightctrl ∷ key_rightshift
    ∷ key_rightalt ∷ key_rightmeta ∷ []

-- bit `i` of a byte
unfoldable pub bit_at : ℕ → ℕ → Bool
bit_at i byte = byte / 2 ^ i % 2 == 1

abbrev or_sets : ℕ → ℕ → ℕ → Bool
or_sets x i j =
    eqb (bit_at j (bit_or x (2 ^ i))) (i == j || bit_at j x) && ltb (bit_or x (2 ^ i)) 256

or_table : all_below 256 (λ x. all_below 8 (λ i. all_below 8 (or_sets x i))) ≡ true
unfolding all_below bit_at
or_table = refl

or_bit_true : (x i j : ℕ) → x < 256 → i < 8 → j < 8 → or_sets x i j ≡ true
or_bit_true x i j hx hi hj =
    all_below_sound 8 (or_sets x i) j
      (all_below_sound 8 (λ i. all_below 8 (or_sets x i)) i
        (all_below_sound 256 (λ x. all_below 8 (λ i. all_below 8 (or_sets x i))) x or_table hx) hi)
      hj

&&-parts : (a b : Bool) → (a && b) ≡ true → (a ≡ true) × (b ≡ true)
&&-parts true true h = (refl, refl)
&&-parts true false h = cc
&&-parts false b h = cc

-- `|=` with one bit of a byte sets that bit and no other, and leaves a byte.
or_bit :
    (x i j : ℕ)
    → x < 256
    → i < 8
    → j < 8
    → (bit_at j (bit_or x (2 ^ i)) ≡ (i == j || bit_at j x)) × (bit_or x (2 ^ i) < 256)
or_bit x i j hx hi hj =
    let (same, small) = &&-parts _ (ltb (bit_or x (2 ^ i)) 256) (or_bit_true x i j hx hi hj) in
    (eqb→eq _ _ same, ltb→lt _ _ small)

-- the modifier of bit `i`
abbrev pub modifier : ℕ → Key
modifier i = get_or modifiers i (other 0)

modifier_table :
    all_below 8
      (λ i. all_below 8 (λ j. eqb (is_decided (Key-discrete (modifier i) (modifier j))) (i == j)))
    ≡ true
unfolding all_below Key-discrete
modifier_table = refl

keycode_to_mod_bit_inv :
    (code : Key) (b : ℕ)
    → keycode_to_mod_bit code ≡ some b
    → (i : ℕ) × (i < 8) × (b ≡ 2 ^ i) × (code ≡ modifier i)
unfolding keycode_to_mod_bit
keycode_to_mod_bit_inv key_leftctrl b e = (0, omega arith, ground arith, refl)
keycode_to_mod_bit_inv key_leftshift b e = (1, omega arith, ground arith, refl)
keycode_to_mod_bit_inv key_leftalt b e = (2, omega arith, ground arith, refl)
keycode_to_mod_bit_inv key_leftmeta b e = (3, omega arith, ground arith, refl)
keycode_to_mod_bit_inv key_rightctrl b e = (4, omega arith, ground arith, refl)
keycode_to_mod_bit_inv key_rightshift b e = (5, omega arith, ground arith, refl)
keycode_to_mod_bit_inv key_rightalt b e = (6, omega arith, ground arith, refl)
keycode_to_mod_bit_inv key_rightmeta b e = (7, omega arith, ground arith, refl)
keycode_to_mod_bit_inv _ b e = cc

modifier-discrete :
    (i j : ℕ) → i < 8 → j < 8 → is_decided (Key-discrete (modifier i) (modifier j)) ≡ (i == j)
modifier-discrete i j hi hj =
    eqb→eq _ _ (all_below_sound 8 _ j (all_below_sound 8 _ i modifier_table hi) hj)

-- The byte has a bit set exactly if it was set before or its modifier is held.
pub mod_byte-bits :
    (x : ℕ) (codes : List Key) (y : ℕ)
    → x < 256
    → mod_byte x codes ≡ some y
    → (y < 256)
      × ((j : ℕ) → j < 8 → bit_at j y ≡ (has Key-discrete codes (modifier j) || bit_at j x))
unfolding mod_byte
mod_byte-bits x [] y hx e = (ground arith, λ j hj. ground arith)
mod_byte-bits x (code ∷ codes) y hx e = elim (Option-cases (keycode_to_mod_bit code)) [
  | inl n ↦ absurd (ground arith)
  | inr (b, s) ↦
      let (i, hi, eb, ec) = keycode_to_mod_bit_inv code b s in
      let (small, bits) =
        mod_byte-bits (bit_or x b) codes y (rw eb (or_bit x i 0 hx hi (omega arith)).1)
          (ground arith) in
      (small, λ j hj. ground (arith, bits j hj, or_bit x i j hx hi hj, modifier-discrete i j hi hj))
]

abbrev pub IsModifier : Key → Type 0
IsModifier code = is_some (keycode_to_mod_bit code) ≡ true

-- Nothing but modifiers: no KeyError.
pub mod_byte-total :
    (x : ℕ) (codes : List Key) → All IsModifier codes → (y : ℕ) × (mod_byte x codes ≡ some y)
unfolding mod_byte
mod_byte-total x [] h = (x, refl)
mod_byte-total x (code ∷ codes) h = elim (Option-cases (keycode_to_mod_bit code)) [
  | inl n ↦ absurd (ground arith)
  | inr (b, s) ↦ let (y, e) = mod_byte-total (bit_or x b) codes h.1 in (y, ground arith)
]
