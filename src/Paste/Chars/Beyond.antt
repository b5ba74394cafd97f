-- ===== src/Paste/Chars/Beyond.antt =====
-- Characters beyond ASCII: which of them `_char_to_hid` types after all.
use toothkey.Base.{
  ℕ, ◌≡◌, ◌≤◌, ◌↔◌, refl, Bool, true, false, none, some, List, [], ◌∷◌, arith, has, ℕ_discrete, all,
  ltb,
}
use toothkey.Paste.Chars.{
  Unicode, char_to_hid, convert_key_to_hid_usage_id, is_shifted, usage_id_map,
  shifted_printable_chars, lookup,
}

lookup-none :
    (c : ℕ) (m : List (ℕ × ℕ)) → all (λ e. ltb e.0 128) m ≡ true → 128 ≤ c → lookup c m ≡ none
lookup-none c [] h b = refl
lookup-none c ((d, u) ∷ m) h b = ground (arith, lookup-none c m)

has-none :
    (c : ℕ) (xs : List ℕ) → all (λ x. ltb x 128) xs ≡ true → 128 ≤ c → has ℕ_discrete xs c ≡ false
has-none c [] h b = refl
has-none c (x ∷ xs) h b = ground (arith, has-none c xs)

convert-beyond : (c : ℕ) → 128 ≤ c → convert_key_to_hid_usage_id (c ∷ []) ≡ none
unfolding convert_key_to_hid_usage_id
convert-beyond c b = lookup-none c usage_id_map refl b

is_shifted-beyond : (c : ℕ) → 128 ≤ c → is_shifted c ≡ false
unfolding is_shifted
is_shifted-beyond c b = has-none c shifted_printable_chars refl b

-- A character beyond ASCII is typed exactly if it is a letter whose lower case is a key of the
-- map: then as that key, without Shift.
pub char_to_hid-beyond :
    (py : Unicode) (c : ℕ) (usage : ℕ) (shift : Bool)
    → 128 ≤ c
    → (char_to_hid py c ≡ some (usage, shift)) ↔ (
        (py.is_alpha c ≡ true)
        × (convert_key_to_hid_usage_id (py.lower c) ≡ some usage)
        × (shift ≡ false))
unfolding char_to_hid
char_to_hid-beyond py c usage shift b = (
  λ e. ground (arith, convert-beyond c b, is_shifted-beyond c b),
  λ e. ground (arith, is_shifted-beyond c b),
)
