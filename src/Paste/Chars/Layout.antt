-- ===== src/Paste/Chars/Layout.antt =====
-- What the keys of `_char_to_hid` print on a host with the US layout.
use toothkey.Base.{
  ℕ, ◌+◌, ◌≡◌, ◌<◌, refl, Bool, true, false, ◌||◌, Option, none, some, List, [], ◌∷◌, arith,
  if◌then◌else◌, ◌==◌, get_or, all_below, all_below_sound, ℕ_discrete,
}
use toothkey.Paste.Chars.{
  Unicode, char_to_hid, convert_key_to_hid_usage_id, is_shifted, is_upper, between,
}

-- The characters on the keys of the US layout, plain and shifted, by usage (HID Usage Tables,
-- page 0x07); 0 for a usage that prints nothing.
us_keys : List (ℕ × ℕ)
us_keys =
    (0, 0)
    ∷ (0, 0)
    ∷ (0, 0)
    ∷ (0, 0)
    ∷ (97, 65)
    ∷ (98, 66)
    ∷ (99, 67)
    ∷ (100, 68)
    ∷ (101, 69)
    ∷ (102, 70)
    ∷ (103, 71)
    ∷ (104, 72)
    ∷ (105, 73)
    ∷ (106, 74)
    ∷ (107, 75)
    ∷ (108, 76)
    ∷ (109, 77)
    ∷ (110, 78)
    ∷ (111, 79)
    ∷ (112, 80)
    ∷ (113, 81)
    ∷ (114, 82)
    ∷ (115, 83)
    ∷ (116, 84)
    ∷ (117, 85)
    ∷ (118, 86)
    ∷ (119, 87)
    ∷ (120, 88)
    ∷ (121, 89)
    ∷ (122, 90)
    ∷ (49, 33)
    ∷ (50, 64)
    ∷ (51, 35)
    ∷ (52, 36)
    ∷ (53, 37)
    ∷ (54, 94)
    ∷ (55, 38)
    ∷ (56, 42)
    ∷ (57, 40)
    ∷ (48, 41)
    ∷ (10, 10)
    ∷ (0, 0)
    ∷ (0, 0)
    ∷ (9, 9)
    ∷ (32, 32)
    ∷ (45, 95)
    ∷ (61, 43)
    ∷ (91, 123)
    ∷ (93, 125)
    ∷ (92, 124)
    ∷ (0, 0)
    ∷ (59, 58)
    ∷ (39, 34)
    ∷ (96, 126)
    ∷ (44, 60)
    ∷ (46, 62)
    ∷ (47, 63)
    ∷ []

-- What the host types for a usage, with or without Shift.
unfoldable pub us_layout : ℕ → Bool → Option ℕ
unfolding us_keys
us_layout usage shift =
    let (plain, shifted) = get_or us_keys usage (0, 0) in
    let c = if shift then shifted else plain in if c == 0 then none else some c

-- The characters that can be typed, a carriage return being typed as a line feed.
abbrev pub visible : ℕ → Option ℕ
visible c =
    if c == b'\r'
    then some b'\n'
    else if between b' ' b'~' c || c == b'\n' || c == b'\t'
    then some c
    else none

-- What the host types for the key that was chosen.
abbrev pub typed_by : Option (ℕ × Bool) → Option ℕ
typed_by none = none
typed_by (some (usage, shift)) = us_layout usage shift

-- the database cut down to ASCII
abbrev pub ascii : Unicode
ascii = record {
  is_alpha = λ c. is_upper c || between b'a' b'z' c;
  lower = λ c. (if is_upper c then c + 32 else c) ∷ [];
  is_alpha_ascii = λ c h. refl;
  lower_ascii = λ c h. refl;
}

char_to_hid-ascii : (py : Unicode) (c : ℕ) → c < 128 → char_to_hid py c ≡ char_to_hid ascii c
unfolding char_to_hid
char_to_hid-ascii py c h = rw (py.is_alpha_ascii c h, py.lower_ascii c h)

abbrev eq_option : Option ℕ → Option ℕ → Bool
eq_option none none = true
eq_option (some a) (some b) = a == b
eq_option _ _ = false

eq_option→eq : (a b : Option ℕ) → eq_option a b ≡ true → a ≡ b
eq_option→eq none none h = refl
eq_option→eq (some a) (some b) h = ground arith
eq_option→eq none (some b) h = cc
eq_option→eq (some a) none h = cc

typed_table : all_below 128 (λ c. eq_option (typed_by (char_to_hid ascii c)) (visible c)) ≡ true
unfolding all_below char_to_hid convert_key_to_hid_usage_id is_shifted us_layout ℕ_discrete
typed_table = refl

-- For every ASCII character the key chosen is the one that types it on a US layout (a line feed
-- for a carriage return), and the control characters but tab and the line breaks have none.
pub typed_by-char_to_hid :
    (py : Unicode) (c : ℕ) → c < 128 → typed_by (char_to_hid py c) ≡ visible c
typed_by-char_to_hid py c h =
    rw (char_to_hid-ascii py c h) (eq_option→eq _ _ (all_below_sound 128 _ c typed_table h))
