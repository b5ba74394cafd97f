-- ===== src/Paste/Chars.antt =====
-- keyboard_handler.py, _char_to_hid: which key types a character. Characters are code points.
pub mod Layout
pub mod Beyond
use toothkey.Base.{
  ℕ, ◌+◌, ◌≡◌, ◌<◌, Bool, true, false, ◌&&◌, ◌||◌, Option, none, some, List, [], ◌∷◌, if◌then◌else◌,
  ◌==◌, leb, ltb, has, ℕ_discrete,
}

-- The entries of keyboard_hid_usage_id_map.json whose key is one character. (The others, such as
-- "enter", name keys; `_char_to_hid` looks up what one character lower-cases to.)
abbrev pub usage_id_map : List (ℕ × ℕ)
usage_id_map =
    (97, 4)
    ∷ (98, 5)
    ∷ (99, 6)
    ∷ (100, 7)
    ∷ (101, 8)
    ∷ (102, 9)
    ∷ (103, 10)
    ∷ (104, 11)
    ∷ (105, 12)
    ∷ (106, 13)
    ∷ (107, 14)
    ∷ (108, 15)
    ∷ (109, 16)
    ∷ (110, 17)
    ∷ (111, 18)
    ∷ (112, 19)
    ∷ (113, 20)
    ∷ (114, 21)
    ∷ (115, 22)
    ∷ (116, 23)
    ∷ (117, 24)
    ∷ (118, 25)
    ∷ (119, 26)
    ∷ (120, 27)
    ∷ (121, 28)
    ∷ (122, 29)
    ∷ (49, 30)
    ∷ (33, 30)
    ∷ (50, 31)
    ∷ (64, 31)
    ∷ (51, 32)
    ∷ (35, 32)
    ∷ (52, 33)
    ∷ (36, 33)
    ∷ (53, 34)
    ∷ (37, 34)
    ∷ (54, 35)
    ∷ (94, 35)
    ∷ (55, 36)
    ∷ (38, 36)
    ∷ (56, 37)
    ∷ (42, 37)
    ∷ (57, 38)
    ∷ (40, 38)
    ∷ (48, 39)
    ∷ (41, 39)
    ∷ (45, 45)
    ∷ (95, 45)
    ∷ (61, 46)
    ∷ (43, 46)
    ∷ (91, 47)
    ∷ (123, 47)
    ∷ (93, 48)
    ∷ (125, 48)
    ∷ (92, 49)
    ∷ (124, 49)
    ∷ (59, 51)
    ∷ (58, 51)
    ∷ (39, 52)
    ∷ (34, 52)
    ∷ (96, 53)
    ∷ (126, 53)
    ∷ (44, 54)
    ∷ (60, 54)
    ∷ (46, 55)
    ∷ (62, 55)
    ∷ (47, 56)
    ∷ (63, 56)
    ∷ []

-- `_SHIFTED_PRINTABLE_CHARS`
abbrev pub shifted_printable_chars : List ℕ
shifted_printable_chars =
    33 ∷ 34 ∷ 35 ∷ 36 ∷ 37 ∷ 38 ∷ 40 ∷ 41 ∷ 42 ∷ 43 ∷ 58 ∷ 60 ∷ 62 ∷ 63 ∷ 64 ∷ 65 ∷ 66 ∷ 67 ∷ 68
    ∷ 69 ∷ 70 ∷ 71 ∷ 72 ∷ 73 ∷ 74 ∷ 75 ∷ 76 ∷ 77 ∷ 78 ∷ 79 ∷ 80 ∷ 81 ∷ 82 ∷ 83 ∷ 84 ∷ 85 ∷ 86 ∷ 87
    ∷ 88 ∷ 89 ∷ 90 ∷ 94 ∷ 95 ∷ 123 ∷ 124 ∷ 125 ∷ 126 ∷ []

abbrev pub lookup : ℕ → List (ℕ × ℕ) → Option ℕ
lookup c [] = none
lookup c ((d, u) ∷ m) = if d == c then some u else lookup c m

-- `ToothkeyKeyboardMap.get`, of a text that `str.lower` gave
unfoldable pub convert_key_to_hid_usage_id : List ℕ → Option ℕ
convert_key_to_hid_usage_id [] = none
convert_key_to_hid_usage_id (c ∷ []) = lookup c usage_id_map
convert_key_to_hid_usage_id (c ∷ d ∷ cs) = none

unfoldable pub is_shifted : ℕ → Bool
is_shifted c = has ℕ_discrete shifted_printable_chars c

abbrev pub between : ℕ → ℕ → ℕ → Bool
between lo hi c = leb lo c && leb c hi

abbrev pub is_upper : ℕ → Bool
is_upper = between b'A' b'Z'

-- Python's `str.isalpha` and `str.lower` of one character, as documented for ASCII; beyond it they
-- follow the Unicode database, of which nothing is assumed.
pub record Unicode : Type 0 where
  pub is_alpha : ℕ → Bool
  pub lower : ℕ → List ℕ
  pub is_alpha_ascii : (c : ℕ) → c < 128 → is_alpha c ≡ (is_upper c || between b'a' b'z' c)
  pub lower_ascii : (c : ℕ) → c < 128 → lower c ≡ (if is_upper c then c + 32 else c) ∷ []

-- `_char_to_hid`: the usage, and whether Shift is needed
unfoldable pub char_to_hid : Unicode → ℕ → Option (ℕ × Bool)
char_to_hid py c =
    let key = if py.is_alpha c then py.lower c else c ∷ [] in
    if c == b'\n' || c == b'\r'
    then some (40, false)
    else if c == b'\t'
    then some (43, false)
    else if c == b' '
    then some (44, false)
    else elim (convert_key_to_hid_usage_id key) [
      | none ↦ none
      | some usage ↦ some (usage, is_shifted c)
    ]
