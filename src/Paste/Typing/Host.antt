-- ===== src/Paste/Typing/Host.antt =====
-- What the host that receives a paste types.
use toothkey.Base.{
  ℕ, ◌/◌, ◌%◌, ◌<◌, ◌≤◌, ◌≡◌, refl, Bool, true, false, ◌&&◌, ◌||◌, Option, none, some, List, [],
  ◌∷◌, ◌++◌, arith, if◌then◌else◌, ◌==◌, has, ℕ_discrete, All, Option-cases, all, ap, ◌∙◌, inl, inr,
  ltb, leb,
}
use toothkey.Evdev.Report.{rollover, pressed, host_view}
use toothkey.Paste.Chars.{Unicode, char_to_hid, convert_key_to_hid_usage_id, usage_id_map, lookup}
use toothkey.Paste.Chars.Layout.{us_layout, visible, typed_by, typed_by-char_to_hid}
use toothkey.Paste.Typing.{quiescent, press, type_text, paste_reports}

-- The characters of the usages that were not pressed before.
abbrev new_chars : List ℕ → List ℕ → Bool → List ℕ
new_chars before [] shift = []
new_chars before (u ∷ us) shift =
    let rest = new_chars before us shift in
    if has ℕ_discrete before u
    then rest
    else elim (us_layout u shift) [ none ↦ rest | some c ↦ c ∷ rest ]

-- the left and the right Shift bit of a modifier byte
abbrev shift_of : ℕ → Bool
shift_of byte = byte / 2 % 2 == 1 || (byte / 32 % 2 == 1)

-- A host with the US layout: each usage that is pressed and was not pressed in the report before
-- types its character, shifted if a Shift bit is set. A report that it cannot read is ignored.
unfoldable pub host_types : List ℕ → List (List ℕ) → List ℕ
host_types before [] = []
host_types before (r ∷ rs) =
    let same = host_types before rs in
    elim (host_view r) [
      | none ↦ same
      | some (byte, rollover) ↦ same
      | some (byte, pressed us) ↦
          let now = host_types us rs in new_chars before us (shift_of byte) ++ now
    ]

abbrev pub and_then : Option ℕ → List ℕ → List ℕ
and_then none rest = rest
and_then (some c) rest = c ∷ rest

-- The text as it should arrive: what is typed of each character, up to the first one at which
-- the grab is gone.
abbrev pub arrives : (ℕ → Option ℕ) → List (ℕ × Bool) → List ℕ
arrives of [] = []
arrives of ((c, grab_mode) ∷ text) =
    let rest = arrives of text in if grab_mode then and_then (of c) rest else []

-- Every usage that is chosen lies on a key that is neither 0 nor a rollover.
lookup_range :
    (c : ℕ) (m : List (ℕ × ℕ)) (usage : ℕ)
    → all (λ e. leb 4 e.1 && ltb e.1 57) m ≡ true
    → lookup c m ≡ some usage
    → (4 ≤ usage) × (usage < 57)
lookup_range c [] usage h e = cc
lookup_range c ((d, u) ∷ m) usage h e = ground (arith, lookup_range c m usage)

convert_range :
    (key : List ℕ) (usage : ℕ)
    → convert_key_to_hid_usage_id key ≡ some usage
    → (4 ≤ usage) × (usage < 57)
unfolding convert_key_to_hid_usage_id
convert_range [] usage e = cc
convert_range (c ∷ []) usage e = lookup_range c usage_id_map usage refl e
convert_range (c ∷ d ∷ cs) usage e = cc

char_to_hid-usage :
    (py : Unicode) (c usage : ℕ) (shift : Bool)
    → char_to_hid py c ≡ some (usage, shift)
    → (4 ≤ usage) × (usage < 57)
unfolding char_to_hid
char_to_hid-usage py c usage shift e =
    ground (arith, convert_range (if py.is_alpha c then py.lower c else c ∷ []) usage)

press-host_view :
    (usage : ℕ) (shift : Bool)
    → 4 ≤ usage
    → host_view (press usage shift) ≡ some ((if shift then 2 else 0), pressed (usage ∷ []))
unfolding host_view
press-host_view usage shift h = ground arith

quiescent-host_view : host_view quiescent ≡ some (0, pressed [])
unfolding host_view
quiescent-host_view = refl

host_types-quiescent : (rs : List (List ℕ)) → host_types [] (quiescent ∷ rs) ≡ host_types [] rs
unfolding host_types
host_types-quiescent rs = rw (quiescent-host_view, host_types)

-- One key: the character of its press, and nothing for the release.
host_types-press :
    (usage : ℕ) (shift : Bool) (rs : List (List ℕ))
    → 4 ≤ usage
    → host_types [] (press usage shift ∷ quiescent ∷ rs)
      ≡ and_then (us_layout usage shift) (host_types [] rs)
unfolding host_types
host_types-press usage true rs h = ground (arith, press-host_view usage true, quiescent-host_view)
host_types-press usage false rs h = ground (arith, press-host_view usage false, quiescent-host_view)

host_types-type_text :
    (py : Unicode) (text : List (ℕ × Bool))
    → host_types [] (type_text py text).reports ≡ arrives (λ c. typed_by (char_to_hid py c)) text
unfolding type_text
host_types-type_text py [] = unfold host_types in refl
host_types-type_text py ((c, false) ∷ text) = unfold host_types in refl
host_types-type_text py ((c, true) ∷ text) = elim (Option-cases (char_to_hid py c)) [
  | inl n ↦ rw (n, type_text) (host_types-type_text py text)
  | inr ((usage, shift), e) ↦
      rw (e, type_text)
        (host_types-press usage shift _ (char_to_hid-usage py c usage shift e).0
          ∙ ap (and_then (us_layout usage shift)) (host_types-type_text py text))
]

arrives-ext :
    (f g : ℕ → Option ℕ) (text : List (ℕ × Bool))
    → All (λ e. f e.0 ≡ g e.0) text
    → arrives f text ≡ arrives g text
arrives-ext f g [] h = refl
arrives-ext f g ((c, b) ∷ text) h = ground (arith, arrives-ext f g text h.1)

All-typed :
    (py : Unicode) (text : List (ℕ × Bool))
    → All (λ e. e.0 < 128) text
    → All (λ e. typed_by (char_to_hid py e.0) ≡ visible e.0) text
All-typed py [] h = tt
All-typed py ((c, b) ∷ text) h = (typed_by-char_to_hid py c h.0, All-typed py text h.1)

-- Pasting an ASCII text, a host with no key pressed types its printable characters, tabs and line
-- breaks, in order and nothing else, up to the character at which the grab is gone.
pub host_types-paste_reports :
    (py : Unicode) (text : List (ℕ × Bool))
    → All (λ e. e.0 < 128) text
    → host_types [] (paste_reports py (some text)) ≡ arrives visible text
unfolding paste_reports
host_types-paste_reports py [] h = unfold host_types in refl
host_types-paste_reports py (e ∷ text) h =
    let body = host_types-type_text py (e ∷ text) in
    let same =
      arrives-ext (λ c. typed_by (char_to_hid py c)) visible (e ∷ text)
        (All-typed py (e ∷ text) h) in
    host_types-quiescent _ ∙ body ∙ same
