-- ===== src/Adapter/Pollution.antt =====
-- _adapter_pollution_reasons and _attribute_pollution: why the adapter looks like more than a
-- keyboard, as the lines that are printed, and who is answerable for it.
pub mod Attributed
use Prim.Native.String.{String}
use toothkey.Base.{
  ℕ, zero, suc, ◌+◌, ◌*◌, ◌-◌, ◌/◌, ◌%◌, Bool, true, false, not, ◌&&◌, ◌||◌, List, [], ◌∷◌, ◌++◌,
  map, is_empty, any, if◌then◌else◌, ltb, ◌==◌, Text, text, one_of, same_text, contains,
  starts_with,
}
use toothkey.Adapter.Uuids.{
  uuid_to_short, is_forbidden, uuid_owners, uuid_tags, tag_or, Owner, obexd, pipewire,
}

-- `', '.join(parts)` and its like
abbrev pub join : Text → List Text → Text
join sep [] = []
join sep (part ∷ []) = part
join sep (part ∷ next ∷ parts) = part ++ (sep ++ join sep (next ∷ parts))

-- `s < t` for texts
abbrev pub before : Text → Text → Bool
before s [] = false
before [] (d ∷ t) = true
before (c ∷ s) (d ∷ t) = ltb c d || (c == d && before s t)

-- a text put into a sorted list without repetitions, and `sorted({...})`
abbrev pub insert : Text → List Text → List Text
insert s [] = s ∷ []
insert s (t ∷ ts) =
    let rest = insert s ts in
    if same_text s t then t ∷ ts else if before s t then s ∷ t ∷ ts else t ∷ rest

abbrev pub sorted_set : List Text → List Text
sorted_set [] = []
sorted_set (s ∷ ss) = insert s (sorted_set ss)

-- the names of `_decode_service_class_bits`, from the lowest bit on
abbrev pub service_classes : List (ℕ × Text)
service_classes =
    (1, text "LimitedDiscoverable")
    ∷ (2, text "LEAudio")
    ∷ (4, text "Reserved")
    ∷ (8, text "Positioning")
    ∷ (16, text "Networking")
    ∷ (32, text "Rendering")
    ∷ (64, text "Capturing")
    ∷ (128, text "ObjectTransfer")
    ∷ (256, text "Audio")
    ∷ (512, text "Telephony")
    ∷ (1024, text "Information")
    ∷ []

-- `[n for mask, n in names if bits & mask]`, for masks of one bit
abbrev pub set_names : ℕ → List (ℕ × Text) → List Text
set_names bits [] = []
set_names bits ((mask, name) ∷ names) =
    let rest = set_names bits names in if bits / mask % 2 == 1 then name ∷ rest else rest

-- `_decode_service_class_bits`
unfoldable pub decode_service_class_bits : ℕ → Text
decode_service_class_bits bits =
    let names = set_names bits service_classes in
    if is_empty names then text "<none>" else join (text ", ") names

-- `(cod >> 13) & 0x7FF`, and `& ~_COD_SERVICE_BITS_BENIGN`
abbrev pub service_bits : ℕ → ℕ
service_bits cod = cod / 8192 % 2048

abbrev pub bad_service_bits : ℕ → ℕ
bad_service_bits cod = service_bits cod - service_bits cod % 2

abbrev pub hex_digit : ℕ → ℕ
hex_digit n = if ltb n 10 then 48 + n else 87 + n

-- `f'{n:03x}'`, for n below 4096
abbrev pub hex3 : ℕ → Text
hex3 n = hex_digit (n / 256 % 16) ∷ hex_digit (n / 16 % 16) ∷ hex_digit (n % 16) ∷ []

-- what the reads of the two properties do: an exception has a text
pub data Reading : Type 0 where
  no_class : Text → Reading
  no_uuids : ℕ → Text → Reading
  props : ℕ → List Text → Reading

abbrev pub class_reason : ℕ → Text
class_reason cod =
    text "CoD service bits 0x"
    ++ (hex3 (bad_service_bits cod)
        ++ (text " [" ++ (decode_service_class_bits (bad_service_bits cod) ++ text "]")))

abbrev pub class_reasons : ℕ → List Text
class_reasons cod = if bad_service_bits cod == 0 then [] else class_reason cod ∷ []

-- the set comprehension of the shorts that are forbidden
abbrev pub forbidden_of : List Text → List Text
forbidden_of [] = []
forbidden_of (u ∷ us) =
    let rest = forbidden_of us in
    if is_forbidden (uuid_to_short u) then uuid_to_short u ∷ rest else rest

-- `f'{s} ({_UUID_TAGS.get(s, "?")})'`
abbrev pub tagged : Text → Text
tagged s = s ++ (text " (" ++ (tag_or uuid_tags s (text "?") ++ text ")"))

abbrev pub uuid_reasons : List Text → List Text
uuid_reasons forbidden =
    if is_empty forbidden
    then []
    else (text "forbidden adapter UUIDs: " ++ join (text ", ") (map tagged forbidden)) ∷ []

abbrev pub unreadable_reasons : Text → List Text
unreadable_reasons e = (text "could not read adapter state: " ++ e) ∷ []

-- `_adapter_pollution_reasons`
unfoldable pub adapter_pollution_reasons : Reading → List Text
adapter_pollution_reasons (no_class e) = unreadable_reasons e
adapter_pollution_reasons (no_uuids cod e) = class_reasons cod ++ unreadable_reasons e
adapter_pollution_reasons (props cod uuids) =
    class_reasons cod ++ uuid_reasons (sorted_set (forbidden_of uuids))

abbrev pub same_owner : Owner → Owner → Bool
same_owner obexd obexd = true
same_owner pipewire pipewire = true
same_owner obexd pipewire = false
same_owner pipewire obexd = false

-- whether the loop over `_UUID_OWNERS` adds the owner to the set
abbrev pub found : Owner → Text → List (Text × Owner) → Bool
found o blob [] = false
found o blob ((short, owner) ∷ more) =
    (same_owner o owner && contains short blob) || found o blob more

unfoldable pub is_owner : Owner → Text → Bool
is_owner o blob = found o blob uuid_owners

-- `_attribute_pollution`, up to the rest of its sentences
unfoldable pub attribute_pollution : List Text → Text
unfolding is_owner
attribute_pollution reasons =
    let blob = join (text " ") reasons in
    let by_obexd : Bool = is_owner obexd blob in
    let by_pipewire : Bool = is_owner pipewire blob in
    if by_pipewire
    then (if by_obexd then text "owner: PipeWire and obexd." else text "owner: PipeWire.")
    else if by_obexd
    then text "owner: obexd,"
    else []

-- `_attribute_pollution(post_pollution).startswith('owner: obexd')`: whether initialize takes the
-- HID profile down and registers it again
unfoldable pub reregisters : List Text → Bool
unfolding attribute_pollution
reregisters reasons =
    not (is_empty reasons) && starts_with (text "owner: obexd") (attribute_pollution reasons)
