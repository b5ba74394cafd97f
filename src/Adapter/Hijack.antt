-- ===== src/Adapter/Hijack.antt =====
-- _reconnect_uuids_setting and _check_call_audio_hijack_risk: whether a phone's call could come to
-- this machine, and _adapter_uuid_shorts, which they are asked about.
use toothkey.Base.{
  Bool, not, ◌&&◌, Option, none, some, List, [], ◌∷◌, ◌++◌, is_empty, if◌then◌else◌, ◌==◌, Text,
  text, strip, starts_with, without,
}
use toothkey.Adapter.Uuids.{uuid_to_short, is_call_audio}
use toothkey.Adapter.Pollution.{sorted_set}

-- the lines of main.conf, or the `OSError` of reading it, or the lines up to where its text is not
-- UTF-8, which raises
pub data Conf : Type 0 where
  os_error : Conf
  lines undecodable : List Text → Conf

-- `stripped.split('=', 1)[1]`, where there is a `=`
abbrev pub after_equals : Text → Text
after_equals [] = []
after_equals (c ∷ s) = let rest = after_equals s in if c == 61 then s else rest

-- whether the line sets ReconnectUUIDs, and what it sets it to
unfoldable pub sets_reconnect : Text → Bool
sets_reconnect line =
    let stripped = strip line in
    not (starts_with (text "#") stripped)
    && starts_with (text "ReconnectUUIDs=") (without 32 stripped)

unfoldable pub setting_of : Text → Text
setting_of line = strip (after_equals (strip line))

-- the loop over the lines
abbrev pub first_setting : List Text → Option Text
first_setting [] = none
first_setting (line ∷ more) =
    let rest = first_setting more in if sets_reconnect line then some (setting_of line) else rest

-- `_reconnect_uuids_setting`; `none` is the UnicodeDecodeError, which is no OSError and not caught
unfoldable pub reconnect_uuids_setting : Conf → Option (Option Text)
reconnect_uuids_setting os_error = some none
reconnect_uuids_setting (lines ls) = some (first_setting ls)
reconnect_uuids_setting (undecodable ls) = elim (first_setting ls) [
  | none ↦ none
  | some set ↦ some (some set)
]

-- `_adapter_uuid_shorts`, whose read may fail
unfoldable pub adapter_uuid_shorts : Option (List Text) → List Text
adapter_uuid_shorts none = []
adapter_uuid_shorts (some []) = []
adapter_uuid_shorts (some (u ∷ us)) =
    let rest = adapter_uuid_shorts (some us) in
    if is_empty (uuid_to_short u) then rest else uuid_to_short u ∷ rest

-- the problems that are reported
pub data Problem : Type 0 where
  offers : List Text → Problem
  default_reconnect : Problem
  reconnects : Text → Problem

-- `set(shorts) & _CALL_AUDIO_UUID_SHORTS`
abbrev pub call_audio_of : List Text → List Text
call_audio_of [] = []
call_audio_of (s ∷ ss) = let rest = call_audio_of ss in if is_call_audio s then s ∷ rest else rest

abbrev pub offer_problems : List Text → List Problem
offer_problems offered = if is_empty offered then [] else offers offered ∷ []

abbrev pub reconnect_problems : Option Text → List Problem
reconnect_problems none = default_reconnect ∷ []
reconnect_problems (some v) = if is_empty v then [] else reconnects v ∷ []

-- `_check_call_audio_hijack_risk`; `none` where it raises
unfoldable pub check_call_audio_hijack_risk : List Text → Conf → Option (List Problem)
unfolding reconnect_uuids_setting
check_call_audio_hijack_risk shorts conf = elim (reconnect_uuids_setting conf) [
  | none ↦ none
  | some set ↦ some (offer_problems (sorted_set (call_audio_of shorts)) ++ reconnect_problems set)
]
