-- ===== src/Adapter/Uuids.antt =====
-- The UUIDs that the adapter advertises: their short forms, and the tables that are looked up by them.
use toothkey.Base.{
  Bool, ◌&&◌, List, [], ◌∷◌, ◌++◌, map, length, take, drop, if◌then◌else◌, ◌==◌, Text, text, lower,
  ends_with, one_of, same_text,
}

-- the part that every UUID of the Bluetooth base range ends in
abbrev pub base_suffix : Text
base_suffix = text "-0000-1000-8000-00805f9b34fb"

-- `_uuid_to_short`; the empty text for any other UUID
unfoldable pub uuid_to_short : Text → Text
uuid_to_short uuid =
    let s = lower uuid in
    if (length s == 36) && ends_with base_suffix s then text "0x" ++ take 4 (drop 4 s) else []

-- `_FORBIDDEN_ADAPTER_UUID_SHORTS`
abbrev pub forbidden_shorts : List Text
forbidden_shorts = map text (
    "0x1105" ∷ "0x1106" ∷ "0x1108" ∷ "0x110a" ∷ "0x110b" ∷ "0x110c" ∷ "0x110e" ∷ "0x110f" ∷ "0x1112"
    ∷ "0x111e" ∷ "0x111f" ∷ "0x1130" ∷ "0x1132" ∷ "0x1133" ∷ "0x112f" ∷ [])

-- `short in _FORBIDDEN_ADAPTER_UUID_SHORTS`
unfoldable pub is_forbidden : Text → Bool
is_forbidden short = one_of forbidden_shorts short

-- `_CALL_AUDIO_UUID_SHORTS`
abbrev pub call_audio_shorts : List Text
call_audio_shorts = map text ("0x1108" ∷ "0x1112" ∷ "0x111e" ∷ "0x111f" ∷ [])

unfoldable pub is_call_audio : Text → Bool
is_call_audio short = one_of call_audio_shorts short

-- the processes that `_UUID_OWNERS` names
pub data Owner : Type 0 where
  obexd : Owner
  pipewire : Owner

-- `_UUID_OWNERS`
abbrev pub uuid_owners : List (Text × Owner)
uuid_owners =
    (text "0x1105", obexd)
    ∷ (text "0x1106", obexd)
    ∷ (text "0x1130", obexd)
    ∷ (text "0x1132", obexd)
    ∷ (text "0x1133", obexd)
    ∷ (text "0x112f", obexd)
    ∷ (text "0x1108", pipewire)
    ∷ (text "0x110a", pipewire)
    ∷ (text "0x110b", pipewire)
    ∷ (text "0x110c", pipewire)
    ∷ (text "0x110e", pipewire)
    ∷ (text "0x110f", pipewire)
    ∷ (text "0x1112", pipewire)
    ∷ (text "0x111e", pipewire)
    ∷ (text "0x111f", pipewire)
    ∷ []

-- `_UUID_TAGS`
abbrev pub uuid_tags : List (Text × Text)
uuid_tags =
    (text "0x1000", text "ServiceDiscoveryServer")
    ∷ (text "0x1001", text "BrowseGroupDescriptor")
    ∷ (text "0x1002", text "PublicBrowseGroup")
    ∷ (text "0x1101", text "SerialPort")
    ∷ (text "0x1105", text "OBEXObjectPush")
    ∷ (text "0x1106", text "OBEXFileTransfer")
    ∷ (text "0x1108", text "Headset")
    ∷ (text "0x110a", text "AudioSource")
    ∷ (text "0x110b", text "AudioSink")
    ∷ (text "0x110c", text "AVRCPTarget")
    ∷ (text "0x110d", text "A2DPProfile")
    ∷ (text "0x110e", text "AVRCPRemote")
    ∷ (text "0x110f", text "AVRCPController")
    ∷ (text "0x1112", text "HeadsetAudioGateway")
    ∷ (text "0x111e", text "Handsfree")
    ∷ (text "0x111f", text "HandsfreeAudioGateway")
    ∷ (text "0x1124", text "HID")
    ∷ (text "0x112f", text "PhonebookAccessServer")
    ∷ (text "0x1130", text "PhonebookAccessPSE")
    ∷ (text "0x1132", text "MessageAccessServer")
    ∷ (text "0x1133", text "MessageNotificationServer")
    ∷ (text "0x1200", text "PnPInformation")
    ∷ (text "0x1800", text "GenericAccess")
    ∷ (text "0x1801", text "GenericAttribute")
    ∷ (text "0x180a", text "DeviceInformation")
    ∷ (text "0x180f", text "BatteryService")
    ∷ []

-- `_UUID_TAGS.get(short, default)`
abbrev pub tag_or : List (Text × Text) → Text → Text → Text
tag_or [] short default = default
tag_or ((s, t) ∷ more) short default = if same_text s short then t else tag_or more short default

-- `_uuid_tag`
unfoldable pub uuid_tag : Text → Text
unfolding uuid_to_short
uuid_tag uuid = tag_or uuid_tags (uuid_to_short uuid) []
