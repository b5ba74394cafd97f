-- ===== src/Bluetooth/Peer/Tests.antt =====
-- Tests of what is known of the peer.
use toothkey.Base.{◌≡◌, refl, true, false, none, some, List, [], ◌∷◌, Text, text}
use toothkey.Bluetooth.Peer.{
  Lookup, value, dbus_error, other_error, Turn, resolve_display_name, name_refresh,
  is_interesting_path, device_path, load_client_mac_address_cache,
}

abbrev phone : Text
phone = text "AA:BB:CC:DD:EE:FF"

-- no name yet, so BlueZ gives the address as alias
abbrev early : Lookup
early = record { bus = true; object = true; name = dbus_error; alias = value phone }

abbrev late : Lookup
late = record { bus = true; object = true; name = value (text "smartnix"); alias = value phone }

no_name_yet : resolve_display_name phone early ≡ phone
unfolding resolve_display_name
no_name_yet = refl

broken_name : resolve_display_name phone (record late { name = other_error }) ≡ phone
unfolding resolve_display_name
broken_name = refl

abbrev turns : List Turn
turns =
    record { gone = false; client_mac = phone; looked_up = early }
    ∷ record { gone = false; client_mac = phone; looked_up = late }
    ∷ []

name_comes : name_refresh phone turns ≡ some (text "smartnix")
unfolding name_refresh
name_comes = refl

path_of_phone : device_path phone ≡ text "/org/bluez/hci0/dev_AA_BB_CC_DD_EE_FF"
unfolding device_path
path_of_phone = refl

bystander : is_interesting_path phone [] (text "/org/bluez/hci0/dev_11_22_33_44_55_66") ≡ false
unfolding is_interesting_path
bystander = refl

-- an empty cache file gives an empty address, which counts as none
empty_cache : load_client_mac_address_cache (some []) none ≡ some []
unfolding load_client_mac_address_cache
empty_cache = refl
