-- ===== src/Bluetooth/Peer.antt =====
-- What is known of the peer: its D-Bus path, its name, and the address that is kept on disk.
pub mod Named
pub mod Cached
mod Tests
use Prim.Native.String.{String}
use toothkey.Base.{
  ℕ, Bool, true, false, not, ◌&&◌, ◌||◌, Option, none, some, List, [], ◌∷◌, ◌++◌, is_empty,
  if◌then◌else◌, ◌==◌, map, Text, text, same_text, ends_with, strip, any,
}

-- `mac_address.replace(":", "_")`
abbrev pub underscore : ℕ → ℕ
underscore c = if c == 58 then 95 else c

abbrev pub underscored : Text → Text
underscored mac = map underscore mac

-- the path of a peer's object
unfoldable pub device_path : Text → Text
device_path mac = text "/org/bluez/hci0/dev_" ++ underscored mac

-- `_is_interesting_path`; a path or an address that is None is empty
abbrev pub is_path_of : Text → Text → Bool
is_path_of path mac = not (is_empty mac) && ends_with (underscored mac) path

unfoldable pub is_interesting_path : Text → Text → Text → Bool
is_interesting_path client_mac paused_mac path =
    not (is_empty path) && (is_path_of path client_mac || is_path_of path paused_mac)

-- what the read of a property does: a D-Bus exception, another one, or a text
pub data Property : Type 0 where
  dbus_error : Property
  other_error : Property
  value : Text → Property

-- the lookup of a name: whether there is a bus, whether the object is there, and its two properties
pub record Lookup : Type 0 where
  pub bus : Bool
  pub object : Bool
  pub name : Property
  pub alias : Property

abbrev pub or_else : Property → Text → Text → Text
or_else dbus_error mac next = next
or_else other_error mac next = mac
or_else (value []) mac next = next
or_else (value (c ∷ s)) mac next = c ∷ s

-- `_resolve_display_name`
unfoldable pub resolve_display_name : Text → Lookup → Text
resolve_display_name mac l =
    if is_empty mac
    then []
    else if not l.bus
    then mac
    else if not l.object
    then mac
    else or_else l.name mac (or_else l.alias mac mac)

-- a turn of the thread of `_start_name_refresh`: whether the peer went away during the wait, the
-- address of the session, and the lookup
pub record Turn : Type 0 where
  pub gone : Bool
  pub client_mac : Text
  pub looked_up : Lookup

-- one turn: whether the peer went away, whether the session is still this peer's, the name, and
-- what the turns that follow set
unfoldable pub name_turn : Text → Bool → Bool → Text → Option Text → Option Text
name_turn mac true current name rest = none
name_turn mac false false name rest = none
name_turn mac false true name rest =
    if not (is_empty name) && not (same_text name mac) then some name else rest

-- the thread, whose four turns are a list: the name that it sets, if it does
unfoldable pub name_refresh : Text → List Turn → Option Text
unfolding resolve_display_name name_turn
name_refresh mac [] = none
name_refresh mac (t ∷ turns) =
    name_turn mac (t.gone) (same_text (t.client_mac) mac) (resolve_display_name mac (t.looked_up))
      (name_refresh mac turns)

-- `load_client_mac_address_cache` over the file's text, if it can be read, and what was known
abbrev pub first_line : Text → Text
first_line [] = []
first_line (c ∷ s) = let rest = first_line s in if c == 10 then [] else c ∷ rest

unfoldable pub load_client_mac_address_cache : Option Text → Option Text → Option Text
load_client_mac_address_cache none known = known
load_client_mac_address_cache (some file) known = some (strip (first_line file))

-- `save_client_mac_address_cache`: the text of the file
unfoldable pub save_client_mac_address_cache : Text → Text
save_client_mac_address_cache mac = mac
