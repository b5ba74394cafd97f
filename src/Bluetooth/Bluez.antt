-- ===== src/Bluetooth/Bluez.antt =====
-- bluetooth_handler.py: the short calls of BlueZ and of the programs that the watchdog and the set-up
-- use. What BlueZ and the programs answer is given; an answer that raises is `none`.
pub mod First
use toothkey.Base.{
  ℕ, Bool, true, false, not, ◌&&◌, ◌||◌, Option, none, some, List, [], ◌∷◌, ◌++◌, if◌then◌else◌,
}

-- `bool(...)` of a property, False where it cannot be read
abbrev pub or_false : Option Bool → Bool
or_false none = false
or_false (some b) = b

-- `_is_adapter_powered`, by whether there is a bus and an adapter path
unfoldable pub is_adapter_powered : Bool → Bool → Option Bool → Bool
is_adapter_powered bus path powered = if not bus || not path then false else or_false powered

-- `_peer_acl_connected`, by whether there is a bus and an address
unfoldable pub peer_acl_connected : Bool → Bool → Option Bool → Bool
peer_acl_connected bus addressed connected =
    if not bus || not addressed then false else or_false connected

-- how a Disconnect ends: done, as BlueZ says because the peer is not connected, with another error
pub data Dropped : Type 0 where
  done not_connected other_error : Dropped

-- `_force_peer_acl_down`: whether it asks BlueZ at all, and whether it logs an error
unfoldable pub force_peer_acl_down : Bool → Bool → Dropped → Bool × Bool
force_peer_acl_down bus addressed end =
    if not bus || not addressed
    then (false, false)
    else (true, elim end [ done ↦ false | not_connected ↦ false | other_error ↦ true ])

-- `find_adapter` over the paths of the managed objects, each with its address if it is an adapter
unfoldable pub find_adapter : List (ℕ × Option ℕ) → Option (ℕ × ℕ)
find_adapter [] = none
find_adapter ((path, none) ∷ objects) = find_adapter objects
find_adapter ((path, some mac) ∷ objects) = some (path, mac)

-- how a program of `_ensure_adapter_up` ends: it ran, it is missing, it took too long, or the call
-- raised something else
pub data Ended : Type 0 where
  ran missing timed_out raised : Ended

pub data Step : Type 0 where
  rfkill_unblock hci0_up power_on set_class : Step

abbrev pub is_caught : Ended → Bool
is_caught ran = true
is_caught missing = true
is_caught timed_out = true
is_caught raised = false

-- `_ensure_adapter_up`: the programs started, and whether it returns rather than raises
unfoldable pub ensure_adapter_up : Ended → Ended → List Step × Bool
ensure_adapter_up rfkill hciconfig =
    if is_caught rfkill
    then (rfkill_unblock ∷ hci0_up ∷ [], is_caught hciconfig)
    else (rfkill_unblock ∷ [], false)

-- `prepare_adapter` after it has stopped the daemons: of bluetoothctl only its timeout is caught. The
-- last step is `set_class_of_device`.
abbrev pub is_timeout : Ended → Bool
is_timeout ran = true
is_timeout missing = false
is_timeout timed_out = true
is_timeout raised = false

unfoldable pub prepare_adapter : Ended → Ended → Ended → List Step × Bool
unfolding ensure_adapter_up
prepare_adapter rfkill hciconfig bluetoothctl =
    let (steps, goes) = ensure_adapter_up rfkill hciconfig in
    if not goes
    then (steps, false)
    else if is_timeout bluetoothctl
    then (steps ++ power_on ∷ set_class ∷ [], true)
    else (steps ++ power_on ∷ [], false)

-- `_disconnect_all_devices`: the paths that BlueZ is asked to disconnect, of the managed objects with
-- the Connected of their Device1, if they have one; a call that fails does not end the loop
unfoldable pub disconnect_all : List (ℕ × Option Bool) → List ℕ
disconnect_all [] = []
disconnect_all ((path, dev) ∷ objects) =
    let rest = disconnect_all objects in if or_false dev then path ∷ rest else rest

-- the whole, by whether there is a bus, and the objects if they can be listed
unfoldable pub disconnect_all_devices : Bool → Option (List (ℕ × Option Bool)) → List ℕ
disconnect_all_devices bus none = []
disconnect_all_devices bus (some objects) = if bus then disconnect_all objects else []

-- How the thread of `_initiate_pairing` ends: it has no object, finds the peer paired, or its Pair()
-- completed or failed.
pub data Pairing : Type 0 where
  no_device skipped completed failed : Pairing

-- `_do_pair`, by whether BlueZ has the device, its Paired, and whether Pair() succeeds
unfoldable pub do_pair : Bool → Option Bool → Bool → Pairing
do_pair device paired pairs =
    if not device
    then no_device
    else if or_false paired
    then skipped
    else if pairs
    then completed
    else failed

-- `set_adapter_alias`: the adapter's alias afterwards
unfoldable pub set_adapter_alias {ℓ} : {A : Type ℓ} → Bool → A → A → A
set_adapter_alias sets alias before = if sets then alias else before

-- The agent that BlueZ asks, ours being `true`, after `_reassert_default_agent`.
unfoldable pub reassert_default_agent : Bool → Bool → Bool
reassert_default_agent granted ours = granted || ours
