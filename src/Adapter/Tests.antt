-- ===== src/Adapter/Tests.antt =====
-- Tests of the adapter's set-up.
use toothkey.Base.{
  ℕ, arith, zero, suc, ◌+◌, ◌≢◌, ◌≡◌, ◌≤◌, ◌+◌, ◌*◌, refl, true, false, none, some, List, [], ◌∷◌,
  Text, text, length,
}
use toothkey.Adapter.Uuids.{
  uuid_to_short, is_forbidden, uuid_owners, pipewire, is_call_audio, uuid_tag,
}
use toothkey.Adapter.Pollution.{
  props, adapter_pollution_reasons, attribute_pollution, reregisters, decode_service_class_bits,
}
use toothkey.Adapter.Pollution.Attributed.{owned}
use toothkey.Adapter.Hijack.{
  Conf, lines, undecodable, check_call_audio_hijack_risk, sets_reconnect, setting_of,
}
use toothkey.Adapter.Class.{
  Radio, Try, returned, timed_out, verify_class_of_device, cod_ok, keyboard_class,
}
use toothkey.Adapter.Class.Bounded.{stalls, verify_class_of_device-stalls}
use toothkey.Adapter.Bringup.{
  unbound, powered, no_object, off, on, Look, waiting, verify_adapter_powered,
}
use toothkey.Adapter.Bringup.Ends.{Spaced, verify_adapter_powered-ends}
use toothkey.Adapter.Noplugin.{plugin_warnings}
use toothkey.Adapter.Noplugin.Last.{Arg, short_flag, long_joined, other, write}
use toothkey.Adapter.Obex.{owner_uid, Programs, ok, nonzero, stop_obex_daemons}
use toothkey.Adapter.Initialize.{World, Handler, initialize}
use toothkey.Adapter.Initialize.Ready.{IsReady, initialize-IsReady}
use toothkey.Profile.Registration.{new_agent, new_profile, unregister_hid_profile}

abbrev hid : Text
hid = text "00001124-0000-1000-8000-00805f9b34fb"

abbrev handsfree : Text
handsfree = text "0000111e-0000-1000-8000-00805f9b34fb"

abbrev obex : Text
obex = text "00001105-0000-1000-8000-00805f9b34fb"

short_of_obex : uuid_to_short obex ≡ text "0x1105"
unfolding uuid_to_short
short_of_obex = refl

tag_of_hid : uuid_tag hid ≡ text "HID"
unfolding uuid_tag
tag_of_hid = refl

no_short : uuid_to_short (text "1105") ≡ []
unfolding uuid_to_short
no_short = refl

bits_are_named : decode_service_class_bits 768 ≡ text "Audio, Telephony"
unfolding decode_service_class_bits
bits_are_named = refl

-- obexd alone: its class bit and its record
obex_reasons :
    adapter_pollution_reasons (props 1049920 (hid ∷ obex ∷ []))
    ≡ text "CoD service bits 0x080 [ObjectTransfer]"
      ∷ text "forbidden adapter UUIDs: 0x1105 (OBEXObjectPush)"
      ∷ []
unfolding adapter_pollution_reasons decode_service_class_bits uuid_to_short is_forbidden
obex_reasons = refl

obex_registers_again : reregisters (adapter_pollution_reasons (props 1344 (hid ∷ obex ∷ []))) ≡ true
unfolding reregisters adapter_pollution_reasons uuid_to_short is_forbidden attribute_pollution
obex_registers_again = refl

handsfree_is_owned : owned pipewire (uuid_to_short handsfree) uuid_owners ≡ true
unfolding uuid_to_short
handsfree_is_owned = refl

abbrev switched_off_conf : Conf
switched_off_conf =
    lines (text "[Policy]" ∷ text "# ReconnectUUIDs=x" ∷ text " ReconnectUUIDs = " ∷ [])

-- bytes that are not UTF-8 before the setting
not_text : check_call_audio_hijack_risk [] (undecodable []) ≡ none
unfolding check_call_audio_hijack_risk
not_text = refl

no_risk : check_call_audio_hijack_risk (text "0x1124" ∷ []) switched_off_conf ≡ some []
unfolding check_call_audio_hijack_risk is_call_audio sets_reconnect setting_of
no_risk = refl

keyboard_class_is_ok : cod_ok keyboard_class ≡ true
unfolding cod_ok
keyboard_class_is_ok = refl

abbrev fresh_radio : Radio
fresh_radio = record { btmgmt_usable = true; ran = [] }

-- two tries on an adapter that shows a computer; btmgmt hangs
abbrev stubborn : List Try
stubborn =
    record { read = some 260; managed = timed_out; configured = returned true }
    ∷ record { read = some 260; managed = timed_out; configured = returned true }
    ∷ []

verify_class_of_device-stalls_example :
    (length ((verify_class_of_device stubborn (some 260) fresh_radio).0.ran) ≤ 0 + 2 * 2)
    × (stalls ((verify_class_of_device stubborn (some 260) fresh_radio).0.ran) ≤ 0 + 1)
verify_class_of_device-stalls_example =
    verify_class_of_device-stalls stubborn (some 260) fresh_radio

stubborn_runs_three : length ((verify_class_of_device stubborn (some 260) fresh_radio).0.ran) ≡ 3
unfolding verify_class_of_device
stubborn_runs_three = refl

-- BlueZ is away at the first look: the attempt to set the property uses a name that is not bound
away_at_first : verify_adapter_powered 0 ((0, no_object) ∷ (500, on) ∷ []) ≡ unbound
unfolding verify_adapter_powered
away_at_first = refl

away_later : verify_adapter_powered 0 ((0, off) ∷ (500, no_object) ∷ (1000, on) ∷ []) ≡ powered
unfolding verify_adapter_powered
away_later = refl

abbrev two_options : List Arg
two_options =
    other (text "bluetoothd") ∷ short_flag (text "input") ∷ long_joined (text "hostname") ∷ []

-- the first option is lost, so the input plugin is warned of
input_is_warned_of : plugin_warnings (write two_options) ≡ (true, false)
unfolding plugin_warnings
input_is_warned_of = refl

abbrev world : World
world = record {
  prepares = true;
  bus = true;
  polls = none ∷ some (text "/org/bluez/hci0") ∷ [];
  powering = powered;
  agent_registers = true;
  agent_defaults = false;
  objects = some ((text "org.bluez.Adapter1" ∷ []) ∷ []);
  sdp_record = text "<Toothkey Keyboard>";
  device_name = text "Tooth-key (x)";
  profile_registers = true;
  before = props 1344 (hid ∷ obex ∷ []);
  after = props 1344 (hid ∷ obex ∷ []);
  profile_unregisters = true;
  profile_registers_again = true;
  class_verified = true;
  class_verified_again = true;
  bonded = 0;
  risks_checked = true;
  subscribes = true;
  control_binds = true;
  interrupt_binds = true;
}

abbrev fresh : Handler
fresh = record {
  obex_quieted = false;
  obex_stops = 0;
  adapter_path = none;
  registry = record { has_agent = false; default_agent = false; profile = none };
  pairing = none;
  control_server = false;
  interrupt_server = false;
  running = false;
  watchdog = false;
}

world_is_set_up : (initialize world fresh).1 ≡ true
unfolding initialize adapter_pollution_reasons uuid_to_short is_forbidden reregisters new_agent
    new_profile unregister_hid_profile
world_is_set_up = refl

initialize-IsReady_example : IsReady world ((initialize world fresh).0)
initialize-IsReady_example = initialize-IsReady world fresh world_is_set_up

owner_of_the_unit : owner_uid (text "1000:1000") ≡ some 1000
unfolding owner_uid
owner_of_the_unit = refl

no_owner : owner_uid (text "root:root") ≡ none
unfolding owner_uid
no_owner = refl

-- the user's obexd is stopped, the system has no such unit, and one process lingers
abbrev programs : Programs
programs = record {
  user = λ s. ok;
  system = λ s. nonzero;
  pgrep = some (text "4711" ∷ []);
  kill_runs = true;
}

five_commands : length ((stop_obex_daemons (some 1000) programs).ran) ≡ 5
unfolding stop_obex_daemons
five_commands = refl

-- so many looks half a second apart at an adapter that stays off
abbrev looks_off : ℕ → ℕ → List (ℕ × Look)
looks_off zero from = []
looks_off (suc n) from = (from, off) ∷ looks_off n (from + 500)

looks_off-Spaced : (n from : ℕ) → Spaced from (looks_off n from)
looks_off-Spaced zero from = tt
looks_off-Spaced (suc n) from = (omega arith, looks_off-Spaced n (from + 500))

verify_adapter_powered-ends_example : verify_adapter_powered 7000 (looks_off 21 7000) ≢ waiting
verify_adapter_powered-ends_example =
    verify_adapter_powered-ends 7000 (looks_off 21 7000) (looks_off-Spaced 21 7000) (omega arith)
