-- ===== src/Adapter/Initialize.antt =====
-- initialize, with prepare_adapter: the order of the set-up, what makes it raise, and what is
-- there when it returns.
pub mod Ready
use toothkey.Base.{
  ℕ, ◌+◌, ◌≡◌, Bool, true, false, not, ◌&&◌, Option, none, some, List, [], ◌∷◌, is_empty, is_some,
  if◌then◌else◌, ◌==◌, Text,
}
use toothkey.Adapter.Pollution.{Reading, adapter_pollution_reasons, reregisters}
use toothkey.Adapter.Bringup.{find_adapter_with_retry, Powering, powered, warned, unbound, waiting}
use toothkey.Profile.Registration.{
  Registry, new_agent, new_profile, register_hid_profile, unregister_hid_profile,
}

-- what the set-up meets: whether prepare_adapter raises and there is a system bus, the polls for the adapter, the wait for its
-- power, whether the calls to BlueZ succeed, what the adapter reads as before and after the
-- registration, whether the checks of the class of device and of main.conf raise, the bonded peers,
-- whether the signals can be subscribed to, and whether the two sockets can be bound. That a thread
-- can be started and a pipe be made is taken for granted.
pub record World : Type 0 where
  pub prepares : Bool
  pub bus : Bool
  pub polls : List (Option Text)
  pub powering : Powering
  pub agent_registers : Bool
  pub agent_defaults : Bool
  pub objects : Option (List (List Text))
  pub sdp_record : Text
  pub device_name : Text
  pub profile_registers : Bool
  pub before : Reading
  pub after : Reading
  pub profile_unregisters : Bool
  pub profile_registers_again : Bool
  pub class_verified : Bool
  pub class_verified_again : Bool
  pub bonded : ℕ
  pub risks_checked : Bool
  pub subscribes : Bool
  pub control_binds : Bool
  pub interrupt_binds : Bool

-- `_obex_quieted_this_run` and how often the daemons were stopped, `_adapter_path`, what BlueZ
-- holds, the pairing mode that was asked for, the two server sockets, `_running`, and the watchdog
pub record Handler : Type 0 where
  pub obex_quieted : Bool
  pub obex_stops : ℕ
  pub adapter_path : Option Text
  pub registry : Registry
  pub pairing : Option Bool
  pub control_server : Bool
  pub interrupt_server : Bool
  pub running : Bool
  pub watchdog : Bool

-- the guard of `quiet_obex_daemons`
unfoldable pub quiet_obex_daemons : Bool → Handler → Handler
quiet_obex_daemons force h =
    if h.obex_quieted && not force
    then h
    else record h { obex_quieted = true; obex_stops = h.obex_stops + 1 }

abbrev pub is_unbound : Powering → Bool
is_unbound unbound = true
is_unbound powered = false
is_unbound warned = false
is_unbound waiting = false

-- from the sockets on
unfoldable pub open_up : World → Handler → Handler × Bool
open_up w h =
    let h1 = record h { pairing = some (w.bonded == 0) } in
    let h2 = record h1 { control_server = true } in
    if not (w.risks_checked && w.subscribes)
    then (h1, false)
    else if not w.control_binds
    then (h1, false)
    else if not w.interrupt_binds
    then (h2, false)
    else (record h2 { interrupt_server = true; running = true; watchdog = true }, true)

-- the HID profile is taken down and registered again, if that may help
unfoldable pub remedy : World → Handler → Handler × Bool
unfolding quiet_obex_daemons
remedy w h =
    let quiet = quiet_obex_daemons true h in
    let down = unregister_hid_profile w.profile_unregisters quiet.registry in
    let (up, ok) = register_hid_profile w.sdp_record w.device_name w.profile_registers_again down in
    if reregisters (adapter_pollution_reasons w.after)
    then (record quiet { registry = up }, ok && w.class_verified_again)
    else (h, true)

-- the agent and the profile, and the check of the class of device after them
unfoldable pub register_all : World → Handler → Handler × Bool
register_all w h =
    let (agent, agent_ok) = new_agent w.agent_registers w.agent_defaults h.registry in
    let (profile, profile_ok) =
      new_profile w.sdp_record w.device_name w.objects w.profile_registers agent in
    if agent_ok
    then (record h { registry = profile }, profile_ok && w.class_verified)
    else (record h { registry = agent }, false)

-- the look at the adapter before the registration
unfoldable pub check_before : World → Handler → Handler
unfolding quiet_obex_daemons
check_before w h =
    if is_empty (adapter_pollution_reasons w.before) then h else quiet_obex_daemons false h

-- each stage goes on with what the one before leaves, unless that raised
unfoldable pub after_remedy : World → Handler × Bool → Handler × Bool
unfolding open_up
after_remedy w (h, true) = open_up w h
after_remedy w (h, false) = (h, false)

unfoldable pub after_register : World → Handler × Bool → Handler × Bool
unfolding after_remedy remedy
after_register w (h, true) = after_remedy w (remedy w h)
after_register w (h, false) = (h, false)

-- what follows the wait for the power, by whether that raised
unfoldable pub after_power : Bool → World → Handler → Handler × Bool
unfolding after_register register_all check_before
after_power true w h = (h, false)
after_power false w h = after_register w (register_all w (check_before w h))

-- what follows once the adapter is found
unfoldable pub set_up : World → Handler → Handler × Bool
unfolding after_power
set_up w h = after_power (is_unbound w.powering) w h

-- the start: of prepare_adapter, that it stops the daemons; and the search for the adapter
unfoldable pub prepare : World → Handler → Handler
unfolding quiet_obex_daemons
prepare w h = record (quiet_obex_daemons false h) {
  adapter_path = (find_adapter_with_retry w.polls).0;
}

-- `initialize`; the second part is false if it raises
unfoldable pub initialize : World → Handler → Handler × Bool
unfolding prepare set_up quiet_obex_daemons
initialize w h =
    if not (w.prepares && w.bus)
    then (quiet_obex_daemons false h, false)
    else if is_some ((prepare w h).adapter_path)
    then set_up w (prepare w h)
    else (prepare w h, false)
