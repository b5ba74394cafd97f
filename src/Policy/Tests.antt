-- ===== src/Policy/Tests.antt =====
-- The handler over the real capture layer, on one keyboard, and the theorems about it there.
use toothkey.Base.{◌≡◌, refl, true, false, none, some, List, [], ◌∷◌}
use toothkey.Evdev.Keys.{key_a, key_z, key_space, key_enter, Key-discrete}
use toothkey.Evdev.Devices.{Device, Kernel, is_text_keyboard, discover_keyboards, discover_loop}
use toothkey.Evdev.Grabber
use toothkey.Evdev.Grabber.Owned.{closed, Owns, NodesFresh}
use toothkey.Policy.Handler.{
  Handler, running, reader_works, stop_listener, start_listener, set_grab_mode, take_grab,
}
use toothkey.Policy.Handler.Honest.{IsHonest}
use toothkey.Policy.Handler.Reachable.{Reach, here, next, asked, worked, initial, Reach-IsHonest}
use toothkey.Policy.Handler.Release.{start_listener-stop_listener}
use toothkey.Policy.Handler.Phases.{off, ask, allows, phase, Step-allows}
use toothkey.Policy.Grabbers.{Scan, grabbers, new_grabber, Working, Reach-grabbed}
use toothkey.Evdev.Grabber.{Grabber}
use toothkey.Evdev.Grabber.Loop.{Reading, read_all, rescan_if_due, work}

abbrev keyboard : Device
keyboard = record {
  fd = 7;
  path = 3;
  capabilities =
      some
        (record { ev_key = key_a ∷ key_z ∷ key_space ∷ key_enter ∷ []; ev_rel = []; ev_abs = [] });
  grabbable = true;
}

-- another device, which the kernel would give the same descriptor, since the scan closes it at once
abbrev mouse : Device
mouse = record { fd = 7; path = 2; capabilities = none; grabbable = true }

fresh_nodes : NodesFresh (some (some mouse ∷ some keyboard ∷ [])) closed
unfolding is_text_keyboard Key-discrete
fresh_nodes = (refl, (refl, tt))

abbrev plugged : Scan
plugged = (some (some mouse ∷ some keyboard ∷ []), fresh_nodes)

closed-Owns : Owns [] closed
closed-Owns = record { opened = λ f. refl; grabbed = λ f. refl; distinct = tt }

abbrev started : Handler grabbers
started = initial grabbers closed

started-IsHonest : IsHonest grabbers started
started-IsHonest = Reach-IsHonest grabbers closed-Owns here

-- the tray asks for the grab while a peer is connected
abbrev grabbed : Handler grabbers
grabbed = (set_grab_mode grabbers true true plugged started).0

grabbed-Reach : Reach grabbers closed grabbed
grabbed-Reach = next here (asked true true plugged)

grabbed_7 : Kernel.grabbed grabbed.kernel 7 ≡ true
unfolding set_grab_mode take_grab Grabber.start Grabber.is_running Grabber.grab_loop
    discover_keyboards discover_loop is_text_keyboard Key-discrete
grabbed_7 = refl

-- a key is read from the keyboard, and a scan finds nothing new
abbrev taken : Grabber
taken = (Grabber.start plugged.0 new_grabber closed).1

grabbed-taken : grabbed.grabber ≡ some taken
unfolding set_grab_mode take_grab Grabber.start Grabber.is_running Grabber.grab_loop
    discover_keyboards discover_loop is_text_keyboard Key-discrete
grabbed-taken = refl

taken_runs : Grabber.is_running taken ≡ true
unfolding Grabber.start Grabber.is_running Grabber.grab_loop discover_keyboards discover_loop
    is_text_keyboard Key-discrete
taken_runs = refl

abbrev readings : List Reading
readings = record { fd = 7; events = (key_a, 1) ∷ []; fails = false } ∷ []

abbrev headset : Device
headset = record mouse { fd = 8 }

headset_fresh : NodesFresh (some (some headset ∷ [])) (read_all readings taken grabbed.kernel).1
unfolding set_grab_mode take_grab Grabber.start Grabber.is_running Grabber.grab_loop
    discover_keyboards discover_loop is_text_keyboard Key-discrete read_all Grabber.device_at
headset_fresh = (refl, tt)

abbrev round : Working taken grabbed.kernel
round = record {
  readings = readings;
  due = some (some (some headset ∷ []));
  runs = taken_runs;
  fresh = headset_fresh;
}

abbrev worked_on : Handler grabbers
worked_on = reader_works grabbers grabbed taken round

worked_7 : Kernel.grabbed worked_on.kernel 7 ≡ true
unfolding reader_works set_grab_mode take_grab Grabber.start Grabber.is_running Grabber.grab_loop
    discover_keyboards discover_loop is_text_keyboard Key-discrete work read_all Grabber.rescan
    Grabber.device_at rescan_if_due Grabber.rescan_loop
worked_7 = refl

Reach-grabbed_example : (running grabbers worked_on ≡ true) × (worked_on.grab_mode ≡ true)
Reach-grabbed_example =
    Reach-grabbed 7 closed-Owns (next grabbed-Reach (worked taken round grabbed-taken)) worked_7

Reach-IsHonest_example : IsHonest grabbers grabbed
Reach-IsHonest_example = Reach-IsHonest grabbers closed-Owns grabbed-Reach

grabbed-running : running grabbers grabbed ≡ true
grabbed-running = (Reach-grabbed 7 closed-Owns grabbed-Reach grabbed_7).0

-- the keyboard can be grabbed again once the link's drop has let it go
ready : (grabbers.start plugged (stop_listener grabbers grabbed).kernel).0 ≡ true
unfolding set_grab_mode take_grab stop_listener Grabber.start Grabber.is_running Grabber.grab_loop
    discover_keyboards discover_loop is_text_keyboard Key-discrete
ready = refl

start_listener-stop_listener_example :
    let down = stop_listener grabbers grabbed in
    let (up, result) = start_listener grabbers true plugged down in
    (running grabbers down ≡ false)
    × Owns [] down.kernel
    × (down.grab_mode ≡ true)
    × (result ≡ true)
    × (running grabbers up ≡ true)
    × (up.grab_mode ≡ true)
start_listener-stop_listener_example =
    start_listener-stop_listener grabbers plugged grabbed
      (Reach-IsHonest grabbers closed-Owns grabbed-Reach) grabbed-running ready

Step-allows_example : allows (ask true true) off (phase grabbers grabbed) ≡ true
Step-allows_example = Step-allows grabbers closed-Owns here (asked true true plugged)
