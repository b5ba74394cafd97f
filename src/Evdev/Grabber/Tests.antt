-- ===== src/Evdev/Grabber/Tests.antt =====
-- Runs of the grabber on one keyboard, and the theorems about it at them.
use toothkey.Base.{
  ◌≡◌, refl, true, false, Option, some, none, List, [], ◌∷◌, arith, if◌then◌else◌, ◌==◌,
}
use toothkey.Evdev.Keys.{key_a, key_z, key_space, key_enter, Key-discrete}
use toothkey.Evdev.Devices.{Device, Kernel, is_text_keyboard}
use toothkey.Evdev.Grabber.{Grabber, no_keys}
use toothkey.Evdev.Grabber.Owned.{closed, Owns}
use toothkey.Evdev.Grabber.Loop.{Round, Ended, crash, finish, run}
use toothkey.Evdev.Grabber.Loop.Exit.{Released, run-Released}

abbrev keyboard : Device
keyboard = record {
  fd = 7;
  path = 3;
  capabilities =
      some
        (record { ev_key = key_a ∷ key_z ∷ key_space ∷ key_enter ∷ []; ev_rel = []; ev_abs = [] });
  grabbable = true;
}

-- a grabber that holds the keyboard, and the kernel then
abbrev holding : Grabber
holding = record {
  devices = keyboard ∷ [];
  thread = some true;
  reader = record { held = no_keys; suppress_forwarding = false; stop = false };
}

abbrev held : Kernel
held = record {
  opened = λ f. if 7 == f then true else false;
  grabbed = λ f. if 7 == f then true else false;
}

abbrev unused : Grabber
unused = record {
  devices = [];
  thread = none;
  reader = record { held = no_keys; suppress_forwarding = false; stop = false };
}

abbrev plugged : Option (List (Option Device))
plugged = some (none ∷ some keyboard ∷ [])

keyboard-is_text : is_text_keyboard keyboard ≡ true
unfolding is_text_keyboard Key-discrete
keyboard-is_text = refl

held-Owns : Owns (keyboard ∷ []) held
held-Owns = record {
  opened = λ f. ground arith;
  grabbed = λ f. ground arith;
  distinct = (refl, tt);
}

closed-Owns : Owns [] closed
closed-Owns = record { opened = λ f. refl; grabbed = λ f. refl; distinct = tt }

-- select fails for good in the first round
abbrev crashed : Round
crashed = record { stop_asked = false; muted = false; selected = crash }

abbrev left_behind : Ended
left_behind =
    let (g', k', sent, lost) = finish holding held in
    record { grabber = g'; kernel = k'; lost = lost }

run-crashed : (run (crashed ∷ []) holding held).0 ≡ some left_behind
unfolding run
run-crashed = refl

run-Released_example : Released left_behind
run-Released_example = run-Released (crashed ∷ []) holding held left_behind held-Owns tt run-crashed
