-- ===== src/Worker/Tests.antt =====
-- Runs of the worker over the real capture layer, and the theorems about it at them.
use toothkey.Base.{refl, true, false, some, none, List, [], ◌∷◌}
use toothkey.Evdev.Grabber.Owned.{closed, Owns}
use toothkey.Policy.Handler.{Handler}
use toothkey.Policy.Handler.Honest.{IsHonest}
use toothkey.Policy.Handler.Reachable.{here, initial, Reach-IsHonest}
use toothkey.Policy.Grabbers.{Scan, grabbers}
use toothkey.Worker.Commands.{World, Turn, set_grab, shut_down, command_reader}
use toothkey.Worker.Commands.Released.{IsReleased, command_reader-IsReleased}

closed-Owns : Owns [] closed
closed-Owns = record { opened = λ f. refl; grabbed = λ f. refl; distinct = tt }

abbrev pub handler : Handler grabbers
handler = initial grabbers closed

pub handler-IsHonest : IsHonest grabbers handler
handler-IsHonest = Reach-IsHonest grabbers closed-Owns here

-- a worker with a peer
abbrev pub worker : World grabbers
worker = record {
  handler = handler;
  session = record {
    running = true;
    connected = true;
    paused = false;
    control_socket = some 11;
    interrupt_socket = some 12;
    display_name = some 5;
    mac_address = some 99;
    paused_name = none;
    paused_mac = none;
    suppressed_until = 0;
    disconnect_event = false;
    reconnect_wake = false;
    outbound_pending = none;
    started_outbound = false;
    seen = some [];
    queue = some [];
    opened = λ f. false;
  };
  pairing = record {
    bus = true;
    adapter_path = true;
    adapter = record {
      pairable_timeout = 0;
      discoverable_timeout = 0;
      pairable = false;
      discoverable = false;
    };
    pairing_until = 0;
    thread_alive = false;
    wake = false;
  };
  shutdown = false;
  user_initiated_shutdown = false;
}

abbrev pub nothing_found : Scan
nothing_found = (none, tt)

-- the tray asks for the grab, and then for the shutdown
abbrev lines : List (Turn grabbers)
lines =
    record { meanwhile = λ w. w; line = set_grab true; now = 1000; scan = nothing_found; done = 4 }
    ∷ record { meanwhile = λ w. w; line = shut_down; now = 2000; scan = nothing_found; done = 4 }
    ∷ []

command_reader-IsReleased_example :
    IsReleased grabbers (command_reader grabbers lines nothing_found worker).0.handler
command_reader-IsReleased_example =
    command_reader-IsReleased grabbers lines nothing_found worker handler-IsHonest
      (λ w v. v, (λ w v. v, tt))
