-- ===== src/Bluetooth/Keepalive/Tests.antt =====
-- Runs of the keepalive thread.
use toothkey.Base.{◌≡◌, ◌+◌, inl, inr, refl, true, false, List, [], ◌∷◌, arith}
use toothkey.Bluetooth.Keepalive.{Tick, keepalive_loop, keepalive_interval}
use toothkey.Bluetooth.Keepalive.Apart.{IsApart, keepalive_loop-IsApart}

-- a sleep that ends before the deadline, one that ends after it, and the end of the session
abbrev ticks : List Tick
ticks =
    record { alive = true; now = 120000; alive_after = true; alive_next = true; restarted = 120000 }
    ∷ record {
      alive = true;
      now = 121001;
      alive_after = true;
      alive_next = true;
      restarted = 121002;
    }
    ∷ record {
      alive = false;
      now = 121500;
      alive_after = false;
      alive_next = false;
      restarted = 121500;
    }
    ∷ []

one_report : keepalive_loop true 1000 ticks ≡ 121001 ∷ []
unfolding keepalive_loop
one_report = refl

keepalive_loop-IsApart_example :
    IsApart (1000 + keepalive_interval) (keepalive_loop true 1000 ticks)
keepalive_loop-IsApart_example =
    keepalive_loop-IsApart true 1000 ticks
      ((omega arith, inl refl), ((omega arith, inl refl), ((omega arith, inr refl), tt)))

-- the session is gone at one test and a new one is there at the next: the thread of the old one
-- sends at once, and goes on next to the thread of the new one
abbrev back_at_once : List Tick
back_at_once =
    record { alive = false; now = 2000; alive_after = true; alive_next = true; restarted = 2001 }
    ∷ []

early_report : keepalive_loop true 1000 back_at_once ≡ 2000 ∷ []
unfolding keepalive_loop
early_report = refl
