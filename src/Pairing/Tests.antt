-- ===== src/Pairing/Tests.antt =====
-- Runs of the pairing side, and the theorems about it at them.
use toothkey.Base.{ℕ, ◌≤◌, ◌≡◌, ◌≢◌, refl, true, false, some, none, List, [], ◌∷◌, arith, length}
use toothkey.Pairing.Window.{Pairing, Turn, closing, Bond, pairing_secs_left, set_props, run}
use toothkey.Pairing.Window.Reached.{IsBounded}
use toothkey.Pairing.Attempts.{Peer, public, random, pair_calls}
use toothkey.Pairing.Attempts.Rate.{no_attempts, IsSpaced, pair_calls-rate}
use toothkey.Pairing.Throttle.{tlog_throttled, get}

-- an adapter that nobody can find, with all it takes
abbrev shut : Pairing
shut = record {
  bus = true;
  adapter_path = true;
  adapter = record {
    pairable_timeout = 0;
    discoverable_timeout = 0;
    pairable = false;
    discoverable = false;
  };
  pairing_until = 0;
  thread_alive = false;
  wake = false;
}

shut-IsBounded : IsBounded shut.adapter
shut-IsBounded = record {
  pairable = λ e. absurd (ground arith);
  discoverable = λ e. absurd (ground arith);
}

-- A closing whose third call fails leaves the flags on and takes their timeouts away.
open_for_good :
    set_props false 120 2 (record {
      pairable_timeout = 120;
      discoverable_timeout = 120;
      pairable = true;
      discoverable = true;
    })
    ≡ record {
      pairable_timeout = 0;
      discoverable_timeout = 0;
      pairable = true;
      discoverable = true;
    }
unfolding set_props
open_for_good = refl

-- a turn that waits out the window
abbrev turn : ℕ → Turn
turn now = record {
  running = true;
  until = 130000;
  now = now;
  woken = false;
  until_after = 0;
  now_after = 0;
  until_then = 130000;
  now_then = now;
  running_then = true;
}

untouched_window : run (turn 10000 ∷ turn 130500 ∷ []) ≡ closing
unfolding run pairing_secs_left
untouched_window = refl

abbrev bonds : List Bond
bonds = record { bonded = none; paired = some true } ∷ []

abbrev phone : Peer
phone = record {
  addr = 7;
  address_type = some public;
  blocked = false;
  paired = false;
  connected = false;
}

abbrev watch : Peer
watch = record {
  addr = 8;
  address_type = some random;
  blocked = false;
  paired = false;
  connected = false;
}

abbrev appearances : List (ℕ × Peer)
appearances = (40000, phone) ∷ (41000, watch) ∷ (50000, phone) ∷ (75000, phone) ∷ []

pair_calls-rate_example :
    (length (pair_calls 7 appearances no_attempts) ≤ 5)
    × IsSpaced 0 (pair_calls 7 appearances no_attempts)
pair_calls-rate_example = pair_calls-rate 7 appearances

logged : (tlog_throttled 3 1000 300000 []).1 ≢ none
unfolding tlog_throttled get
logged = λ e. absurd (ground arith)
