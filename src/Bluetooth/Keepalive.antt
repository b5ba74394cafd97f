-- ===== src/Bluetooth/Keepalive.antt =====
-- _keepalive_loop: the empty report that keeps an idle session up. Times are milliseconds of the
-- monotonic clock.
pub mod Apart
mod Tests
use toothkey.Base.{ℕ, ◌+◌, Bool, true, false, not, ◌&&◌, List, [], ◌∷◌, if◌then◌else◌, ltb}

-- `_KEEPALIVE_INTERVAL_S`
abbrev pub keepalive_interval : ℕ
keepalive_interval = 120000

-- what the thread reads from one sleep to the next: `_running and connected` and the clock at the
-- test of the inner loop; and if that ends, the flags again, and after a report the flags at the
-- outer test and the clock as the next deadline is set
pub record Tick : Type 0 where
  pub alive : Bool
  pub now : ℕ
  pub alive_after : Bool
  pub alive_next : Bool
  pub restarted : ℕ

-- the times of the reports, from a deadline on
unfoldable pub keepalive_turns : ℕ → List Tick → List ℕ
keepalive_turns deadline [] = []
keepalive_turns deadline (t ∷ ticks) =
    let waiting = keepalive_turns deadline ticks in
    let again = keepalive_turns (t.restarted + keepalive_interval) ticks in
    if t.alive && ltb t.now deadline
    then waiting
    else if not t.alive_after
    then []
    else if t.alive_next
    then t.now ∷ again
    else t.now ∷ []

-- `_keepalive_loop`, with the flags at its start
unfoldable pub keepalive_loop : Bool → ℕ → List Tick → List ℕ
unfolding keepalive_turns
keepalive_loop alive now ticks =
    if alive then keepalive_turns (now + keepalive_interval) ticks else []
