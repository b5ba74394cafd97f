-- ===== src/Pairing/Throttle.antt =====
-- bluetooth_handler.py, _tlog_throttled: at most one line per key and interval, in bounded memory.
-- Times are milliseconds of the monotonic clock; keys are only compared.
pub mod Bounded
use toothkey.Base.{
  ℕ, suc, ◌+◌, ◌-◌, ◌<◌, Bool, true, false, not, ◌&&◌, Option, none, some, List, [], ◌∷◌,
  if◌then◌else◌, ◌==◌, ltb, leb, length,
}

-- `_throttle_state`, a dict in insertion order: the time of the last line and the lines suppressed
-- since, by key
pub record Entry : Type 0 where
  pub key : ℕ
  pub last : ℕ
  pub suppressed : ℕ

abbrev pub throttle_max_keys : ℕ
throttle_max_keys = 512

-- `_throttle_state.get(key)`
unfoldable pub get : ℕ → List Entry → Option Entry
get key [] = none
get key (e ∷ es) = if e.key == key then some e else get key es

-- `_throttle_state[key] = (last, suppressed)`: in place, or at the end
unfoldable pub put : ℕ → ℕ → ℕ → List Entry → List Entry
put key last suppressed [] = record { key = key; last = last; suppressed = suppressed } ∷ []
put key last suppressed (e ∷ es) =
    if e.key == key
    then record { key = key; last = last; suppressed = suppressed } ∷ es
    else e ∷ put key last suppressed es

-- `min(_throttle_state, key=...)`: the first entry with the least time
unfoldable pub oldest : Entry → List Entry → Entry
oldest e [] = e
oldest e (f ∷ es) = if ltb f.last e.last then oldest f es else oldest e es

unfoldable pub delete : ℕ → List Entry → List Entry
delete key [] = []
delete key (e ∷ es) = if e.key == key then es else e ∷ delete key es

abbrev pub drop_oldest : List Entry → List Entry
drop_oldest [] = []
drop_oldest (e ∷ es) = delete (Entry.key (oldest e es)) (e ∷ es)

abbrev pub last_of : Option Entry → ℕ
last_of none = 0
last_of (some e) = e.last

abbrev pub suppressed_of : Option Entry → ℕ
suppressed_of none = 0
suppressed_of (some e) = e.suppressed

abbrev pub is_in : Option Entry → Bool
is_in none = false
is_in (some e) = true

-- `_tlog_throttled`: the state after it, and if a line is logged how many it reports as dropped
unfoldable pub tlog_throttled : ℕ → ℕ → ℕ → List Entry → List Entry × Option ℕ
unfolding get put
tlog_throttled key now interval state =
    let found = get key state in
    let last = last_of found in
    let suppressed = suppressed_of found in
    let room =
      if leb throttle_max_keys (length state) && not (is_in found)
      then drop_oldest state
      else state in
    if not (last == 0) && ltb now (last + interval)
    then (put key last (suppressed + 1) state, none)
    else (put key now 0 room, some suppressed)
