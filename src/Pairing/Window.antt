-- ===== src/Pairing/Window.antt =====
-- The window in which a new peer can pair: set_pairing_mode, the seconds left, the thread that
-- closes it, and what the worker does at its start. Times are milliseconds of the monotonic clock.
pub mod Reached
use toothkey.Base.{
  ℕ, ◌+◌, ◌-◌, ◌*◌, ◌/◌, ◌%◌, Bool, true, false, not, ◌&&◌, Option, none, some, List, [], ◌∷◌,
  if◌then◌else◌, ◌==◌, ltb,
}

-- the adapter's properties, as BlueZ has them; a timeout of 0 is none
pub record Adapter : Type 0 where
  pub pairable_timeout : ℕ
  pub discoverable_timeout : ℕ
  pub pairable : Bool
  pub discoverable : Bool

-- `_bus` and `_adapter_path` (whether they are there), the adapter, `_pairing_until`, whether
-- `_pairing_thread` is alive, and `_pairing_wake`
pub record Pairing : Type 0 where
  pub bus : Bool
  pub adapter_path : Bool
  pub adapter : Adapter
  pub pairing_until : ℕ
  pub thread_alive : Bool
  pub wake : Bool

-- `int(round(ms / 1000))`, which rounds halves to the even neighbour
abbrev pub round_seconds : ℕ → ℕ
round_seconds ms =
    let q = ms / 1000 in
    let r = ms % 1000 in if ltb r 500 then q else if ltb 500 r then q + 1 else q + q % 2

-- `pairing_secs_left`; below 0 the difference rounds to at most 0
unfoldable pub pairing_secs_left : ℕ → ℕ → ℕ
pairing_secs_left until now = if until == 0 then 0 else round_seconds (until - now)

unfoldable pub is_pairing : ℕ → ℕ → Bool
unfolding pairing_secs_left
is_pairing until now = ltb 0 (pairing_secs_left until now)

-- The four `props.Set` calls in order, of which the first `done` succeed and the next one raises.
unfoldable pub set_props : Bool → ℕ → ℕ → Adapter → Adapter
set_props on window_s done a =
    let timeout = if on then window_s else 0 in
    record {
      pairable_timeout = if ltb 0 done then timeout else a.pairable_timeout;
      discoverable_timeout = if ltb 1 done then timeout else a.discoverable_timeout;
      pairable = if ltb 2 done then on else a.pairable;
      discoverable = if ltb 3 done then on else a.discoverable;
    }

-- `_start_pairing_expiry`: the thread that runs is woken, or one is started, which clears the event
unfoldable pub start_pairing_expiry : Pairing → Pairing
start_pairing_expiry p =
    if p.thread_alive
    then record p { wake = true }
    else record p { thread_alive = true; wake = false }

-- `set_pairing_mode`, with the Set calls that succeed and the time; the second part is returned
unfoldable pub set_pairing_mode : Bool → ℕ → ℕ → ℕ → Pairing → Pairing × Bool
unfolding is_pairing set_props start_pairing_expiry
set_pairing_mode on window_s done now p =
    let p1 = record p { adapter = set_props on window_s done p.adapter } in
    let p2 = record p1 { pairing_until = if on then now + window_s * 1000 else 0 } in
    if not p.bus
    then (p, false)
    else if not p.adapter_path
    then (p, false)
    else if ltb done 4
    then (p1, is_pairing p.pairing_until now)
    else if on
    then (start_pairing_expiry p2, on)
    else (record p2 { wake = true }, on)

-- One turn of the thread: `_running`, the window's end and the time as it reads them, whether the
-- wait was cut short by the event, and if so the end and the time read after it; and what is read if
-- the loop is left here.
pub record Turn : Type 0 where
  pub running : Bool
  pub until : ℕ
  pub now : ℕ
  pub woken : Bool
  pub until_after : ℕ
  pub now_after : ℕ
  pub until_then : ℕ
  pub now_then : ℕ
  pub running_then : Bool

-- still waiting; cancelled, the window being closed; ended without closing it; closing it
pub data Expiry : Type 0 where
  waiting cancelled ended closing : Expiry

-- the test after the loop, which reads the window, the clock and `_running` again
abbrev pub after_loop : Turn → Expiry
after_loop t =
    if pairing_secs_left t.until_then t.now_then == 0 && t.running_then then closing else ended

-- the `run` of `_start_pairing_expiry`
unfoldable pub run : List Turn → Expiry
unfolding pairing_secs_left
run [] = waiting
run (t ∷ turns) =
    let rest = run turns in
    let closed = pairing_secs_left t.until t.now == 0 in
    if not t.running
    then after_loop t
    else if closed
    then after_loop t
    else if not t.woken
    then rest
    else if ltb 0 (pairing_secs_left t.until_after t.now_after)
    then rest
    else cancelled

-- A managed object of BlueZ with a Device1 interface: its Bonded and Paired properties, if given.
pub record Bond : Type 0 where
  pub bonded : Option Bool
  pub paired : Option Bool

-- `bool(dev.get('Bonded', dev.get('Paired')))`
abbrev pub is_bonded : Bond → Bool
is_bonded b = elim b.bonded [
  | some set ↦ set
  | none ↦ elim b.paired [ some set ↦ set | none ↦ false ]
]

-- `_bonded_peer_count`; `none` where there is no bus or a call fails
unfoldable pub bonded_peer_count : Option (List Bond) → ℕ
bonded_peer_count none = 0
bonded_peer_count (some []) = 0
bonded_peer_count (some (b ∷ bonds)) =
    let rest = bonded_peer_count (some bonds) in if is_bonded b then rest + 1 else rest

-- `PAIRING_WINDOW_S`
abbrev pub pairing_window_s : ℕ
pairing_window_s = 120

-- `_apply_initial_pairing_mode`
unfoldable pub apply_initial_pairing_mode : Option (List Bond) → ℕ → ℕ → Pairing → Pairing × Bool
unfolding bonded_peer_count set_pairing_mode
apply_initial_pairing_mode bonds done now p =
    if bonded_peer_count bonds == 0
    then set_pairing_mode true pairing_window_s done now p
    else set_pairing_mode false pairing_window_s done now p
