-- ===== src/Adapter/Obex.antt =====
-- _owner_uid, and quiet_obex_daemons past its guard: the programs that stop obexd.
pub mod Stops
use Prim.Native.String.{String}
use toothkey.Base.{
  ℕ, ◌+◌, ◌*◌, ◌-◌, Bool, true, false, not, ◌&&◌, ◌||◌, Option, none, some, List, [], ◌∷◌, ◌++◌,
  all, any, is_empty, is_some, if◌then◌else◌, leb, Text, text, strip, split_once,
}

-- `s.isdigit()`, on ASCII
abbrev pub is_digit : ℕ → Bool
is_digit c = leb 48 c && leb c 57

abbrev pub is_number : Text → Bool
is_number s = not (is_empty s) && all is_digit s

-- `int(s)` of digits, after those that are read
abbrev pub parse_number : Text → ℕ → ℕ
parse_number [] n = n
parse_number (c ∷ s) n = parse_number s (n * 10 + (c - 48))

-- `_owner_uid`, with TOOTHKEY_SOCKET_OWNER, empty if it is not set
unfoldable pub owner_uid : Text → Option ℕ
owner_uid spec =
    let uid = strip ((split_once 58 spec).0) in
    if is_number uid then some (parse_number uid 0) else none

-- how a program ends: with return code 0, another one, or an exception that is caught
pub data End : Type 0 where
  ok : End
  nonzero : End
  caught : End

pub data Service : Type 0 where
  obex : Service
  bluez_obexd : Service

pub data Command : Type 0 where
  user_stop : ℕ → Service → Command
  system_stop : Service → Command
  kill : List Text → Command

-- how the programs would end: the two stops of each service, the list of processes that pgrep
-- gives unless that fails, and whether kill can be run
pub record Programs : Type 0 where
  pub user : Service → End
  pub system : Service → End
  pub pgrep : Option (List Text)
  pub kill_runs : Bool

-- what was run, with whether it counts, and `stopped`
pub record Done : Type 0 where
  pub ran : List (Command × Bool)
  pub stopped : Bool

abbrev pub is_ok : End → Bool
is_ok ok = true
is_ok nonzero = false
is_ok caught = false

abbrev pub note : Command → Bool → Done → Done
note c counts d = record { ran = d.ran ++ (c, counts) ∷ []; stopped = counts || d.stopped }

-- one turn of the loop over the services
unfoldable pub stop_service : Option ℕ → Programs → Service → Done → Done
stop_service none p s d = note (system_stop s) (is_ok (p.system s)) d
stop_service (some uid) p s d =
    note (system_stop s) (is_ok (p.system s)) (note (user_stop uid s) (is_ok (p.user s)) d)

-- `[p for p in r.stdout.split() if p.strip().isdigit()]`, of words
abbrev pub numbers_in : List Text → List Text
numbers_in [] = []
numbers_in (w ∷ words) =
    let rest = numbers_in words in if is_number (strip w) then w ∷ rest else rest

abbrev pub kill_pids : List Text → Bool → Done → Done
kill_pids [] runs d = d
kill_pids (pid ∷ pids) runs d = note (kill (pid ∷ pids)) runs d

unfoldable pub kill_lingering : Programs → Done → Done
kill_lingering p d = elim (p.pgrep) [
  | none ↦ d
  | some words ↦ kill_pids (numbers_in words) (p.kill_runs) d
]

-- the body of `quiet_obex_daemons`
unfoldable pub stop_obex_daemons : Option ℕ → Programs → Done
unfolding stop_service kill_lingering
stop_obex_daemons uid p = kill_lingering p (
    stop_service uid p bluez_obexd (stop_service uid p obex (record { ran = []; stopped = false })))
