-- ===== src/Pairing/Attempts.antt =====
-- bluetooth_handler.py: which of the devices that BlueZ reports this machine asks to pair. Times
-- are milliseconds of the monotonic clock, and addresses are only compared; 0 is the empty one.
pub mod Rate
use toothkey.Base.{
  ℕ, ◌+◌, ◌-◌, ◌<◌, Bool, true, false, not, ◌&&◌, ◌||◌, Option, none, some, List, [], ◌∷◌,
  if◌then◌else◌, ◌==◌, ltb, leb,
}

-- `AddressType`, which is 'public' if it is missing or empty
pub data AddressType : Type 0 where
  public random other_type : AddressType

-- A Device1 as InterfacesAdded reports it.
pub record Peer : Type 0 where
  pub addr : ℕ
  pub address_type : Option AddressType
  pub blocked : Bool
  pub paired : Bool
  pub connected : Bool

pub data WhyNot : Type 0 where
  low_energy blocked_by_bluez already_paired : WhyNot

abbrev pub is_public : Option AddressType → Bool
is_public none = true
is_public (some public) = true
is_public (some random) = false
is_public (some other_type) = false

-- `_classic_pairing_candidate`; `none` is a candidate
unfoldable pub classic_pairing_candidate : Peer → Option WhyNot
classic_pairing_candidate dev =
    if not (is_public dev.address_type)
    then some low_energy
    else if dev.blocked
    then some blocked_by_bluez
    else if dev.paired
    then some already_paired
    else none

abbrev pub pair_retry_interval : ℕ
pair_retry_interval = 30000

abbrev pub pair_max_attempts_per_peer : ℕ
pair_max_attempts_per_peer = 5

-- `_pair_attempts`: count and time of the last attempt, (0, 0) for an address not in the dict
abbrev pub Attempts : Type 0
Attempts = ℕ → ℕ × ℕ

abbrev pub record_attempt : Attempts → ℕ → ℕ × ℕ → Attempts
record_attempt attempts addr entry a = if addr == a then entry else attempts a

-- `_pair_attempt_allowed`
unfoldable pub pair_attempt_allowed : ℕ → ℕ → Attempts → Bool × Attempts
pair_attempt_allowed now addr attempts =
    let (count, last) = attempts addr in
    if addr == 0
    then (false, attempts)
    else if leb pair_max_attempts_per_peer count
    then (false, attempts)
    else if ltb now (last + pair_retry_interval)
    then (false, attempts)
    else (true, record_attempt attempts addr (count + 1, now))

-- `on_interfaces_added`: whether Device1.Pair() is called for the device
unfoldable pub on_interfaces_added : ℕ → Peer → Attempts → Bool × Attempts
unfolding classic_pairing_candidate pair_attempt_allowed
on_interfaces_added now dev attempts = elim (classic_pairing_candidate dev) [
  | some why_not ↦ (false, attempts)
  | none ↦ if dev.connected then (false, attempts) else pair_attempt_allowed now dev.addr attempts
]

-- A run of the worker, as its devices appear: the times of the calls of Pair() for one address.
unfoldable pub pair_calls : ℕ → List (ℕ × Peer) → Attempts → List ℕ
unfolding on_interfaces_added
pair_calls addr [] attempts = []
pair_calls addr ((now, dev) ∷ appearances) attempts =
    let (called, attempts') = on_interfaces_added now dev attempts in
    let rest = pair_calls addr appearances attempts' in
    if called && (dev.addr == addr) then now ∷ rest else rest
