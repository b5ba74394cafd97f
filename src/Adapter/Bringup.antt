-- ===== src/Adapter/Bringup.antt =====
-- _find_adapter_with_retry and _verify_adapter_powered: waiting for the adapter and its power.
pub mod Ends
use toothkey.Base.{ℕ, ◌+◌, Bool, true, false, Option, none, some, List, [], ◌∷◌, if◌then◌else◌, ltb}

module _ {ℓ} {A : Type ℓ} where
  -- `_find_adapter_with_retry` over what its polls find, an exception counting as nothing; the
  -- second part is how often it sleeps
  abbrev pub find_adapter_with_retry : List (Option A) → Option A × ℕ
  find_adapter_with_retry [] = (none, 0)
  find_adapter_with_retry (some found ∷ polls) = (some found, 0)
  find_adapter_with_retry (none ∷ polls) =
      let rest = find_adapter_with_retry polls in (rest.0, 1 + rest.1)

-- what a turn of the loop meets: an exception before `props` is bound, one at the read of the
-- property, or its value
pub data Look : Type 0 where
  no_object : Look
  no_property : Look
  off : Look
  on : Look

-- how `_verify_adapter_powered` ends: the adapter has power, the warning is printed, or `props`
-- is used before it is bound; the last is that it is still in its loop
pub data Powering : Type 0 where
  powered : Powering
  warned : Powering
  unbound : Powering
  waiting : Powering

abbrev pub look_at : Look → Bool → Powering → Powering → Powering
look_at on bound next_bound next = powered
look_at off bound next_bound next = next_bound
look_at no_property bound next_bound next = next_bound
look_at no_object true next_bound next = next
look_at no_object false next_bound next = unbound

-- the loop, with the clock in milliseconds at each test and what the turn meets; whether `props`
-- is bound from an earlier turn
unfoldable pub power_turns : ℕ → Bool → List (ℕ × Look) → Powering
power_turns deadline bound [] = waiting
power_turns deadline bound ((now, look) ∷ more) =
    let next_bound = power_turns deadline true more in
    let next = power_turns deadline bound more in
    if ltb now deadline then look_at look bound next_bound next else warned

-- `timeout_s`, in milliseconds
abbrev pub power_timeout : ℕ
power_timeout = 10000

-- `_verify_adapter_powered`, called at a time
unfoldable pub verify_adapter_powered : ℕ → List (ℕ × Look) → Powering
unfolding power_turns
verify_adapter_powered now turns = power_turns (now + power_timeout) false turns
