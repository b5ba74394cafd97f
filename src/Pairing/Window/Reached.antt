-- ===== src/Pairing/Window/Reached.antt =====
-- What set_pairing_mode reaches, and the end of a window.
use toothkey.Base.{
  ℕ, ◌+◌, ◌-◌, ◌*◌, ◌<◌, ◌≤◌, ◌≡◌, refl, Bool, true, false, not, some, List, [], ◌∷◌, arith, ◌==◌,
  any, ◌⊎◌,
}
use toothkey.Pairing.Window.{
  Adapter, Pairing, Bond, is_bonded, pairing_secs_left, is_pairing, set_props, start_pairing_expiry,
  set_pairing_mode, bonded_peer_count, apply_initial_pairing_mode, pairing_window_s,
}

-- The seconds left are those of the clock, to the nearest; none are left of a window that is over.
pub pairing_secs_left-bounds :
    (until now : ℕ)
    → now ≤ until
    → 0 < until
    → (until - now ≤ pairing_secs_left until now * 1000 + 500)
      × (pairing_secs_left until now * 1000 ≤ until - now + 500)
unfolding pairing_secs_left
pairing_secs_left-bounds until now h pos = (ground arith, ground arith)

-- Both properties of the adapter are off or run out by BlueZ's own timeout.
pub record IsBounded (a : Adapter) : Type 0 where
  pub pairable : a.pairable ≡ true → 0 < a.pairable_timeout
  pub discoverable : a.discoverable ≡ true → 0 < a.discoverable_timeout

-- For a window of at least a second, an adapter whose flags are off or run out by BlueZ's own
-- timeout stays so: whichever call of an opening fails, and for a closing none of whose calls
-- fails.
pub set_pairing_mode-IsBounded :
    (on : Bool) (window_s done now : ℕ) (p : Pairing)
    → 0 < window_s
    → (on ≡ true) ⊎ (4 ≤ done)
    → IsBounded p.adapter
    → IsBounded (set_pairing_mode on window_s done now p).0.adapter
unfolding set_pairing_mode set_props start_pairing_expiry
set_pairing_mode-IsBounded on window_s done now p w safe h = record {
  pairable = λ e. ground (arith, h.pairable);
  discoverable = λ e. ground (arith, h.discoverable);
}

opened-is_pairing :
    (now window_s : ℕ) → 0 < window_s → is_pairing (now + window_s * 1000) now ≡ true
unfolding is_pairing pairing_secs_left
opened-is_pairing now window_s w = ground arith

closed-is_pairing : (now : ℕ) → is_pairing 0 now ≡ false
unfolding is_pairing pairing_secs_left
closed-is_pairing now = refl

-- With a bus, an adapter and no failure, the mode asked for is the mode reached: it is returned, the
-- adapter has both flags so, and the tray is told so, for a window of at least a second.
pub set_pairing_mode-reached :
    (on : Bool) (window_s done now : ℕ) (p : Pairing)
    → 0 < window_s
    → p.bus ≡ true
    → p.adapter_path ≡ true
    → 4 ≤ done
    → let (p', reached) = set_pairing_mode on window_s done now p in
      (reached ≡ on)
      × (p'.adapter.pairable ≡ on)
      × (p'.adapter.discoverable ≡ on)
      × (is_pairing p'.pairing_until now ≡ on)
unfolding set_pairing_mode set_props start_pairing_expiry
set_pairing_mode-reached on window_s done now p w bus adapter fine = (
  ground arith,
  ground arith,
  ground arith,
  ground (arith, opened-is_pairing now window_s w, closed-is_pairing now),
)

count-any : (bonds : List Bond) → (bonded_peer_count (some bonds) == 0) ≡ not (any is_bonded bonds)
unfolding bonded_peer_count
count-any [] = refl
count-any (b ∷ bonds) = ground (arith, count-any bonds)

-- With a bus, an adapter and no failure, the worker starts pairable exactly if BlueZ knows no
-- bonded peer.
pub apply_initial_pairing_mode-pairable :
    (bonds : List Bond) (done now : ℕ) (p : Pairing)
    → p.bus ≡ true
    → p.adapter_path ≡ true
    → 4 ≤ done
    → (apply_initial_pairing_mode (some bonds) done now p).0.adapter.pairable
      ≡ not (any is_bonded bonds)
unfolding apply_initial_pairing_mode
apply_initial_pairing_mode-pairable bonds done now p bus adapter fine =
    let closed =
      set_pairing_mode-reached false pairing_window_s done now p (omega arith) bus adapter fine in
    let opened =
      set_pairing_mode-reached true pairing_window_s done now p (omega arith) bus adapter fine in
    ground (arith, count-any bonds, closed.1, opened.1)
