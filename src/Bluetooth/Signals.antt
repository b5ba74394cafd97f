-- ===== src/Bluetooth/Signals.antt =====
-- on_props_changed as far as it keeps the time of a drop, and _bluez_last_acl_drop_within. Times are
-- milliseconds of the monotonic clock, and 0 is none.
mod Tests
use toothkey.Base.{
  ℕ, ◌+◌, ◌-◌, ◌≡◌, refl, ap, ◌∙◌, Bool, true, false, not, ◌&&◌, ◌||◌, Option, none, some, List, [],
  ◌∷◌, ◌++◌, if◌then◌else◌, leb, ltb, ◌==◌, any, arith,
}

-- a PropertiesChanged signal: whether its interface is Device1, whether its path is one of our
-- peers', and the new value of Connected, if that changed
pub record Change : Type 0 where
  pub is_device : Bool
  pub is_ours : Bool
  pub connected : Option Bool

abbrev pub is_drop : Change → Bool
is_drop c = elim (c.connected) [ none ↦ false | some up ↦ c.is_device && not up ]

-- `_last_peer_acl_drop_at` after a signal at a time
unfoldable pub on_props_changed : ℕ → Change → ℕ → ℕ
on_props_changed now c drop_at = if is_drop c then now else drop_at

unfoldable pub signals : List (ℕ × Change) → ℕ → ℕ
unfolding on_props_changed
signals [] drop_at = drop_at
signals ((now, c) ∷ more) drop_at = signals more (on_props_changed now c drop_at)

-- `_bluez_last_acl_drop_within`
unfoldable pub last_acl_drop_within : ℕ → ℕ → ℕ → Bool
last_acl_drop_within since window drop_at =
    not (drop_at == 0) && (leb since drop_at && leb (drop_at - since) window)

-- no signal of the list is a drop
abbrev pub is_quiet : List (ℕ × Change) → Bool
is_quiet [] = true
is_quiet ((now, c) ∷ more) = not (is_drop c) && is_quiet more

signals-quiet :
    (more : List (ℕ × Change)) (drop_at : ℕ) → is_quiet more ≡ true → signals more drop_at ≡ drop_at
unfolding signals
signals-quiet [] drop_at h = refl
signals-quiet ((now, c) ∷ more) drop_at h = ground (arith, signals-quiet more drop_at)

on_props_changed-drop :
    (now : ℕ) (c : Change) (drop_at : ℕ) → is_drop c ≡ true → on_props_changed now c drop_at ≡ now
unfolding on_props_changed
on_props_changed-drop now c drop_at h = ap (λ t. if t then now else drop_at) h

-- Whatever signals came before: a page counts as refused exactly if the last drop of any device,
-- ours or not, came after the page and within the window.
pub last_acl_drop_within-signals :
    (earlier more : List (ℕ × Change)) (now since window drop_at : ℕ) (c : Change)
    → is_drop c ≡ true
    → is_quiet more ≡ true
    → last_acl_drop_within since window (signals (earlier ++ (now, c) ∷ more) drop_at)
      ≡ (not (now == 0) && (leb since now && leb (now - since) window))
unfolding last_acl_drop_within signals on_props_changed
last_acl_drop_within-signals [] more now since window drop_at c drop quiet =
    ap (last_acl_drop_within since window)
      (ap (signals more) (on_props_changed-drop now c drop_at drop) ∙ signals-quiet more now quiet)
last_acl_drop_within-signals ((t, e) ∷ earlier) more now since window drop_at c drop quiet =
    last_acl_drop_within-signals earlier more now since window (on_props_changed t e drop_at) c drop
      quiet
