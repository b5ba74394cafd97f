-- ===== src/Bluetooth/Bluez/First.antt =====
-- Which adapter the worker takes, and which devices it disconnects at its end.
use toothkey.Base.{
  ℕ, ◌≡◌, refl, Bool, Option, none, some, List, [], ◌∷◌, ◌++◌, All, any, arith, ◌==◌, ◌&&◌,
}
use toothkey.Bluetooth.Bluez.{find_adapter, or_false, disconnect_all}

-- no object before it is an adapter
abbrev pub NoAdapter : List (ℕ × Option ℕ) → Type 0
NoAdapter = All λ (o : ℕ × Option ℕ). o.1 ≡ none

-- The adapter is the first of the managed objects that has the interface, and none if none has.
pub find_adapter-first :
    (objects more : List (ℕ × Option ℕ)) (path mac : ℕ)
    → NoAdapter objects
    → (find_adapter objects ≡ none)
      × (find_adapter (objects ++ (path, some mac) ∷ more) ≡ some (path, mac))
unfolding find_adapter
find_adapter-first [] more path mac h = (refl, refl)
find_adapter-first ((p, none) ∷ objects) more path mac (h, hs) =
    find_adapter-first objects more path mac hs
find_adapter-first ((p, some m) ∷ objects) more path mac (h, hs) = cc

-- At the end each device that is connected is asked to disconnect, and no other.
pub disconnect_all-connected :
    (objects : List (ℕ × Option Bool)) (path : ℕ)
    → any (λ (p : ℕ). p == path) (disconnect_all objects)
      ≡ any (λ (o : ℕ × Option Bool). o.0 == path && or_false o.1) objects
unfolding disconnect_all
disconnect_all-connected [] path = refl
disconnect_all-connected ((p, dev) ∷ objects) path =
    ground (arith, disconnect_all-connected objects path)
