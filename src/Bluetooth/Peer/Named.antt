-- ===== src/Bluetooth/Peer/Named.antt =====
-- Whose name the tray is told.
use toothkey.Base.{
  ℕ, ◌≡◌, ◌⊎◌, inl, inr, refl, Bool, true, false, not, ◌&&◌, ◌||◌, Option, some, List, [], ◌∷◌,
  ◌++◌, Text, text, same_text, same_text_refl, same_text→eq, ends_with, is_empty, arith,
}
use toothkey.Bluetooth.Peer.{
  underscored, device_path, is_path_of, is_interesting_path, resolve_display_name, Turn, name_turn,
  name_refresh,
}

ends_with-append : (s p : Text) → ends_with p (s ++ p) ≡ true
ends_with-append [] [] = refl
ends_with-append [] (c ∷ p) = ground (arith, same_text_refl (c ∷ p))
ends_with-append (c ∷ s) p = ground (arith, ends_with-append s p)

is_path_of-device_path : (c : ℕ) (mac : Text) → is_path_of (device_path (c ∷ mac)) (c ∷ mac) ≡ true
unfolding device_path
is_path_of-device_path c mac =
    ends_with-append (text "/org/bluez/hci0/dev_") (underscored (c ∷ mac))

is_empty-device_path : (mac : Text) → is_empty (device_path mac) ≡ false
unfolding device_path
is_empty-device_path mac = refl

interesting :
    (path client paused : Bool)
    → path ≡ false
    → (client ≡ true) ⊎ (paused ≡ true)
    → (not path && (client || paused)) ≡ true
interesting path client paused e h = ground arith

-- The object of the connected peer, and that of the peer that is paused, is one that is logged.
pub is_interesting_path-device_path :
    (c : ℕ) (mac other : Text)
    → (is_interesting_path (c ∷ mac) other (device_path (c ∷ mac)) ≡ true)
      × (is_interesting_path other (c ∷ mac) (device_path (c ∷ mac)) ≡ true)
unfolding is_interesting_path
is_interesting_path-device_path c mac other = (
  interesting _ _ _ (is_empty-device_path (c ∷ mac)) (inl (is_path_of-device_path c mac)),
  interesting _ _ _ (is_empty-device_path (c ∷ mac)) (inr (is_path_of-device_path c mac)),
)

-- a turn at which the session was still this peer's, and the lookup gave a name
pub data FoundIn : Text → Text → List Turn → Type 0 where
  here :
      {mac name : Text} {t : Turn} {turns : List Turn}
      → t.gone ≡ false
      → t.client_mac ≡ mac
      → resolve_display_name mac (t.looked_up) ≡ name
      → FoundIn mac name (t ∷ turns)
  there :
      {mac name : Text} {t : Turn} {turns : List Turn}
      → FoundIn mac name turns
      → FoundIn mac name (t ∷ turns)

-- the name of this turn, or one of a later turn
name_turn-sets :
    (mac : Text) (gone current : Bool) (name : Text) (rest : Option Text) (set : Text)
    → name_turn mac gone current name rest ≡ some set
    → ((gone ≡ false)
        × ((current ≡ true)
            × ((name ≡ set) × ((is_empty set ≡ false) × (same_text set mac ≡ false)))))
      ⊎ (rest ≡ some set)
unfolding name_turn
name_turn-sets mac true current name rest set h = cc
name_turn-sets mac false false name rest set h = cc
name_turn-sets mac false true name rest set h = ground arith

-- A name that the refresh sets is not empty and not just the address, and comes from a lookup of
-- this peer at a turn at which the session was still with it.
pub name_refresh-FoundIn :
    (mac : Text) (turns : List Turn) (name : Text)
    → name_refresh mac turns ≡ some name
    → (is_empty name ≡ false) × ((same_text name mac ≡ false) × FoundIn mac name turns)
unfolding name_refresh
name_refresh-FoundIn mac [] name h = cc
name_refresh-FoundIn mac (t ∷ turns) name h =
    elim (name_turn-sets mac (t.gone) (same_text (t.client_mac) mac)
      (resolve_display_name mac (t.looked_up)) (name_refresh mac turns) name h) [
        | inl (stays, (same, (named, (some_name, no_address)))) ↦
            (some_name, (no_address, here stays (same_text→eq (t.client_mac) mac same) named))
        | inr later ↦
            let (some_name, (no_address, found)) = name_refresh-FoundIn mac turns name later in
            (some_name, (no_address, there found))
      ]
