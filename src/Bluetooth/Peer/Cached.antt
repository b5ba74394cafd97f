-- ===== src/Bluetooth/Peer/Cached.antt =====
-- The address that is saved is the one that is loaded.
use toothkey.Base.{
  ℕ, ◌≡◌, refl, ap, ◌∙◌, false, Option, some, [], ◌∷◌, Text, is_space, strip, lstrip, rstrip, All,
  arith, ◌==◌,
}
use toothkey.Bluetooth.Peer.{
  first_line, load_client_mac_address_cache, save_client_mac_address_cache,
}

-- no character that strip would take off, so no end of a line either
abbrev pub IsSolid : Text → Type 0
IsSolid s = All (λ c. is_space c ≡ false) s

not_newline : (c : ℕ) → is_space c ≡ false → (c == 10) ≡ false
not_newline c h = ground arith

first_line-IsSolid : (s : Text) → IsSolid s → first_line s ≡ s
first_line-IsSolid [] h = refl
first_line-IsSolid (c ∷ s) h = simp (not_newline c (h.0), first_line-IsSolid s (h.1))

rstrip-IsSolid : (s : Text) → IsSolid s → rstrip s ≡ s
rstrip-IsSolid [] h = refl
rstrip-IsSolid (c ∷ s) h = simp (h.0, rstrip-IsSolid s (h.1))

lstrip-IsSolid : (s : Text) → IsSolid s → lstrip s ≡ s
lstrip-IsSolid [] h = refl
lstrip-IsSolid (c ∷ s) h = simp (h.0)

-- An address without white space that is saved is the one that is loaded, whatever was known
-- before.
pub load_client_mac_address_cache-save :
    (mac : Text) (known : Option Text)
    → IsSolid mac
    → load_client_mac_address_cache (some (save_client_mac_address_cache mac)) known ≡ some mac
unfolding load_client_mac_address_cache save_client_mac_address_cache
load_client_mac_address_cache-save mac known solid = ap some (
    ap strip (first_line-IsSolid mac solid)
    ∙ (ap lstrip (rstrip-IsSolid mac solid) ∙ lstrip-IsSolid mac solid))
