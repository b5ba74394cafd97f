-- ===== src/Bluetooth/Signals/Tests.antt =====
-- A drop of somebody else's headset.
use toothkey.Base.{◌≡◌, refl, true, false, some, [], ◌∷◌}
use toothkey.Bluetooth.Signals.{Change, signals, last_acl_drop_within}

abbrev headset_drops : Change
headset_drops = record { is_device = true; is_ours = false; connected = some false }

-- the page at 10 s counts as refused
bystander_counts : last_acl_drop_within 10000 5000 (signals ((12000, headset_drops) ∷ []) 0) ≡ true
unfolding last_acl_drop_within signals
bystander_counts = refl
