-- ===== src/Bluetooth/Reconnect/Wake.antt =====
-- The watchdog's wait when the user unpauses the peer.
use toothkey.Base.{◌≡◌, true, false, arith}
use toothkey.Bluetooth.Session.{Session, unpause_client}
use toothkey.Bluetooth.Reconnect.{waits_out}

-- If a paused peer is unpaused during the wait of the watchdog, the wait ends. If it is unpaused before
-- the clear, but after the turn has found it paused, the wait runs to its timeout.
pub waits_out-unpause_client :
    (s : Session)
    → s.paused ≡ true
    → (waits_out (λ r. r) unpause_client s ≡ false)
      × (waits_out unpause_client (λ r. r) s ≡ true)
      × ((unpause_client s).paused ≡ false)
unfolding waits_out unpause_client
waits_out-unpause_client s h = ground arith
