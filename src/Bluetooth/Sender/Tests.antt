-- ===== src/Bluetooth/Sender/Tests.antt =====
-- A session's reports, and the theorems about them at these.
use toothkey.Base.{◌≡◌, refl, true, false, [], ◌∷◌}
use toothkey.Bluetooth.Sender.{
  Report, Link, new_link, safe_send, stop_hid_sender, drop_client, get, go_on, sender_turn,
}
use toothkey.Bluetooth.Sender.Order.{here, next, sends, turns, IsOrdered, Reach-IsOrdered}
use toothkey.Bluetooth.Sender.Drained.{passes, waiting, come_in, passes-come_in}

-- a press and its release on the interrupt channel
abbrev key_down : Report
key_down = (false, 161 ∷ 1 ∷ 0 ∷ 0 ∷ 4 ∷ [])

abbrev key_up : Report
key_up = (false, 161 ∷ 1 ∷ 0 ∷ 0 ∷ 0 ∷ [])

-- Both are accepted, the press is being sent, and its send fails.
abbrev failed : Link
failed = sender_turn false (
    sender_turn true
      (sender_turn true (sender_turn true (safe_send key_up (safe_send key_down new_link)))))

Reach-IsOrdered_example : IsOrdered failed
Reach-IsOrdered_example = Reach-IsOrdered (
    next
      (next
        (next (next (next (next here (sends key_down)) (sends key_up)) (turns true)) (turns true))
        (turns true))
      (turns false))

-- After that, nothing more is accepted, and the thread ends.
ends :
    (failed.connected ≡ false)
    × ((safe_send key_down failed).accepted ≡ key_down ∷ key_up ∷ [])
    × ((sender_turn true failed).sent ≡ [])
unfolding safe_send stop_hid_sender drop_client get go_on sender_turn
ends = (refl, refl, refl)

passes-come_in_example :
    passes 2 (come_in (key_down ∷ key_up ∷ []) (waiting [] [] []))
    ≡ waiting (key_down ∷ key_up ∷ []) (key_down ∷ key_up ∷ []) []
passes-come_in_example = passes-come_in [] [] (key_down ∷ key_up ∷ [])
