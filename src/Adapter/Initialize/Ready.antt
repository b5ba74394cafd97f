-- ===== src/Adapter/Initialize/Ready.antt =====
-- What initialize leaves, when it returns and when it raises.
use toothkey.Base.{ap, ◌∙◌, ◌≡◌, refl, Bool, true, false, some, is_some, ◌==◌, arith}
use toothkey.Profile.Registration.{
  new_agent, new_profile, register_hid_profile, unregister_hid_profile,
}
use toothkey.Adapter.Initialize.{
  World, Handler, quiet_obex_daemons, open_up, remedy, register_all, check_before, after_remedy,
  after_register, after_power, set_up, is_unbound, prepare, initialize,
}

-- BlueZ holds the agent and the profile
abbrev pub IsRegistered : Handler → Type 0
IsRegistered h = (h.registry.has_agent ≡ true) × (is_some (h.registry.profile) ≡ true)

-- a step that starts nothing
abbrev pub StartsNothing : Handler → Handler → Type 0
StartsNothing h h' =
    (h'.running ≡ h.running) × ((h'.watchdog ≡ h.watchdog) × (h'.adapter_path ≡ h.adapter_path))

check_before-StartsNothing : (w : World) (h : Handler) → StartsNothing h (check_before w h)
unfolding check_before quiet_obex_daemons
check_before-StartsNothing w h = ground arith

register_all-StartsNothing : (w : World) (h : Handler) → StartsNothing h ((register_all w h).0)
unfolding register_all
register_all-StartsNothing w h = ground arith

register_all-IsRegistered :
    (w : World) (h : Handler) → (register_all w h).1 ≡ true → IsRegistered ((register_all w h).0)
unfolding register_all new_agent new_profile register_hid_profile
register_all-IsRegistered w h ok = ground arith

remedy-StartsNothing : (w : World) (h : Handler) → StartsNothing h ((remedy w h).0)
unfolding remedy quiet_obex_daemons
remedy-StartsNothing w h = ground arith

remedy-IsRegistered :
    (w : World) (h : Handler)
    → IsRegistered h
    → (remedy w h).1 ≡ true
    → IsRegistered ((remedy w h).0)
unfolding remedy register_hid_profile unregister_hid_profile quiet_obex_daemons
remedy-IsRegistered w h registered ok = ground arith

-- what is there when the set-up is complete
abbrev pub IsReady : World → Handler → Type 0
IsReady w h =
    IsRegistered h
    × ((is_some (h.adapter_path) ≡ true)
        × ((h.control_server ≡ true)
            × ((h.interrupt_server ≡ true)
                × ((h.running ≡ true)
                    × ((h.watchdog ≡ true) × (h.pairing ≡ some (w.bonded == 0)))))))

open_up-IsReady :
    (w : World) (h : Handler)
    → IsRegistered h
    → is_some (h.adapter_path) ≡ true
    → (open_up w h).1 ≡ true
    → IsReady w ((open_up w h).0)
unfolding open_up
open_up-IsReady w h registered found ok = ground arith

open_up-raises :
    (w : World) (h : Handler) → (open_up w h).1 ≡ false → StartsNothing h ((open_up w h).0)
unfolding open_up
open_up-raises w h raised = ground arith

after_remedy-IsReady :
    (w : World) (r : Handler × Bool)
    → (r.1 ≡ true → IsRegistered (r.0))
    → is_some (r.0.adapter_path) ≡ true
    → (after_remedy w r).1 ≡ true
    → IsReady w ((after_remedy w r).0)
unfolding after_remedy
after_remedy-IsReady w (h, true) registered found ok =
    open_up-IsReady w h (registered refl) found ok
after_remedy-IsReady w (h, false) registered found ok = cc

after_remedy-raises :
    (w : World) (r : Handler × Bool)
    → (after_remedy w r).1 ≡ false
    → StartsNothing (r.0) ((after_remedy w r).0)
unfolding after_remedy
after_remedy-raises w (h, true) raised = open_up-raises w h raised
after_remedy-raises w (h, false) raised = (refl, (refl, refl))

StartsNothing-trans : (a b c : Handler) → StartsNothing a b → StartsNothing b c → StartsNothing a c
StartsNothing-trans a b c p q = (q.0 ∙ p.0, (q.1.0 ∙ p.1.0, q.1.1 ∙ p.1.1))

found-StartsNothing :
    (a b : Handler)
    → StartsNothing a b
    → is_some (a.adapter_path) ≡ true
    → is_some (b.adapter_path) ≡ true
found-StartsNothing a b p found = ap is_some (p.1.1) ∙ found

after_register-IsReady :
    (w : World) (r : Handler × Bool)
    → (r.1 ≡ true → IsRegistered (r.0))
    → is_some (r.0.adapter_path) ≡ true
    → (after_register w r).1 ≡ true
    → IsReady w ((after_register w r).0)
unfolding after_register
after_register-IsReady w (h, false) registered found ok = cc
after_register-IsReady w (h, true) registered found ok =
    after_remedy-IsReady w (remedy w h) (remedy-IsRegistered w h (registered refl))
      (found-StartsNothing h ((remedy w h).0) (remedy-StartsNothing w h) found) ok

after_register-raises :
    (w : World) (r : Handler × Bool)
    → (after_register w r).1 ≡ false
    → StartsNothing (r.0) ((after_register w r).0)
unfolding after_register
after_register-raises w (h, true) raised =
    StartsNothing-trans h ((remedy w h).0) ((after_remedy w (remedy w h)).0)
      (remedy-StartsNothing w h) (after_remedy-raises w (remedy w h) raised)
after_register-raises w (h, false) raised = (refl, (refl, refl))

check_before-register_all :
    (w : World) (h : Handler) → StartsNothing h ((register_all w (check_before w h)).0)
check_before-register_all w h =
    StartsNothing-trans h (check_before w h) ((register_all w (check_before w h)).0)
      (check_before-StartsNothing w h) (register_all-StartsNothing w (check_before w h))

after_power-IsReady :
    (broken : Bool) (w : World) (h : Handler)
    → is_some (h.adapter_path) ≡ true
    → (after_power broken w h).1 ≡ true
    → IsReady w ((after_power broken w h).0)
unfolding after_power
after_power-IsReady true w h found ok = cc
after_power-IsReady false w h found ok =
    after_register-IsReady w (register_all w (check_before w h))
      (register_all-IsRegistered w (check_before w h))
      (found-StartsNothing h ((register_all w (check_before w h)).0) (check_before-register_all w h)
        found)
      ok

after_power-raises :
    (broken : Bool) (w : World) (h : Handler)
    → (after_power broken w h).1 ≡ false
    → StartsNothing h ((after_power broken w h).0)
unfolding after_power
after_power-raises true w h raised = (refl, (refl, refl))
after_power-raises false w h raised =
    StartsNothing-trans h ((register_all w (check_before w h)).0) ((after_power false w h).0)
      (check_before-register_all w h)
      (after_register-raises w (register_all w (check_before w h)) raised)

set_up-IsReady :
    (w : World) (h : Handler)
    → is_some (h.adapter_path) ≡ true
    → (set_up w h).1 ≡ true
    → IsReady w ((set_up w h).0)
unfolding set_up
set_up-IsReady w h = after_power-IsReady (is_unbound (w.powering)) w h

set_up-raises :
    (w : World) (h : Handler) → (set_up w h).1 ≡ false → StartsNothing h ((set_up w h).0)
unfolding set_up
set_up-raises w h = after_power-raises (is_unbound (w.powering)) w h

prepare-keeps :
    (w : World) (h : Handler)
    → ((prepare w h).running ≡ h.running) × ((prepare w h).watchdog ≡ h.watchdog)
unfolding prepare quiet_obex_daemons
prepare-keeps w h = ground arith

-- Whatever the set-up meets: if initialize returns, BlueZ holds the agent and a HID profile, the
-- adapter is known, both server sockets are bound, the handler runs with its watchdog, and the
-- pairing mode was asked for exactly if no peer is bonded.
pub initialize-IsReady :
    (w : World) (h : Handler) → (initialize w h).1 ≡ true → IsReady w ((initialize w h).0)
unfolding initialize
initialize-IsReady w h ok = ground (arith, set_up-IsReady w (prepare w h))

-- Whatever the set-up meets: if initialize raises, the handler is not set running and no watchdog
-- is started.
pub initialize-raises :
    (w : World) (h : Handler)
    → (initialize w h).1 ≡ false
    → ((initialize w h).0.running ≡ h.running) × ((initialize w h).0.watchdog ≡ h.watchdog)
unfolding initialize quiet_obex_daemons
initialize-raises w h raised = ground (arith, set_up-raises w (prepare w h), prepare-keeps w h)

-- The look at the adapter before the registration stops no daemon: prepare_adapter has used up
-- the one time.
pub check_before-prepare : (w : World) (h : Handler) → check_before w (prepare w h) ≡ prepare w h
unfolding check_before prepare quiet_obex_daemons
check_before-prepare w h = ground arith
