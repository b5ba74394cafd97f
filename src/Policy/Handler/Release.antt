-- ===== src/Policy/Handler/Release.antt =====
-- How the handler lets a grab go, and takes it again.
use toothkey.Base.{◌≡◌, refl, ◌∙◌, Bool, true, false, arith}
use toothkey.Policy.Capture.{Capture}
use toothkey.Policy.Handler.{
  Handler, running, stop_grab, set_grab_mode, start_listener, stop_listener, shutdown,
  on_grab_ended,
}
use toothkey.Policy.Handler.Honest.{
  IsHonest, idle_of_accounts, stop_grab-IsHonest, set_grab_mode-Reached,
}
use toothkey.Policy.Handler.Reachable.{Reach, Reach-IsHonest}

module _ (C : Capture) where
  open C use {Scan, Kernel, Idle}

  pub set_grab_mode_off :
      (peer : Bool) (scan : Scan) (h : Handler C) → (set_grab_mode C false peer scan h).1 ≡ false
  unfolding set_grab_mode
  set_grab_mode_off peer scan h = ground arith

  pub set_grab_mode_off-Idle :
      (peer : Bool) (scan : Scan) (h : Handler C)
      → IsHonest C h
      → Idle (set_grab_mode C false peer scan h).0.kernel
  set_grab_mode_off-Idle peer scan h v =
      let r = set_grab_mode-Reached C false peer scan h v in
      idle_of_accounts C _ _ r.honest.accounts (r.captured ∙ set_grab_mode_off peer scan h)

  -- In every reachable state, from a kernel with no grab, each way of letting go (the link drops,
  -- capture is lost or given up in a panic, the worker shuts down, the tray asks) leaves the
  -- kernel with no grab.
  pub let_go-Idle :
      {k : Kernel} {h : Handler C} (peer : Bool) (scan : Scan)
      → Idle k
      → Reach C k h
      → Idle (stop_listener C h).kernel
        × Idle (on_grab_ended C h).0.kernel
        × Idle (shutdown C h).kernel
        × Idle (set_grab_mode C false peer scan h).0.kernel
  unfolding stop_listener on_grab_ended shutdown
  let_go-Idle {h} peer scan idle r =
      let v = Reach-IsHonest C idle r in
      let gone = (stop_grab-IsHonest C h v).accounts in
      (gone, gone, gone, set_grab_mode_off-Idle peer scan h v)

  -- For an honest handler that captures, a grab survives a drop of the link: the drop releases the
  -- keyboards and keeps the mode armed, and when a peer is back and the keyboards can be grabbed,
  -- capture runs again.
  pub start_listener-stop_listener :
      (scan : Scan) (h : Handler C)
      → IsHonest C h
      → running C h ≡ true
      → (C.start scan (stop_listener C h).kernel).0 ≡ true
      → let down = stop_listener C h in
        let (up, result) = start_listener C true scan down in
        (running C down ≡ false)
        × Idle down.kernel
        × (down.grab_mode ≡ true)
        × (result ≡ true)
        × (running C up ≡ true)
        × (up.grab_mode ≡ true)
  unfolding stop_listener start_listener
  start_listener-stop_listener scan h v runs ready =
      let gone = (stop_grab-IsHonest C h v).accounts in
      let up = C.start_running scan (stop_grab C h).kernel gone ready in
      (
        refl,
        gone,
        v.armed runs,
        ground (arith, v.armed runs),
        ground (arith, v.armed runs, up),
        ground (arith, v.armed runs),
      )

  -- With no peer connected a grab is refused: whatever the keyboards would answer, none is touched.
  pub set_grab_mode_no_peer :
      (scan : Scan) (h : Handler C)
      → running C h ≡ false
      → set_grab_mode C true false scan h ≡ (record h { grab_mode = false }, false)
  unfolding set_grab_mode
  set_grab_mode_no_peer scan h idle = ground arith
