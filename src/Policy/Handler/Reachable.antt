-- ===== src/Policy/Handler/Reachable.antt =====
-- The handler under every order of calls, as the tray's commands, the Bluetooth thread, the reader
-- and the paste threads may make them. The class lock makes each call one step; a paste thread, which
-- ends without it, takes two.
use toothkey.Base.{
  refl, Bool, true, false, not, ◌||◌, ◌≡◌, some, ltb, none, arith, Bool-cases, Option-cases, inl,
  inr,
}
use toothkey.Policy.Capture.{Capture}
use toothkey.Policy.Handler.{
  Handler, object_running, running, set_grab_mode, start_listener, stop_listener, shutdown,
  on_grab_ended, reader_dies, start_clipboard_paste, finish_paste, unmute, reader_works,
}
use toothkey.Policy.Handler.Honest.{
  Accounts, IsHonest, stop_grab-IsHonest, stopped-Reached, set_grab_mode-Reached, disarmed-IsHonest,
}

module _ (C : Capture) where
  open C use {Scan, Object, Kernel, Round, Idle, dies}

  pub data Step (h : Handler C) : Handler C → Type 0 where
    asked : (on peer : Bool) (scan : Scan) → Step h (set_grab_mode C on peer scan h).0
    linked : (peer : Bool) (scan : Scan) → Step h (start_listener C peer scan h).0
    unlinked : Step h (stop_listener C h)
    ended : Step h (on_grab_ended C h).0
    died : Step h (reader_dies C h)
    quit : Step h (shutdown C h)
    pasted : Step h (start_clipboard_paste C h).0
    typed : Step h (finish_paste C h)
    unmuted : Step h (unmute C h)
    worked :
        (g : Object) (r : Round g h.kernel) → h.grabber ≡ some g → Step h (reader_works C h g r)

  -- the class attributes as they are first, over a kernel with no grab
  abbrev pub initial : Kernel → Handler C
  initial k = record {
    grab_mode = false;
    grabber = none;
    kernel = k;
    active = true;
    paste_in_progress = false;
    muted = false;
    paste_on_current = false;
    unmuting = 0;
  }

  pub data Reach (k : Kernel) : Handler C → Type 0 where
    here : Reach k (initial k)
    next : {h h' : Handler C} → Reach k h → Step h h' → Reach k h'

  pub start_listener-IsHonest :
      (peer : Bool) (scan : Scan) (h : Handler C)
      → IsHonest C h
      → IsHonest C (start_listener C peer scan h).0
  unfolding start_listener
  start_listener-IsHonest peer scan h v = elim (Bool-cases (not h.grab_mode || running C h)) [
    | inl keep ↦ simp keep v
    | inr take ↦
        let h0 = record h { grab_mode = false } in
        simp take
          (set_grab_mode-Reached C true peer scan h0
            (disarmed-IsHonest C h v (ground arith))).honest
  ]

  reader_dies-IsHonest : (h : Handler C) → IsHonest C h → IsHonest C (reader_dies C h)
  unfolding reader_dies
  reader_dies-IsHonest h v = elim (Option-cases h.grabber) [
    | inl n ↦ rw (n, reader_dies) v
    | inr (g, e) ↦
        let held : C.Holds g h.kernel = rw (e, Accounts) at v.accounts in
        let dead = C.dies_stopped g h.kernel in
        rw (e, reader_dies)
          (record {
            accounts = C.dies_holds g h.kernel held;
            armed = λ r. absurd (ground (arith, dead));
            muted_for = v.muted_for;
          })
  ]

  start_clipboard_paste-IsHonest :
      (h : Handler C) → IsHonest C h → IsHonest C (start_clipboard_paste C h).0
  unfolding start_clipboard_paste
  start_clipboard_paste-IsHonest h v = elim (Bool-cases h.paste_in_progress) [
    | inl busy ↦ simp busy v
    | inr free ↦ elim (Option-cases h.grabber) [
      | inl n ↦ simp (free, n) v
      | inr (g, e) ↦
          simp (free, e)
            (record {
              accounts = rw (e, Accounts) at v.accounts;
              armed = λ r. v.armed (rw (e, object_running) r);
              muted_for = λ m. refl;
            })
    ]
  ]

  pub shutdown-IsHonest : (h : Handler C) → IsHonest C h → IsHonest C (shutdown C h)
  unfolding shutdown
  shutdown-IsHonest h v =
      let same : IsHonest C (record h { active = false }) = record {
        accounts = v.accounts;
        armed = v.armed;
        muted_for = v.muted_for;
      } in
      (stopped-Reached C (record h { active = false }) same).honest

  finish_paste-IsHonest : (h : Handler C) → IsHonest C h → IsHonest C (finish_paste C h)
  unfolding finish_paste
  finish_paste-IsHonest h v = elim (Bool-cases h.paste_in_progress) [
    | inl typing ↦
        rw (typing, finish_paste)
          (record {
            accounts = v.accounts;
            armed = v.armed;
            muted_for = λ m. let waits = v.muted_for m in ground arith;
          })
    | inr none_typed ↦ simp none_typed v
  ]

  unmute-IsHonest : (h : Handler C) → IsHonest C h → IsHonest C (unmute C h)
  unfolding unmute
  unmute-IsHonest h v = elim (Bool-cases (ltb 0 h.unmuting)) [
    | inl some_end ↦
        rw (some_end, unmute)
          (record {
            accounts = v.accounts;
            armed = v.armed;
            muted_for = λ m. absurd (ground arith);
          })
    | inr none_ends ↦ rw (none_ends, unmute) v
  ]

  reader_works-IsHonest :
      (h : Handler C) (g : Object) (r : Round g h.kernel)
      → h.grabber ≡ some g
      → IsHonest C h
      → IsHonest C (reader_works C h g r)
  unfolding reader_works
  reader_works-IsHonest h g r e v =
      let held : C.Holds g h.kernel = rw (e, Accounts) at v.accounts in
      let runs : running C h ≡ true = rw (e, object_running) (C.round_runs g h.kernel r) in
      record {
        accounts = C.works_holds g h.kernel r held;
        armed = λ again. v.armed runs;
        muted_for = v.muted_for;
      }

  Step-IsHonest : {h h' : Handler C} → Step h h' → IsHonest C h → IsHonest C h'
  Step-IsHonest {h} (asked on peer scan) v = (set_grab_mode-Reached C on peer scan h v).honest
  Step-IsHonest {h} (linked peer scan) v = start_listener-IsHonest peer scan h v
  Step-IsHonest {h} unlinked v = unfold stop_listener in stop_grab-IsHonest C h v
  Step-IsHonest {h} ended v = unfold on_grab_ended in (stopped-Reached C h v).honest
  Step-IsHonest {h} died v = reader_dies-IsHonest h v
  Step-IsHonest {h} quit v = shutdown-IsHonest h v
  Step-IsHonest {h} pasted v = start_clipboard_paste-IsHonest h v
  Step-IsHonest {h} typed v = finish_paste-IsHonest h v
  Step-IsHonest {h} unmuted v = unmute-IsHonest h v
  Step-IsHonest {h} (worked g r e) v = reader_works-IsHonest h g r e v

  -- In every state reachable from a kernel with no grab, the handler is honest: what it says it
  -- holds is what the kernel has granted, a grab that runs was asked for, and keys are muted only
  -- while a paste thread that began with the current grab has yet to unmute it: one that is typing,
  -- or is between the two assignments at its end.
  pub Reach-IsHonest : {k : Kernel} {h : Handler C} → Idle k → Reach k h → IsHonest C h
  Reach-IsHonest idle here = record {
    accounts = idle;
    armed = λ e. absurd (ground arith);
    muted_for = λ e. absurd (ground arith);
  }
  Reach-IsHonest idle (next r s) = Step-IsHonest s (Reach-IsHonest idle r)
