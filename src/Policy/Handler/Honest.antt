-- ===== src/Policy/Handler/Honest.antt =====
-- What the handler claims of a grab, against what it holds.
use toothkey.Base.{
  ◌≡◌, refl, Bool, true, false, not, ◌&&◌, ◌||◌, ltb, Option, none, some, arith, Bool-cases, inl,
  inr,
}
use toothkey.Policy.Capture.{Capture}
use toothkey.Policy.Handler.{
  Handler, object_running, running, stop_object, stop_grab, take_grab, set_grab_mode,
}

module _ (C : Capture) where
  open C use {Object, Kernel, Scan, start, stop, is_running, dies, Holds, Idle}

  abbrev pub Accounts : Option Object → Kernel → Type 0
  Accounts none k = Idle k
  Accounts (some g) k = Holds g k

  -- Some paste thread of the current object has yet to unmute it.
  abbrev pub will_unmute : Handler C → Bool
  will_unmute h = (h.paste_in_progress && h.paste_on_current) || ltb 0 h.unmuting

  -- The kernel's grabs are those of the current object; one that runs was asked for; and the
  -- reader is muted only while a paste thread of it has yet to unmute it.
  pub record IsHonest (h : Handler C) : Type 0 where
    pub accounts : Accounts h.grabber h.kernel
    pub armed : running C h ≡ true → h.grab_mode ≡ true
    pub muted_for : h.muted ≡ true → will_unmute h ≡ true

  pub idle_of_accounts :
      (g : Option Object) (k : Kernel) → Accounts g k → object_running C g ≡ false → Idle k
  idle_of_accounts none k a r = a
  idle_of_accounts (some g) k a r = C.dead_idle g k a r

  stopped_idle : (g : Option Object) (k : Kernel) → Accounts g k → Idle (stop_object C g k)
  stopped_idle none k a = a
  stopped_idle (some g) k a = C.stop_idle g k a

  still-Accounts :
      (g : Option Object) (k k' : Kernel)
      → Accounts g k
      → object_running C g ≡ false
      → Idle k'
      → Accounts g k'
  still-Accounts none k k' a r i = i
  still-Accounts (some g) k k' a r i = C.dead_holds g k k' a r i

  pub stop_grab-IsHonest : (h : Handler C) → IsHonest h → IsHonest (stop_grab C h)
  unfolding stop_grab
  stop_grab-IsHonest h v = record {
    accounts = stopped_idle h.grabber h.kernel v.accounts;
    armed = λ e. cc;
    muted_for = λ e. absurd (ground arith);
  }

  -- What `set_grab_mode` promises: it returns the state reached, which is what `grab_mode` says
  -- and what is so.
  pub record Reached (result : Handler C × Bool) : Type 0 where
    pub honest : IsHonest result.0
    pub mode : result.0.grab_mode ≡ result.1
    pub captured : running C result.0 ≡ result.1

  take_grab-Reached :
      (scan : Scan) (h : Handler C)
      → IsHonest h
      → running C h ≡ false
      → Reached (take_grab C scan h)
  unfolding take_grab
  take_grab-Reached scan h v idle =
      let k' = (start scan h.kernel).2 in
      let no_grab = idle_of_accounts h.grabber h.kernel v.accounts idle in
      elim (Bool-cases (start scan h.kernel).0) [
        | inl taken ↦
            rw (taken, take_grab)
              (record {
                honest = record {
                  accounts = C.start_holds scan h.kernel no_grab;
                  armed = λ e. refl;
                  muted_for = λ e. absurd (ground arith);
                };
                mode = refl;
                captured = C.start_running scan h.kernel no_grab taken;
              })
        | inr refused ↦
            rw (refused, take_grab)
              (record {
                honest = record {
                  accounts =
                      still-Accounts h.grabber h.kernel k' v.accounts idle
                        (C.start_refused scan h.kernel no_grab refused);
                  armed = λ e. absurd (ground arith);
                  muted_for = v.muted_for;
                };
                mode = refl;
                captured = idle;
              })
      ]

  not_running : (h : Handler C) → IsHonest h → h.grab_mode ≡ false → running C h ≡ false
  not_running h v off = elim (Bool-cases (running C h)) [
    | inl r ↦ absurd (ground (arith, v.armed r))
    | inr r ↦ r
  ]

  pub disarmed-IsHonest :
      (h : Handler C) → IsHonest h → running C h ≡ false → IsHonest (record h { grab_mode = false })
  disarmed-IsHonest h v idle = record {
    accounts = v.accounts;
    armed = λ e. absurd (ground arith);
    muted_for = v.muted_for;
  }

  pub stopped-Reached :
      (h : Handler C) → IsHonest h → Reached (record (stop_grab C h) { grab_mode = false }, false)
  unfolding stop_grab
  stopped-Reached h v = record {
    honest = disarmed-IsHonest (stop_grab C h) (stop_grab-IsHonest h v) refl;
    mode = refl;
    captured = refl;
  }

  -- From an honest handler, whatever is asked for, whether a peer is there, and whether the
  -- keyboards can be grabbed, the state returned is the state reached: it is the value of
  -- `grab_mode`, and whether capture runs, and the handler is honest again.
  pub set_grab_mode-Reached :
      (on peer_connected : Bool) (scan : Scan) (h : Handler C)
      → IsHonest h
      → Reached (set_grab_mode C on peer_connected scan h)
  unfolding set_grab_mode
  set_grab_mode-Reached false peer scan h v =
      elim (Bool-cases (not h.grab_mode && not (running C h))) [
        | inl off ↦ rw off (record { honest = v; mode = ground arith; captured = ground arith })
        | inr on ↦ rw on (stopped-Reached h v)
      ]
  set_grab_mode-Reached true peer scan h v = elim (Bool-cases (h.grab_mode && running C h)) [
    | inl held ↦ rw held (record { honest = v; mode = ground arith; captured = ground arith })
    | inr free ↦
        let idle : running C h ≡ false = ground (arith, not_running h v) in
        elim (Bool-cases peer) [
          | inl there ↦ rw (free, there) (take_grab-Reached scan h v idle)
          | inr gone ↦
              rw (free, gone)
                (record { honest = disarmed-IsHonest h v idle; mode = refl; captured = idle })
        ]
  ]
