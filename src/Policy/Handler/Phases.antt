-- ===== src/Policy/Handler/Phases.antt =====
-- What the handler promises about the grab, as a machine with three phases.
use toothkey.Base.{
  ◌≡◌, refl, Bool, true, false, not, ◌&&◌, ◌||◌, some, arith, if◌then◌else◌, Bool-cases,
  Option-cases, inl, inr,
}
use toothkey.Policy.Capture.{Capture}
use toothkey.Policy.Handler.{
  Handler, running, object_running, stop_grab, set_grab_mode, start_listener, stop_listener,
  shutdown, on_grab_ended, reader_dies, start_clipboard_paste, finish_paste, unmute, reader_works,
}
use toothkey.Policy.Handler.Honest.{IsHonest, set_grab_mode-Reached, disarmed-IsHonest}
use toothkey.Policy.Handler.Reachable.{
  Step, asked, linked, unlinked, ended, died, quit, pasted, typed, unmuted, worked, Reach,
  Reach-IsHonest,
}

-- no grab is wanted; one is wanted and none is held; one is held
pub data Phase : Type 0 where
  off waiting on : Phase

-- The calls: the user asks (for a grab or for none, with a peer or without), a peer comes or goes,
-- the grab is lost or given up, the reader dies or works on, the worker ends, and a paste begins or ends.
pub data Call : Type 0 where
  ask : (wanted peer : Bool) → Call
  link : (peer : Bool) → Call
  unlink lose die leave paste work : Call

abbrev pub is_off : Phase → Bool
is_off off = true
is_off _ = false

abbrev pub is_waiting : Phase → Bool
is_waiting waiting = true
is_waiting _ = false

abbrev pub is_on : Phase → Bool
is_on on = true
is_on _ = false

abbrev pub is_same : Phase → Phase → Bool
is_same off = is_off
is_same waiting = is_waiting
is_same on = is_on

-- Where a call may lead from a phase. A grab is taken only for a peer, a request or a peer that comes
-- leaves nothing waiting, and a grab that is lost with its peer or its reader waits.
unfoldable pub allows : Call → Phase → Phase → Bool
allows (ask true peer) on q = is_on q
allows (ask true peer) _ q = is_off q || (peer && is_on q)
allows (ask false peer) p q = is_off q
allows (link peer) waiting q = is_off q || (peer && is_on q)
allows (link peer) p q = is_same p q
allows unlink on q = is_waiting q
allows unlink p q = is_same p q
allows lose p q = is_off q
allows die on q = is_waiting q
allows die p q = is_same p q
allows leave p q = is_off q
allows paste p q = is_same p q
allows work p q = is_same p q

abbrev pub phase_of : Bool → Bool → Phase
phase_of runs armed = if runs then on else if armed then waiting else off

module _ (C : Capture) where
  abbrev pub phase : Handler C → Phase
  phase h = phase_of (running C h) h.grab_mode

  abbrev pub call_of : {h h' : Handler C} → Step C h h' → Call
  call_of (asked on_ peer scan) = ask on_ peer
  call_of (linked peer scan) = link peer
  call_of unlinked = unlink
  call_of ended = lose
  call_of died = die
  call_of quit = leave
  call_of pasted = paste
  call_of typed = paste
  call_of unmuted = paste
  call_of (worked g r e) = work

  -- A request is honoured only with a peer, unless the grab was held already.
  set_grab_mode_peer :
      (wanted peer : Bool) (scan : C.Scan) (h : Handler C)
      → (set_grab_mode C wanted peer scan h).1 ≡ true
      → (wanted && (peer || running C h)) ≡ true
  unfolding set_grab_mode
  set_grab_mode_peer wanted peer scan h e = ground arith

  set_grab_mode_held :
      (wanted peer : Bool) (scan : C.Scan) (h : Handler C)
      → IsHonest C h
      → wanted ≡ true
      → running C h ≡ true
      → (set_grab_mode C wanted peer scan h).1 ≡ true
  unfolding set_grab_mode
  set_grab_mode_held wanted peer scan h v wants runs = let armed = v.armed runs in ground arith

  ask-allows :
      (wanted peer runs armed result : Bool)
      → (runs ≡ true → armed ≡ true)
      → (result ≡ true → (wanted && (peer || runs)) ≡ true)
      → (wanted ≡ true → runs ≡ true → result ≡ true)
      → allows (ask wanted peer) (phase_of runs armed) (phase_of result result) ≡ true
  unfolding allows
  ask-allows true peer true armed result a p k = ground (arith, k refl refl)
  ask-allows true peer false true result a p k = ground arith
  ask-allows true peer false false result a p k = ground arith
  ask-allows false peer runs armed result a p k = ground arith

  asked-allows :
      (wanted peer : Bool) (scan : C.Scan) (h : Handler C)
      → IsHonest C h
      → allows (ask wanted peer) (phase h) (phase (set_grab_mode C wanted peer scan h).0) ≡ true
  asked-allows wanted peer scan h v =
      let r = set_grab_mode-Reached C wanted peer scan h v in
      rw (r.captured, r.mode)
        (ask-allows wanted peer (running C h) h.grab_mode (set_grab_mode C wanted peer scan h).1
          v.armed (set_grab_mode_peer wanted peer scan h) (set_grab_mode_held wanted peer scan h v))

  link_keep-allows :
      (peer runs armed : Bool)
      → (not armed || runs) ≡ true
      → allows (link peer) (phase_of runs armed) (phase_of runs armed) ≡ true
  unfolding allows
  link_keep-allows peer true armed e = refl
  link_keep-allows peer false false e = refl
  link_keep-allows peer false true e = cc

  link_take-allows :
      (peer runs armed result : Bool)
      → (not armed || runs) ≡ false
      → (result ≡ true → (peer || false) ≡ true)
      → allows (link peer) (phase_of runs armed) (phase_of result result) ≡ true
  unfolding allows
  link_take-allows peer true false result e p = cc
  link_take-allows peer true true result e p = cc
  link_take-allows peer false false result e p = cc
  link_take-allows peer false true result e p = ground arith

  linked-allows :
      (peer : Bool) (scan : C.Scan) (h : Handler C)
      → IsHonest C h
      → allows (link peer) (phase h) (phase (start_listener C peer scan h).0) ≡ true
  unfolding start_listener
  linked-allows peer scan h v = elim (Bool-cases (not h.grab_mode || running C h)) [
    | inl keep ↦ simp keep (link_keep-allows peer (running C h) h.grab_mode keep)
    | inr take ↦
        let idle : running C h ≡ false = ground arith in
        let h0 : Handler C = record h { grab_mode = false } in
        let r = set_grab_mode-Reached C true peer scan h0 (disarmed-IsHonest C h v idle) in
        let result = (set_grab_mode C true peer scan h0).1 in
        let needs : result ≡ true → (peer || false) ≡ true =
          λ e. ground (arith, set_grab_mode_peer true peer scan h0 e) in
        let to = link_take-allows peer (running C h) h.grab_mode result take needs in
        let same : start_listener C peer scan h ≡ set_grab_mode C true peer scan h0 =
          simp take refl in
        rw (same, r.captured, r.mode) to
  ]

  unlinked-allows :
      (h : Handler C) → IsHonest C h → allows unlink (phase h) (phase (stop_listener C h)) ≡ true
  unfolding stop_listener stop_grab allows
  unlinked-allows h v = let armed = v.armed in ground arith

  died-allows :
      (h : Handler C) → IsHonest C h → allows die (phase h) (phase (reader_dies C h)) ≡ true
  unfolding reader_dies allows
  died-allows h v = elim (Option-cases h.grabber) [
    | inl e ↦ simp e (ground arith)
    | inr (g, e) ↦
        let dead = C.dies_stopped g h.kernel in
        let armed : object_running C (some g) ≡ true → h.grab_mode ≡ true =
          λ r. v.armed (rw (e, object_running) r) in
        simp e (ground (arith, armed, dead))
  ]

  paste-allows :
      (h : Handler C) → allows paste (phase h) (phase (start_clipboard_paste C h).0) ≡ true
  unfolding start_clipboard_paste allows
  paste-allows h = elim (Bool-cases h.paste_in_progress) [
    | inl busy ↦ simp busy (ground arith)
    | inr free ↦ elim (Option-cases h.grabber) [
      | inl e ↦ simp (free, e) (ground arith)
      | inr (g, e) ↦ simp (free, e) (ground arith)
    ]
  ]

  finish-allows : (h : Handler C) → allows paste (phase h) (phase (finish_paste C h)) ≡ true
  unfolding finish_paste allows
  finish-allows h = ground arith

  unmute-allows : (h : Handler C) → allows paste (phase h) (phase (unmute C h)) ≡ true
  unfolding unmute allows
  unmute-allows h = ground arith

  worked-allows :
      (h : Handler C) (g : C.Object) (r : C.Round g h.kernel)
      → h.grabber ≡ some g
      → allows work (phase h) (phase (reader_works C h g r)) ≡ true
  unfolding reader_works allows
  worked-allows h g r e =
      let before : running C h ≡ true = rw (e, object_running) (C.round_runs g h.kernel r) in
      let after : running C (reader_works C h g r) ≡ true = C.works_running g h.kernel r in
      ground arith

  -- Every call on a handler that is reachable from a kernel with no grab is a step that the machine of
  -- three phases allows: with a grab held, asking for one keeps it; otherwise it takes one, with a peer
  -- only, or none is wanted any more; a peer that comes takes one that waits or ends the wait; the
  -- death of the reader and a peer that goes make a held grab wait; asking for none, a loss and the
  -- end of the worker end it; and a paste, and a round of the reader, change nothing.
  pub Step-allows :
      {k : C.Kernel} {h h' : Handler C}
      → C.Idle k
      → Reach C k h
      → (s : Step C h h') → allows (call_of s) (phase h) (phase h') ≡ true
  Step-allows {h} idle r (asked wanted peer scan) =
      asked-allows wanted peer scan h (Reach-IsHonest C idle r)
  Step-allows {h} idle r (linked peer scan) = linked-allows peer scan h (Reach-IsHonest C idle r)
  Step-allows {h} idle r unlinked = unlinked-allows h (Reach-IsHonest C idle r)
  Step-allows {h} idle r ended = unfold on_grab_ended stop_grab allows in refl
  Step-allows {h} idle r died = died-allows h (Reach-IsHonest C idle r)
  Step-allows {h} idle r quit = unfold shutdown stop_grab allows in refl
  Step-allows {h} idle r pasted = paste-allows h
  Step-allows {h} idle r typed = finish-allows h
  Step-allows {h} idle r unmuted = unmute-allows h
  Step-allows {h} idle r (worked g w e) = worked-allows h g w e
