-- ===== src/Worker/Link/Served.antt =====
-- Every tray that is accepted is served, and only while none other is.
use toothkey.Base.{ℕ, ◌≡◌, refl, ap, Bool, true, false, List, [], ◌∷◌}
use toothkey.Worker.Link.{
  Event, tray_gone, timeout, accepted, accept_failed, Thread, serving, accepting, exited, link_step,
  link_run, tray_link_loop,
}

-- the events that can come where the thread is: an end of the tray that is served, or an end of
-- an accept while none is
pub data Happens : Thread → List Event → Type 0 where
  over : {t : Thread} → Happens t []
  ends :
      {events : List Event} (conn : ℕ) (down : Bool)
      → Happens (link_step (tray_gone down) (serving conn)) events
      → Happens (serving conn) (tray_gone down ∷ events)
  waits :
      {events : List Event} (down : Bool)
      → Happens (link_step (timeout down) accepting) events
      → Happens accepting (timeout down ∷ events)
  comes :
      {events : List Event} (conn : ℕ) (down : Bool)
      → Happens (link_step (accepted conn down) accepting) events
      → Happens accepting (accepted conn down ∷ events)
  fails : {events : List Event} → Happens exited events → Happens accepting (accept_failed ∷ events)

-- the trays that connect before the worker shuts down
abbrev pub came : List Event → List ℕ
came [] = []
came (accepted conn false ∷ events) = conn ∷ came events
came (accepted conn true ∷ events) = came events
came (tray_gone down ∷ events) = came events
came (timeout down ∷ events) = came events
came (accept_failed ∷ events) = came events

link_run-came :
    {t : Thread} {events : List Event} → Happens t events → (link_run t events).0 ≡ came events
unfolding link_run
link_run-came over = refl
link_run-came (ends conn true h) = link_run-came h
link_run-came (ends conn false h) = link_run-came h
link_run-came (waits true h) = link_run-came h
link_run-came (waits false h) = link_run-came h
link_run-came (comes conn true h) = link_run-came h
link_run-came (comes conn false h) = ap (λ rest. conn ∷ rest) (link_run-came h)
link_run-came (fails h) = link_run-came h

-- The trays are served one at a time and each that connects before the shutdown is, in order,
-- after the first: the thread is never deaf to a later tray.
pub tray_link_loop-came :
    (first : ℕ) (events : List Event)
    → Happens (serving first) events
    → (tray_link_loop first false events).0 ≡ first ∷ came events
unfolding tray_link_loop
tray_link_loop-came first events h = ap (λ rest. first ∷ rest) (link_run-came h)
