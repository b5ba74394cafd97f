-- ===== src/Worker/Link.antt =====
-- _tray_link_loop: the trays that connect, one after the other. Connections are numbers.
pub mod Served
use toothkey.Base.{ℕ, Bool, true, false, List, [], ◌∷◌, ◌++◌, if◌then◌else◌}

-- what the thread waits for: the end of a tray's connection, with the shutdown event as it is
-- tested then, and the ways an accept ends, with the event as the inner loop tests it next
pub data Event : Type 0 where
  tray_gone : Bool → Event
  timeout : Bool → Event
  accepted : ℕ → Bool → Event
  accept_failed : Event

-- where the thread is
pub data Thread : Type 0 where
  serving : ℕ → Thread
  accepting : Thread
  exited : Thread

-- one event; an event that the thread does not wait for changes nothing
unfoldable pub link_step : Event → Thread → Thread
link_step (tray_gone true) (serving conn) = exited
link_step (tray_gone false) (serving conn) = accepting
link_step (timeout true) accepting = exited
link_step (timeout false) accepting = accepting
link_step (accepted conn true) accepting = exited
link_step (accepted conn false) accepting = serving conn
link_step accept_failed accepting = exited
link_step e t = t

-- the connections that `_serve_tray` is called on, from a place on
abbrev pub served_by : Thread → List ℕ
served_by (serving conn) = conn ∷ []
served_by accepting = []
served_by exited = []

abbrev pub is_new : Thread → Thread → List ℕ
is_new accepting t = served_by t
is_new (serving conn) t = []
is_new exited t = []

unfoldable pub link_run : Thread → List Event → List ℕ × Thread
unfolding link_step
link_run t [] = ([], t)
link_run t (e ∷ events) =
    let rest = link_run (link_step e t) events in (is_new t (link_step e t) ++ rest.0, rest.1)

-- `_tray_link_loop`, with the first connection and the event at its first test: what it serves
unfoldable pub tray_link_loop : ℕ → Bool → List Event → List ℕ × Thread
unfolding link_run
tray_link_loop first true events = ([], exited)
tray_link_loop first false events =
    let rest = link_run (serving first) events in (first ∷ rest.0, rest.1)
