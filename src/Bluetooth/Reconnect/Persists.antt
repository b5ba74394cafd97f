-- ===== src/Bluetooth/Reconnect/Persists.antt =====
-- The watchdog while nothing stands in the way of a page.
use toothkey.Base.{
  suc, ◌≡◌, refl, ap, ◌∙◌, Bool, true, false, not, arith, none, leb, Option-cases, inl, inr, All,
  List, [], ◌∷◌, length, if◌then◌else◌, Bool-cases, ◌⊎◌,
}
use toothkey.Bluetooth.Session.{Session}
use toothkey.Bluetooth.Reconnect.{
  Watch, Weather, Turned, after_page, page_turn, quiet_turn, peer_turn, watchdog_turn,
  watchdog_loop,
}
use toothkey.Bluetooth.Reconnect.Quiet.{pages, may_page, watchdog_turn-pages}

-- nothing stands in the way of a page, and the worker does not stop
abbrev pub IsClear : Weather × Session → Type 0
IsClear (x, s) = (may_page x s ≡ true) × (x.runs ≡ true)

-- of two turns in a row one pages, and the first waits with a timeout of three minutes if it does not
abbrev pub Persists : List Turned → Type 0
Persists [] = Unit
Persists (t ∷ []) = Unit
Persists (t ∷ u ∷ ts) =
    ((pages t ≡ true) ⊎ ((pages u ≡ true) × (t.timeout ≡ 180000))) × Persists (u ∷ ts)

peer_turn-quiet :
    (x : Weather) (s : Session) (w : Watch)
    → may_page x s ≡ true
    → peer_turn x s w ≡ quiet_turn x s w
unfolding peer_turn
peer_turn-quiet x s w h = ground arith

watchdog_turn-quiet :
    (x : Weather) (s : Session) (w : Watch)
    → may_page x s ≡ true
    → watchdog_turn x s w ≡ quiet_turn x s w
unfolding watchdog_turn
watchdog_turn-quiet x s w h = elim (Option-cases s.mac_address) [
  | inl unknown ↦ ground arith
  | inr (mac, known) ↦ ground (arith, peer_turn-quiet x s w)
]

after_page-leaves :
    (runs ok : Bool) (x : Weather) (s : Session) (w : Watch)
    → (after_page runs ok x s w).leaves ≡ not runs
unfolding after_page
after_page-leaves true true x s w = refl
after_page-leaves true false x s w = refl
after_page-leaves false ok x s w = refl

page_turn-stays :
    (x : Weather) (s : Session) (w : Watch) → x.runs ≡ true → (page_turn x s w).leaves ≡ false
unfolding page_turn
page_turn-stays x s w e = after_page-leaves x.runs _ x s w ∙ ap not e

-- After three refusals the turn waits for three minutes, and the next may page again.
quiet_turn-rests :
    (x : Weather) (s : Session) (w : Watch)
    → leb 3 w.churn_streak ≡ true
    → let t = quiet_turn x s w in
      (t.timeout ≡ 180000) × (t.watch.churn_streak ≡ 1) × (t.leaves ≡ false)
unfolding quiet_turn
quiet_turn-rests x s w h = ground arith

quiet_turn-stays :
    (x : Weather) (s : Session) (w : Watch) → x.runs ≡ true → (quiet_turn x s w).leaves ≡ false
unfolding quiet_turn
quiet_turn-stays x s w e = ground (arith, page_turn-stays x s (record w { stuck_acl_since = none }))

turn-stays :
    (x : Weather) (s : Session) (w : Watch) → IsClear (x, s) → (watchdog_turn x s w).leaves ≡ false
turn-stays x s w (h, e) = rw (watchdog_turn-quiet x s w h) (quiet_turn-stays x s w e)

turn-or-next :
    (x y : Weather) (s r : Session) (w : Watch)
    → IsClear (x, s)
    → IsClear (y, r)
    → let t = watchdog_turn x s w in
      (pages t ≡ true) ⊎ ((pages (watchdog_turn y r t.watch) ≡ true) × (t.timeout ≡ 180000))
turn-or-next x y s r w (h, e) (h', e') = elim (Bool-cases (leb 3 w.churn_streak)) [
  | inl refused ↦
      let (time, one, stays) = quiet_turn-rests x s w refused in
      inr (
        rw (watchdog_turn-quiet x s w h)
          (ground (arith, watchdog_turn-pages y r (quiet_turn x s w).watch, one, time, h')))
  | inr fine ↦ inl (ground (arith, watchdog_turn-pages x s w))
]

-- While nothing stands in the way of a page (no session, power, a known peer that is neither paused
-- nor disconnected by the user, its link down) and the worker runs, the loop goes on, and it pages: of
-- every two turns in a row one does, and a turn that does not waits for three minutes, if no other
-- thread ends the wait.
pub watchdog_loop-Persists :
    (turns : List (Weather × Session)) (w : Watch)
    → All IsClear turns
    → (length (watchdog_loop turns w) ≡ length turns) × Persists (watchdog_loop turns w)
unfolding watchdog_loop
watchdog_loop-Persists [] w clear = (refl, tt)
watchdog_loop-Persists ((x, s) ∷ []) w (now, tt) =
    rw (turn-stays x s w now, if◌then◌else◌) (refl, tt)
watchdog_loop-Persists ((x, s) ∷ (y, r) ∷ more) w (now, (then_, clear)) =
    let t = watchdog_turn x s w in
    let (same, rest) = watchdog_loop-Persists ((y, r) ∷ more) t.watch (then_, clear) in
    rw (turn-stays x s w now, if◌then◌else◌) (ap suc same, (turn-or-next x y s r w now then_, rest))
