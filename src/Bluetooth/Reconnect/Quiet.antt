-- ===== src/Bluetooth/Reconnect/Quiet.antt =====
-- When the watchdog pages, by what the tray asked for.
use toothkey.Base.{
  ◌≡◌, refl, Bool, true, false, not, ◌&&◌, none, arith, ltb, leb, is_some, Option-cases, inl, inr,
}
use toothkey.Bluetooth.Session.{Session, drop_client}
use toothkey.Bluetooth.Reconnect.{
  Watch, Weather, idle, page, power_up, cycle_link, Turned, after_page, page_turn, link_turn,
  quiet_turn, peer_turn, watchdog_turn,
}

abbrev pub pages : Turned → Bool
pages t = elim t.action [ idle ↦ false | power_up ↦ false | cycle_link ↦ false | page ↦ true ]

pub after_page-pages :
    (runs ok : Bool) (x : Weather) (s : Session) (w : Watch)
    → pages (after_page runs ok x s w) ≡ true
unfolding after_page
after_page-pages false ok x s w = refl
after_page-pages true true x s w = refl
after_page-pages true false x s w = refl

page_turn-pages : (x : Weather) (s : Session) (w : Watch) → pages (page_turn x s w) ≡ true
unfolding page_turn
page_turn-pages x s w = after_page-pages x.runs _ x s w

link_turn-pages : (x : Weather) (s : Session) (w : Watch) → pages (link_turn x s w) ≡ false
unfolding link_turn
link_turn-pages x s w = ground arith

quiet_turn-pages :
    (x : Weather) (s : Session) (w : Watch) → pages (quiet_turn x s w) ≡ not (leb 3 w.churn_streak)
unfolding quiet_turn
quiet_turn-pages x s w = ground (arith, page_turn-pages x s (record w { stuck_acl_since = none }))

-- what a turn asks of the session and its surroundings before it pages
abbrev pub may_page : Weather → Session → Bool
may_page x s =
    not s.connected
    && x.powered
    && is_some s.mac_address
    && not s.paused
    && not (ltb x.now s.suppressed_until)
    && not x.acl

peer_turn-pages :
    (x : Weather) (s : Session) (w : Watch)
    → pages (peer_turn x s w) ≡ (
        not s.paused
        && not (ltb x.now s.suppressed_until)
        && not x.acl
        && not (leb 3 w.churn_streak))
unfolding peer_turn
peer_turn-pages x s w = ground (arith, link_turn-pages x s w, quiet_turn-pages x s w)

-- A turn pages exactly if no session is on, the adapter is powered, a peer is known, the user has
-- neither paused nor disconnected it, its link is down, and it has not refused three pages.
pub watchdog_turn-pages :
    (x : Weather) (s : Session) (w : Watch)
    → pages (watchdog_turn x s w) ≡ (may_page x s && not (leb 3 w.churn_streak))
unfolding watchdog_turn
watchdog_turn-pages x s w = elim (Option-cases s.mac_address) [
  | inl unknown ↦ ground arith
  | inr (mac, known) ↦ ground (arith, peer_turn-pages x s w)
]

drop_client-fields :
    (s : Session)
    → ((drop_client s).connected ≡ false)
      × ((drop_client s).paused ≡ s.paused)
      × ((drop_client s).suppressed_until ≡ s.suppressed_until)
      × ((drop_client s).mac_address ≡ s.mac_address)
unfolding drop_client
drop_client-fields s = ground arith
