-- ===== src/Bluetooth/Reconnect/Channels.antt =====
-- The sockets of the peer across a turn of the watchdog.
use toothkey.Base.{
  ℕ, Option, none, some, ◌∙◌, ◌-◌, ◌&&◌, ◌≡◌, refl, Bool, true, false, not, ltb, leb, arith,
  if◌then◌else◌, Bool-cases, Option-cases, inl, inr,
}
use toothkey.Bluetooth.Session.{Session}
use toothkey.Bluetooth.Paging.{
  Page, try_outbound_reconnect, keeps_link, is_yes, try_open_hid_outbound,
}
use toothkey.Bluetooth.Paging.Tidy.{AreNew, Opened, nothing-Opened, try_open_hid_outbound-Opened}
use toothkey.Bluetooth.Reconnect.{
  Watch, Weather, Action, idle, power_up, Turned, waits, open_channels, after_page, page_turn,
  link_turn, quiet_turn, peer_turn, watchdog_turn, stuck_since, cycle_link, clear_wake, wait_wake,
  clear_and_wait,
}
use toothkey.Bluetooth.Reconnect.Quiet.{pages, after_page-pages}

-- A page that has to open the link itself and does: BlueZ is there and powered, knows the peer as
-- paired and does not call it connected, and the connect to its SDP channel succeeds.
abbrev pub opens_link : Page → Bool
opens_link p =
    p.bus && p.powered && p.known && is_yes p.paired && not (is_yes p.connected) && p.connects

-- The turn leaves the peer's channels alone or opens one new pair, which waits to be adopted; and
-- leaves an SDP socket held exactly if it pages and the page opens the link.
pub record IsTidy (x : Weather) (s : Session) (t : Turned) : Type 0 where
  pub opens : Bool
  pub opened : Opened s (t.session, opens)
  pub link : keeps_link t.sdp ≡ (pages t && opens_link x.page)

if-IsTidy :
    (x : Weather) (s : Session) (b : Bool) (t u : Turned)
    → IsTidy x s t
    → IsTidy x s u
    → IsTidy x s (if b then t else u)
if-IsTidy x s true t u ht hu = ht
if-IsTidy x s false t u ht hu = hu

-- the wait changes the wish to be woken and no more
wait-Opened :
    (woken : Option ℕ) (timeout : ℕ) (s r : Session) (opens : Bool)
    → Opened s (r, opens)
    → Opened s ((clear_and_wait woken timeout r).1, opens)
unfolding clear_and_wait wait_wake clear_wake
wait-Opened none timeout s r opens o = record {
  pair = o.pair;
  ok = o.ok;
  pending = o.pending;
  opened = o.opened;
}
wait-Opened (some at) timeout s r opens o = record {
  pair = o.pair;
  ok = o.ok;
  pending = ground (arith, o.pending);
  opened = λ f. ground (arith, o.opened f);
}

try_outbound_reconnect-held :
    (p : Page)
    → keeps_link (try_outbound_reconnect (record p { addressed = true })).1 ≡ opens_link p
unfolding try_outbound_reconnect
try_outbound_reconnect-held p = ground arith

open_channels-Opened :
    (x : Weather) (s : Session)
    → AreNew x.attempts s
    → (opens : Bool) × Opened s (open_channels x s, opens)
unfolding open_channels
open_channels-Opened x s new =
    elim (Bool-cases (not x.connected_then && (x.running_then && x.acl_then))) [
      | inl opens ↦ simp opens (
        (try_open_hid_outbound x.connected_then x.attempts s).1,
        try_open_hid_outbound-Opened x.connected_then x.attempts s new,
      )
      | inr not_ ↦ simp not_ (false, nothing-Opened s)
    ]

after_page-Opened :
    (runs ok : Bool) (x : Weather) (s : Session) (w : Watch)
    → AreNew x.attempts s
    → (opens : Bool) × Opened s ((after_page runs ok x s w).session, opens)
unfolding after_page
after_page-Opened true true x s w new =
    let (opens, opened) = open_channels-Opened x s new in
    (opens, wait-Opened x.woken _ s (open_channels x s) opens opened)
after_page-Opened true false x s w new = (false, wait-Opened x.woken _ s s false (nothing-Opened s))
after_page-Opened false ok x s w new = (false, nothing-Opened s)

page_turn-IsTidy :
    (x : Weather) (s : Session) (w : Watch) → AreNew x.attempts s → IsTidy x s (page_turn x s w)
unfolding page_turn
page_turn-IsTidy x s w new =
    let (ok, sdp) = try_outbound_reconnect (record x.page { addressed = true }) in
    let (opens, opened) = after_page-Opened x.runs ok x s w new in
    record {
      opens = opens;
      opened = opened;
      link = try_outbound_reconnect-held x.page ∙ ground (arith, after_page-pages x.runs ok x s w);
    }

waits-IsTidy :
    (x : Weather) (s : Session) (w : Watch) (a : Action) (timeout : ℕ)
    → pages (waits x s w a timeout) ≡ false
    → IsTidy x s (waits x s w a timeout)
waits-IsTidy x s w a timeout quiet = record {
  opens = false;
  opened = wait-Opened x.woken timeout s s false (nothing-Opened s);
  link = ground (arith, quiet);
}

link_turn-IsTidy : (x : Weather) (s : Session) (w : Watch) → IsTidy x s (link_turn x s w)
unfolding link_turn
link_turn-IsTidy x s w =
    let stuck = stuck_since x.now w.stuck_acl_since in
    let rest = 20000 - (x.now - stuck) in
    let still : Watch = record w { stuck_acl_since = some stuck } in
    let freed : Watch = record w { stuck_acl_since = none } in
    if-IsTidy x s (ltb (x.now - stuck) 20000) _ _ (waits-IsTidy x s still idle rest refl)
      (waits-IsTidy x s freed cycle_link 2000 refl)

quiet_turn-IsTidy :
    (x : Weather) (s : Session) (w : Watch) → AreNew x.attempts s → IsTidy x s (quiet_turn x s w)
unfolding quiet_turn
quiet_turn-IsTidy x s w new =
    if-IsTidy x s (leb 3 w.churn_streak) _ _ (waits-IsTidy x s _ idle _ refl)
      (page_turn-IsTidy x s _ new)

peer_turn-IsTidy :
    (x : Weather) (s : Session) (w : Watch) → AreNew x.attempts s → IsTidy x s (peer_turn x s w)
unfolding peer_turn
peer_turn-IsTidy x s w new = if-IsTidy x s s.paused _ _ (waits-IsTidy x s w idle _ refl) (
    if-IsTidy x s (ltb x.now s.suppressed_until) _ _ (waits-IsTidy x s w idle _ refl)
      (if-IsTidy x s x.acl _ _ (link_turn-IsTidy x s w) (quiet_turn-IsTidy x s w new)))

-- With descriptors that are new, a turn of the watchdog, whatever it meets, opens at most one pair of
-- HID channels and leaves it waiting to be adopted, closing a pair that waited before; all other
-- channels are as before, also when it retries or gives up. An SDP socket is left open, with the
-- thread that holds it, exactly if the turn pages, BlueZ is there and powered and knows the peer as
-- paired and not as connected, and the connect succeeds.
pub watchdog_turn-IsTidy :
    (x : Weather) (s : Session) (w : Watch) → AreNew x.attempts s → IsTidy x s (watchdog_turn x s w)
unfolding watchdog_turn
watchdog_turn-IsTidy x s w new = if-IsTidy x s s.connected _ _ (waits-IsTidy x s _ idle _ refl) (
    if-IsTidy x s (not x.powered) _ _ (waits-IsTidy x s w power_up _ refl)
      (elim (Option-cases s.mac_address) [
        | inl unknown ↦ simp unknown (waits-IsTidy x s w idle _ refl)
        | inr (mac, known) ↦ simp known (peer_turn-IsTidy x s w new)
      ]))
