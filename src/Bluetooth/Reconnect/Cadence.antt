-- ===== src/Bluetooth/Reconnect/Cadence.antt =====
-- How the watchdog paces its pages.
use toothkey.Base.{
  ℕ, Option, none, some, min, ◌<◌, ◌≤◌, ◌≡◌, refl, Bool, true, false, not, arith, leb, Option-cases,
  inl, inr, All, List, [], ◌∷◌, if◌then◌else◌, Bool-cases, ◌⊎◌,
}
use toothkey.Bluetooth.Session.{Session}
use toothkey.Bluetooth.Reconnect.{
  clear_wake, wait_wake, clear_and_wait, open_channels, Watch, Weather, Action, idle, power_up,
  cycle_link, Turned, waits, after_page, page_turn, link_turn, quiet_turn, peer_turn, watchdog_turn,
  watchdog_loop,
}
use toothkey.Bluetooth.Paging.{try_outbound_reconnect}
use toothkey.Bluetooth.Reconnect.Quiet.{pages}

-- How long a wait should last: until the event is set in it, or else to its timeout.
abbrev pub lasts : Option ℕ → ℕ → ℕ
lasts none timeout = timeout
lasts (some at) timeout = min at timeout

-- What the turn leaves: at most three refusals; and unless the loop is left, a wait that lasts to its
-- timeout, if the event is not set in it; which is 12, 15 or 30 seconds, if the turn paged.
pub record IsPaced (t : Turned) : Type 0 where
  pub streak : t.watch.churn_streak ≤ 3
  pub waits_for : t.leaves ≡ false → t.waited ≡ lasts t.woken t.timeout
  pub pause :
      pages t ≡ true
      → t.leaves ≡ false
      → (t.timeout ≡ 12000) ⊎ (t.timeout ≡ 15000) ⊎ (t.timeout ≡ 30000)

clear_and_wait-lasts :
    (woken : Option ℕ) (timeout : ℕ) (s : Session)
    → (clear_and_wait woken timeout s).0 ≡ lasts woken timeout
unfolding clear_and_wait wait_wake clear_wake
clear_and_wait-lasts none timeout s = refl
clear_and_wait-lasts (some at) timeout s = ground arith

-- the same for a turn that pages, whatever it meets
after_page-IsPaced :
    (runs ok : Bool) (x : Weather) (s : Session) (w : Watch)
    → w.churn_streak < 3
    → IsPaced (after_page runs ok x s w)
unfolding after_page
after_page-IsPaced false ok x s w h = record {
  streak = omega arith;
  waits_for = λ l. cc;
  pause = λ e l. cc;
}
after_page-IsPaced true true x s w h = record {
  streak = ground arith;
  waits_for = λ l. clear_and_wait-lasts x.woken _ (open_channels x s);
  pause = λ e l. ground arith;
}
after_page-IsPaced true false x s w h = record {
  streak = ground arith;
  waits_for = λ l. clear_and_wait-lasts x.woken _ s;
  pause = λ e l. ground arith;
}

if-IsPaced : (b : Bool) (t u : Turned) → IsPaced t → IsPaced u → IsPaced (if b then t else u)
if-IsPaced true t u ht hu = ht
if-IsPaced false t u ht hu = hu

waits-IsPaced :
    (x : Weather) (s : Session) (w : Watch) (a : Action) (timeout : ℕ)
    → w.churn_streak ≤ 3
    → pages (waits x s w a timeout) ≡ false
    → IsPaced (waits x s w a timeout)
waits-IsPaced x s w a timeout h quiet = record {
  streak = h;
  waits_for = λ l. clear_and_wait-lasts x.woken timeout s;
  pause = λ e l. cc;
}

page_turn-IsPaced :
    (x : Weather) (s : Session) (w : Watch) → w.churn_streak < 3 → IsPaced (page_turn x s w)
unfolding page_turn
page_turn-IsPaced x s w h =
    let ok = (try_outbound_reconnect (record x.page { addressed = true })).0 in
    let p = after_page-IsPaced x.runs ok x s w h in
    record { streak = p.streak; waits_for = p.waits_for; pause = p.pause }

link_turn-IsPaced :
    (x : Weather) (s : Session) (w : Watch) → w.churn_streak ≤ 3 → IsPaced (link_turn x s w)
unfolding link_turn
link_turn-IsPaced x s w h =
    if-IsPaced _ _ _ (waits-IsPaced x s _ idle _ h refl) (waits-IsPaced x s _ cycle_link _ h refl)

quiet_turn-IsPaced :
    (x : Weather) (s : Session) (w : Watch) → w.churn_streak ≤ 3 → IsPaced (quiet_turn x s w)
unfolding quiet_turn
quiet_turn-IsPaced x s w h = elim (Bool-cases (leb 3 w.churn_streak)) [
  | inl refused ↦ rw (refused, if◌then◌else◌) (waits-IsPaced x s _ idle _ (omega arith) refl)
  | inr fine ↦ rw (fine, if◌then◌else◌) (page_turn-IsPaced x s _ (ground arith))
]

peer_turn-IsPaced :
    (x : Weather) (s : Session) (w : Watch) → w.churn_streak ≤ 3 → IsPaced (peer_turn x s w)
unfolding peer_turn
peer_turn-IsPaced x s w h =
    let still = λ (timeout : ℕ). waits-IsPaced x s w idle timeout h refl in
    if-IsPaced s.paused _ _ (still _) (
      if-IsPaced _ _ _ (still _)
        (if-IsPaced x.acl _ _ (link_turn-IsPaced x s w h) (quiet_turn-IsPaced x s w h)))

watchdog_turn-IsPaced :
    (x : Weather) (s : Session) (w : Watch) → w.churn_streak ≤ 3 → IsPaced (watchdog_turn x s w)
unfolding watchdog_turn
watchdog_turn-IsPaced x s w h =
    if-IsPaced s.connected _ _ (waits-IsPaced x s _ idle _ (omega arith) refl) (
      if-IsPaced (not x.powered) _ _ (waits-IsPaced x s w power_up _ h refl)
        (elim (Option-cases s.mac_address) [
          | inl unknown ↦ simp unknown (waits-IsPaced x s w idle _ h refl)
          | inr (mac, known) ↦ simp known (peer_turn-IsPaced x s w h)
        ]))

if-All : (b : Bool) (ts : List Turned) → All IsPaced ts → All IsPaced (if b then [] else ts)
if-All true ts h = tt
if-All false ts h = h

-- However long the loop runs, from at most three refusals on, there are never more than three to
-- count, and every wait before a next turn lasts until another thread sets the event in it, or else to
-- its timeout, whether the event was set before or not. After a page the timeout is 12, 15 or 30
-- seconds.
pub watchdog_loop-IsPaced :
    (turns : List (Weather × Session)) (w : Watch)
    → w.churn_streak ≤ 3
    → All IsPaced (watchdog_loop turns w)
unfolding watchdog_loop
watchdog_loop-IsPaced [] w h = tt
watchdog_loop-IsPaced ((x, s) ∷ more) w h =
    let paced = watchdog_turn-IsPaced x s w h in
    let rest = watchdog_loop-IsPaced more (watchdog_turn x s w).watch paced.streak in
    (paced, if-All (watchdog_turn x s w).leaves _ rest)
