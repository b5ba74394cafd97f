-- ===== src/Bluetooth/Paging/Tidy.antt =====
-- bluetooth_handler.py, _try_open_hid_outbound: the sockets that paging opens and closes.
use toothkey.Base.{
  ℕ, zero, suc, ◌≡◌, refl, ap, ◌∙◌, Bool, true, false, not, ◌&&◌, ◌||◌, Option, none, some,
  Bool-cases, Option-cases, ==-cases, inl, inr, arith,
}
use toothkey.Bluetooth.Session.{Pair, Session, open_pair, close_pair, promote_outbound_hid}
use toothkey.Bluetooth.Session.Accept.{is_in_pair}
use toothkey.Bluetooth.Paging.{Attempt, open_attempts, try_open_hid_outbound, hid_outbound_attempts}

-- The kernel gives each attempt two descriptors that are not open.
abbrev pub AreNew : (ℕ → Attempt) → Session → Type 0
AreNew attempts s =
    (n : ℕ)
    → (s.opened (attempts n).sockets.ctrl ≡ false) × (s.opened (attempts n).sockets.intr ≡ false)

-- Which sockets are open after it, and which pair waits to be adopted: as before, or one new pair is
-- open and waits, and one that waited before is closed.
abbrev pub now_open : Option Pair → Session → ℕ → Bool
now_open none s f = s.opened f
now_open (some p) s f =
    is_in_pair (some p) f || (not (is_in_pair s.outbound_pending f) && s.opened f)

abbrev pub now_pending : Option Pair → Session → Option Pair
now_pending none s = s.outbound_pending
now_pending (some p) s = some p

abbrev pub is_some_pair : Option Pair → Bool
is_some_pair none = false
is_some_pair (some p) = true

pub record Opened (s : Session) (result : Session × Bool) : Type 0 where
  pub pair : Option Pair
  pub ok : result.1 ≡ is_some_pair pair
  pub pending : result.0.outbound_pending ≡ now_pending pair s
  pub opened : (f : ℕ) → result.0.opened f ≡ now_open pair s f

failed-opened :
    (p : Pair) (s : Session)
    → s.opened p.ctrl ≡ false
    → s.opened p.intr ≡ false
    → (f : ℕ) → close_pair (some p) (open_pair p s.opened) f ≡ s.opened f
failed-opened p s c i f = elim (==-cases f p.ctrl) [
  | inl e ↦ rw e (ground arith)
  | inr ne ↦ elim (==-cases f p.intr) [ inl e ↦ rw e (ground arith) | inr ne' ↦ ground arith ]
]

promoted-opened :
    (p : Pair) (s : Session) (f : ℕ)
    → (promote_outbound_hid p (record s { opened = open_pair p s.opened })).opened f
      ≡ now_open (some p) s f
unfolding promote_outbound_hid
promoted-opened p s f = elim (Option-cases s.outbound_pending) [
  | inl e ↦ simp e (ground arith)
  | inr (q, e) ↦ simp e (ground arith)
]

promoted-Opened :
    (p : Pair) (s : Session)
    → Opened s (promote_outbound_hid p (record s { opened = open_pair p s.opened }), true)
unfolding promote_outbound_hid
promoted-Opened p s = record {
  pair = some p;
  ok = refl;
  pending = refl;
  opened = promoted-opened p s;
}

abbrev failed : Attempt → Session → Session
failed a s = record s { opened = close_pair (some a.sockets) (open_pair a.sockets s.opened) }

failed-Opened :
    (a : Attempt) (s : Session)
    → s.opened a.sockets.ctrl ≡ false
    → s.opened a.sockets.intr ≡ false
    → Opened s (failed a s, false)
failed-Opened a s c i = record {
  pair = none;
  ok = refl;
  pending = refl;
  opened = failed-opened a.sockets s c i;
}

pub nothing-Opened : (s : Session) → Opened s (s, false)
nothing-Opened s = record { pair = none; ok = refl; pending = refl; opened = λ f. refl }

now_open_same :
    (p : Option Pair) (s s' : Session)
    → s'.outbound_pending ≡ s.outbound_pending
    → ((f : ℕ) → s'.opened f ≡ s.opened f)
    → (f : ℕ) → now_open p s' f ≡ now_open p s f
now_open_same none s s' e o f = o f
now_open_same (some p) s s' e o f =
    ap (λ (q : Option Pair). is_in_pair (some p) f || (not (is_in_pair q f) && s'.opened f)) e
    ∙ ap (λ (b : Bool). is_in_pair (some p) f || (not (is_in_pair s.outbound_pending f) && b)) (o f)

now_pending_same :
    (p : Option Pair) (s s' : Session)
    → s'.outbound_pending ≡ s.outbound_pending
    → now_pending p s' ≡ now_pending p s
now_pending_same none s s' e = e
now_pending_same (some p) s s' e = refl

then-Opened :
    (s s' : Session) (r : Session × Bool)
    → s'.outbound_pending ≡ s.outbound_pending
    → ((f : ℕ) → s'.opened f ≡ s.opened f)
    → Opened s' r
    → Opened s r
then-Opened s s' r e o v = record {
  pair = v.pair;
  ok = v.ok;
  pending = v.pending ∙ now_pending_same v.pair s s' e;
  opened = λ f. v.opened f ∙ now_open_same v.pair s s' e o f;
}

open_attempts-Opened :
    (left : ℕ) (attempts : ℕ → Attempt) (s : Session)
    → AreNew attempts s
    → Opened s (open_attempts left attempts s)
unfolding open_attempts
open_attempts-Opened zero attempts s new = nothing-Opened s
open_attempts-Opened (suc left) attempts s new =
    let a = attempts left in
    let (c, i) = new left in
    let s' = failed a s in
    let same = failed-opened a.sockets s c i in
    let new' : AreNew attempts s' = λ n.
      (same (attempts n).sockets.ctrl ∙ (new n).0, same (attempts n).sockets.intr ∙ (new n).1) in
    let rest = then-Opened s s' _ refl same (open_attempts-Opened left attempts s' new') in
    elim (Bool-cases (a.connected || not a.running)) [
      | inl over ↦ simp over (nothing-Opened s)
      | inr goes ↦ elim (Bool-cases (a.control_ok && a.interrupt_ok)) [
        | inl good ↦ simp (goes, good) (promoted-Opened a.sockets s)
        | inr bad ↦ elim (Bool-cases a.acl) [
          | inl up ↦ simp (goes, bad, up) rest
          | inr down ↦ simp (goes, bad, down) (failed-Opened a s c i)
        ]
      ]
    ]

-- With descriptors that are new, and however its attempts end: if it returns true, one new pair is
-- open and waits to be adopted, and a pair that waited before is closed; if it returns false, the same
-- pair waits as before. All other sockets are as before: those of the attempts that failed are closed.
pub try_open_hid_outbound-Opened :
    (connected : Bool) (attempts : ℕ → Attempt) (s : Session)
    → AreNew attempts s
    → Opened s (try_open_hid_outbound connected attempts s)
unfolding try_open_hid_outbound
try_open_hid_outbound-Opened true attempts s new = nothing-Opened s
try_open_hid_outbound-Opened false attempts s new =
    open_attempts-Opened hid_outbound_attempts attempts s new
