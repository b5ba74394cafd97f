-- ===== src/Bluetooth/Session/Accept.antt =====
-- The peer's sockets that are open, against those that the session names.
use toothkey.Base.{
  ℕ, ◌≡◌, refl, Bool, true, false, not, ◌&&◌, ◌||◌, Option, none, some, List, [], ◌∷◌, ◌==◌, inl,
  inr, ◌⊎◌,
}
use toothkey.Bluetooth.Session.{
  Pair, Session, is_some_socket, Select, woken, failed, inbound, half, Turn, outside, Ending,
  pending, given_up, adopted, accept_turn, Early, note_types,
}

abbrev pub is_socket : Option ℕ → ℕ → Bool
is_socket none f = false
is_socket (some fd) f = fd == f

abbrev pub is_in_pair : Option Pair → ℕ → Bool
is_in_pair none f = false
is_in_pair (some p) f = p.ctrl == f || (p.intr == f)

-- Is this descriptor one of the session's, or of the pair that waits to be adopted?
abbrev pub names : Session → ℕ → Bool
names s f =
    is_socket s.control_socket f
    || is_socket s.interrupt_socket f
    || is_in_pair s.outbound_pending f

-- Just the sockets that are named are open.
abbrev pub IsTidy : Session → Type 0
IsTidy s = (f : ℕ) → s.opened f ≡ names s f

-- A waiting worker: no session is on, and no socket of one is left.
pub record IsWaiting (s : Session) : Type 0 where
  pub tidy : IsTidy s
  pub disconnected : s.connected ≡ false
  pub no_control : s.control_socket ≡ none
  pub no_interrupt : s.interrupt_socket ≡ none

-- The kernel hands out descriptors that are not open.
abbrev pub IsNewPair : Pair → Session → Type 0
IsNewPair p s = (s.opened p.ctrl ≡ false) × (s.opened p.intr ≡ false)

abbrev pub PromotedNew : Option Pair → Session → Type 0
PromotedNew none s = Unit {0}
PromotedNew (some p) s = IsNewPair p s

abbrev pub SelectedNew : Select → Session → Type 0
SelectedNew woken s = Unit {0}
SelectedNew failed s = Unit {0}
SelectedNew (inbound p) s = IsNewPair p s
SelectedNew (half ctrl) s = s.opened ctrl ≡ false

-- What a turn leaves: a waiting worker, beside the open pair that is adopted, if one is.
pub record Adopts (p : Pair) (s : Session) : Type 0 where
  pub tidy : (f : ℕ) → s.opened f ≡ (is_in_pair (some p) f || names s f)
  pub none_waits : s.outbound_pending ≡ none
  pub disconnected : s.connected ≡ false
  pub no_control : s.control_socket ≡ none
  pub no_interrupt : s.interrupt_socket ≡ none

abbrev Leaves : Ending → Type 0
Leaves (pending s) = IsWaiting s
Leaves (given_up s) = IsWaiting s
Leaves (adopted p s) = Adopts p s

pub Select-cases :
    (x : Select)
    → ((x ≡ woken) ⊎ (x ≡ failed))
      ⊎ (((p : Pair) × (x ≡ inbound p)) ⊎ ((ctrl : ℕ) × (x ≡ half ctrl)))
Select-cases woken = inl (inl refl)
Select-cases failed = inl (inr refl)
Select-cases (inbound p) = inr (inl (p, refl))
Select-cases (half ctrl) = inr (inr (ctrl, refl))

abbrev pub TurnNew : Turn → Session → Type 0
TurnNew t s = PromotedNew t.promoted s × SelectedNew t.selected (outside t s)

-- The descriptors of a whole wait are handed out so.
abbrev pub LoopNew : List Turn → Session → Type 0
LoopNew [] s = Unit {0}
LoopNew (t ∷ turns) s = TurnNew t s × (elim (accept_turn t s) [
  | pending s' ↦ LoopNew turns s'
  | given_up s' ↦ Unit {0}
  | adopted p s' ↦ Unit {0}
])

pub Ending-cases :
    (e : Ending)
    → ((s : Session) × (e ≡ pending s))
      ⊎ (((s : Session) × (e ≡ given_up s)) ⊎ ((p : Pair) × (s : Session) × (e ≡ adopted p s)))
Ending-cases (pending s) = inl (s, refl)
Ending-cases (given_up s) = inr (inl (s, refl))
Ending-cases (adopted p s) = inr (inr (p, s, refl))

-- What `wait_for_client` promises, as it is when the sender starts. In either case the peer's sockets
-- that are open are those of the session and those of a pair that waits to be adopted. A session is
-- on, with both sockets, exactly if it says yes and none of its threads has dropped it yet; after a
-- yes the peer is known, the sender has nothing to send, and what has been seen is of this session.
pub record Waited (e : Early) (result : Bool × Session) : Type 0 where
  pub tidy : IsTidy result.1
  pub connected : result.1.connected ≡ (result.0 && not e.lost)
  pub sockets :
      (is_some_socket result.1.control_socket ≡ (result.0 && not e.lost))
      × (is_some_socket result.1.interrupt_socket ≡ (result.0 && not e.lost))
  pub fresh :
      result.0 ≡ true
      → (is_some_socket result.1.mac_address ≡ true)
        × (result.1.seen ≡ note_types e.heard (some []))
        × (result.1.queue ≡ some [])

pub pair_eq : {a b : Bool × Session} → ◌≡◌ {A = Option (Bool × Session)} (some a) (some b) → a ≡ b
pair_eq h = cc
