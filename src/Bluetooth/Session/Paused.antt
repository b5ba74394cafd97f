-- ===== src/Bluetooth/Session/Paused.antt =====
-- wait_for_client while the worker is paused.
use toothkey.Base.{
  ℕ, ◌≡◌, refl, Bool, true, false, Option, none, some, List, [], ◌∷◌, Bool-cases, inl, inr, All, ap,
  sym,
}
use toothkey.Bluetooth.Session.{
  Session, Turn, outside, Ending, pending, given_up, adopted, accept_turn, accept_loop,
  wait_for_client, Early,
}
use toothkey.Bluetooth.Session.Accept.{Select-cases, Ending-cases, pair_eq}

-- Nothing is adopted, and no pair waits.
abbrev Refuses : Ending → Type 0
Refuses (pending s) = s.outbound_pending ≡ none
Refuses (given_up s) = true ≡ true
Refuses (adopted p s) = false ≡ true

accept_turn-Refuses :
    (t : Turn) (s : Session)
    → t.paused ≡ true
    → t.promoted ≡ none
    → s.outbound_pending ≡ none
    → Refuses (accept_turn t s)
unfolding accept_turn
accept_turn-Refuses t s paused alone nothing =
    let quiet : ((outside t s).paused ≡ true) = rw (alone, outside) paused in
    let waits : ((outside t s).outbound_pending ≡ none) = rw (alone, outside) nothing in
    elim (Bool-cases (outside t s).running) [
      | inr off ↦ rw (off, accept_turn) refl
      | inl on ↦ elim (Select-cases t.selected) [
        | inl (inl woke) ↦ rw (on, waits, woke, accept_turn) waits
        | inl (inr fails) ↦ rw (on, waits, fails, accept_turn) refl
        | inr (inr (ctrl, first)) ↦ rw (on, waits, first, accept_turn) refl
        | inr (inl (p, both)) ↦ rw (on, waits, both, quiet, accept_turn) waits
      ]
    ]

accept_loop-Refuses :
    (turns : List Turn) (s : Session)
    → All (λ (t : Turn). (t.paused ≡ true) × (t.promoted ≡ none)) turns
    → s.outbound_pending ≡ none
    → Refuses (accept_loop turns s)
unfolding accept_loop
accept_loop-Refuses [] s h nothing = nothing
accept_loop-Refuses (t ∷ turns) s h nothing =
    let now = accept_turn-Refuses t s h.0.0 h.0.1 nothing in
    elim (Ending-cases (accept_turn t s)) [
      | inl (s', e) ↦ rw (e, accept_loop) (accept_loop-Refuses turns s' h.1 (rw e at now))
      | inr (inl (s', e)) ↦ rw (e, accept_loop) refl
      | inr (inr (p, s', e)) ↦ let bad : (false ≡ true) = rw e at now in cc
    ]

-- While the worker is paused, and no pair that it opened itself comes in or waits, no session
-- begins: a wait that ends at all ends with no.
pub wait_for_client_paused :
    (turns : List Turn) (sent : Bool) (name : Option ℕ) (early : Early) (s : Session)
    (result : Bool × Session)
    → All (λ (t : Turn). (t.paused ≡ true) × (t.promoted ≡ none)) turns
    → s.outbound_pending ≡ none
    → wait_for_client turns sent name early s ≡ some result
    → result.0 ≡ false
unfolding wait_for_client
wait_for_client_paused turns sent name early s result h nothing ends =
    let refuses = accept_loop-Refuses turns (record s { disconnect_event = false }) h nothing in
    elim (Ending-cases (accept_loop turns (record s { disconnect_event = false }))) [
      | inl (s', e) ↦ let impossible = rw (e, wait_for_client) at ends in cc
      | inr (inl (s', e)) ↦
          ap (λ (r : Bool × Session). r.0) (sym (pair_eq (rw (e, wait_for_client) at ends)))
      | inr (inr (p, s', e)) ↦ let bad : (false ≡ true) = rw e at refuses in cc
    ]
