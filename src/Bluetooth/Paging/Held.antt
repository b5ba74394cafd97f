-- ===== src/Bluetooth/Paging/Held.antt =====
-- How long the link is held after a page.
use toothkey.Base.{
  ℕ, ◌+◌, ◌*◌, ◌≤◌, ◌<◌, ◌≡◌, refl, Bool, true, false, not, ◌||◌, List, [], ◌∷◌, ◌++◌, length,
  arith, All, Bool-cases, inl, inr, ltb,
}
use toothkey.Bluetooth.Paging.{Hold, held, closed, hold_turns, hold_sdp_socket}

-- every test comes at least a quarter of a second after the one before, which the sleep sees to
abbrev pub Spaced : ℕ → List Hold → Type 0
Spaced from [] = Unit
Spaced from (h ∷ more) = (from ≤ h.now) × Spaced (h.now + 250) more

hold_turns-closes :
    (deadline from : ℕ) (tests : List Hold)
    → Spaced from tests
    → deadline + 250 ≤ from + 250 * length tests
    → from < deadline + 250
    → hold_turns deadline tests ≡ closed
unfolding hold_turns
hold_turns-closes deadline from [] spaced enough early = absurd (omega arith)
hold_turns-closes deadline from (h ∷ more) (now, spaced) enough early =
    elim (Bool-cases (ltb h.now deadline)) [
      | inl before ↦
          ground (
            arith,
            hold_turns-closes deadline (h.now + 250) more spaced (omega arith) (ground arith),
          )
      | inr after ↦ ground arith
    ]

-- a test at which the loop is left: the worker stops, the time is over, or a session is on
abbrev pub is_over : ℕ → Hold → Bool
is_over deadline h = not h.running || not (ltb h.now deadline) || h.connected

hold_turns-over :
    (deadline : ℕ) (tests more : List Hold) (h : Hold)
    → All (λ (k : Hold). is_over deadline k ≡ false) tests
    → (hold_turns deadline tests ≡ held)
      × (is_over deadline h ≡ true → hold_turns deadline (tests ++ h ∷ more) ≡ closed)
unfolding hold_turns
hold_turns-over deadline [] more h before = (refl, λ e. ground arith)
hold_turns-over deadline (k ∷ tests) more h (still, before) =
    let (holds, closes) = hold_turns-over deadline tests more h before in
    (ground arith, λ e. ground (arith, closes e))

-- The socket that keeps the link up after a page is held for as long as no test of the loop finds a
-- session, a stop of the worker or 30 seconds gone, and closed at the first that does. It is closed
-- after 121 tests at the latest, since they are at least a quarter of a second apart.
pub hold_sdp_socket-closes :
    (now : ℕ) (tests : List Hold)
    → Spaced now tests
    → (121 ≤ length tests → hold_sdp_socket now tests ≡ closed)
      × ((before more : List Hold) (h : Hold)
          → tests ≡ before ++ h ∷ more
          → All (λ (k : Hold). is_over (now + 30000) k ≡ false) before
          → (hold_sdp_socket now before ≡ held)
            × (is_over (now + 30000) h ≡ true → hold_sdp_socket now tests ≡ closed))
unfolding hold_sdp_socket
hold_sdp_socket-closes now tests spaced = (
  λ enough. hold_turns-closes (now + 30000) now tests spaced (omega arith) (omega arith),
  λ before more h e still.
      let (holds, closes) = hold_turns-over (now + 30000) before more h still in
      (holds, λ over. rw e (closes over)),
)
