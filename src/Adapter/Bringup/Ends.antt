-- ===== src/Adapter/Bringup/Ends.antt =====
-- The waits for the adapter end.
use toothkey.Base.{
  ℕ, ◌+◌, ◌*◌, ◌≤◌, ◌<◌, ◌≢◌, inl, inr, Bool, true, false, List, [], ◌∷◌, length, arith, Bool-cases,
  if◌then◌else◌, ltb,
}
use toothkey.Adapter.Bringup.{
  Look, no_object, no_property, off, on, Powering, waiting, look_at, power_turns,
  verify_adapter_powered, power_timeout,
}

-- every test comes at least half a second after the one before, which the sleep sees to
abbrev pub Spaced : ℕ → List (ℕ × Look) → Type 0
Spaced from [] = Unit
Spaced from ((now, look) ∷ more) = (from ≤ now) × Spaced (now + 500) more

look_at-ends :
    (look : Look) (bound : Bool) (next_bound next : Powering)
    → next_bound ≢ waiting
    → next ≢ waiting
    → look_at look bound next_bound next ≢ waiting
look_at-ends on bound next_bound next hb h = λ e. cc
look_at-ends off bound next_bound next hb h = hb
look_at-ends no_property bound next_bound next hb h = hb
look_at-ends no_object true next_bound next hb h = h
look_at-ends no_object false next_bound next hb h = λ e. cc

power_turns-ends :
    (deadline : ℕ) (bound : Bool) (from : ℕ) (turns : List (ℕ × Look))
    → Spaced from turns
    → deadline + 500 ≤ from + 500 * length turns
    → from < deadline + 500
    → power_turns deadline bound turns ≢ waiting
unfolding power_turns
power_turns-ends deadline bound from [] spaced enough early = absurd (omega arith)
power_turns-ends deadline bound from ((now, look) ∷ more) spaced enough early =
    elim (Bool-cases (ltb now deadline)) [
      | inl before ↦
          rw (before, if◌then◌else◌)
            (look_at-ends look bound _ _
              (power_turns-ends deadline true (now + 500) more (spaced.1) (omega arith)
                (ground arith))
              (power_turns-ends deadline bound (now + 500) more (spaced.1) (omega arith)
                (ground arith)))
      | inr after ↦ rw (after, if◌then◌else◌) (λ e. cc)
    ]

-- The wait for the adapter's power is over after 21 turns at most, whatever they meet: since the
-- turns are at least half a second apart, the last of them is past the timeout.
pub verify_adapter_powered-ends :
    (now : ℕ) (turns : List (ℕ × Look))
    → Spaced now turns
    → 21 ≤ length turns
    → verify_adapter_powered now turns ≢ waiting
unfolding verify_adapter_powered
verify_adapter_powered-ends now turns spaced enough =
    power_turns-ends (now + power_timeout) false now turns spaced (omega arith) (omega arith)
