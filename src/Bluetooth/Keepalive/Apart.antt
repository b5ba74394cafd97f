-- ===== src/Bluetooth/Keepalive/Apart.antt =====
-- How far apart the reports are.
use toothkey.Base.{
  ℕ, ◌+◌, ◌≤◌, ◌≡◌, ◌⊎◌, inl, inr, Bool, true, false, ◌&&◌, List, [], ◌∷◌, if◌then◌else◌, ltb,
  arith, Bool-cases, All,
}
use toothkey.Bluetooth.Keepalive.{Tick, keepalive_interval, keepalive_turns, keepalive_loop}

-- the first time is not before `from`, and each is two minutes or more after the one before
abbrev pub IsApart : ℕ → List ℕ → Type 0
IsApart from [] = Unit
IsApart from (t ∷ ts) = (from ≤ t) × IsApart (t + keepalive_interval) ts

-- the clock goes on, and a session that is seen to be gone is not back by the next test
abbrev pub IsSteady : Tick → Type 0
IsSteady t = (t.now ≤ t.restarted) × ((t.alive ≡ true) ⊎ (t.alive_after ≡ false))

IsApart-mono : (a b : ℕ) (ts : List ℕ) → b ≤ a → IsApart a ts → IsApart b ts
IsApart-mono a b [] h p = tt
IsApart-mono a b (t ∷ ts) h p = (omega (arith, p.0), p.1)

-- a report is sent only once the deadline is reached
due :
    (t : Tick) (deadline : ℕ)
    → (t.alive && ltb (t.now) deadline) ≡ false
    → t.alive_after ≡ true
    → (t.alive ≡ true) ⊎ (t.alive_after ≡ false)
    → deadline ≤ t.now
due t deadline over still steady = ground arith

keepalive_turns-IsApart :
    (deadline : ℕ) (ticks : List Tick)
    → All IsSteady ticks
    → IsApart deadline (keepalive_turns deadline ticks)
unfolding keepalive_turns
keepalive_turns-IsApart deadline [] steady = tt
keepalive_turns-IsApart deadline (t ∷ ticks) steady =
    elim (Bool-cases (t.alive && ltb (t.now) deadline)) [
      | inl waits ↦ rw (waits, if◌then◌else◌) (keepalive_turns-IsApart deadline ticks (steady.1))
      | inr over ↦ elim (Bool-cases (t.alive_after)) [
        | inr gone ↦ rw (over, gone, if◌then◌else◌) tt
        | inl still ↦ elim (Bool-cases (t.alive_next)) [
          | inl next ↦
              rw (over, still, next, if◌then◌else◌)
                (
                  due t deadline over still (steady.0.1),
                  IsApart-mono (t.restarted + keepalive_interval) (t.now + keepalive_interval) _
                      (omega (arith, steady.0.0))
                      (keepalive_turns-IsApart (t.restarted + keepalive_interval) ticks (steady.1)),
                )
          | inr last ↦
              rw (over, still, last, if◌then◌else◌) (due t deadline over still (steady.0.1), tt)
        ]
      ]
    ]

-- The reports of one thread are at least two minutes apart, and the first comes no earlier than
-- two minutes after the thread starts, if the clock goes on and no session that is seen to be gone
-- is back by the next test of the flags.
pub keepalive_loop-IsApart :
    (alive : Bool) (now : ℕ) (ticks : List Tick)
    → All IsSteady ticks
    → IsApart (now + keepalive_interval) (keepalive_loop alive now ticks)
unfolding keepalive_loop
keepalive_loop-IsApart true now ticks steady =
    keepalive_turns-IsApart (now + keepalive_interval) ticks steady
keepalive_loop-IsApart false now ticks steady = tt
