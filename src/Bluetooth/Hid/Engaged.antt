-- ===== src/Bluetooth/Hid/Engaged.antt =====
-- Which sessions count as used by the host, and which are torn down as phantoms.
use toothkey.Base.{
  ℕ, ◌/◌, ◌%◌, ◌≡◌, refl, Bool, true, false, not, ◌&&◌, ◌||◌, none, some, List, [], ◌∷◌, ◌++◌,
  arith, ◌==◌, any, all, is_empty, add_new, ℕ_discrete, Bool-cases, inl, inr, ltb,
}
use toothkey.Bluetooth.Hid.{
  Seen, Turn, Look, type_of, watch_connection, phantom_session_watchdog, handle_control_transaction,
}
use toothkey.Bluetooth.Hid.Answers.{heard, Received-cases}

-- The watchdog's question: `if seen`.
abbrev pub is_engaged : Seen → Bool
is_engaged none = false
is_engaged (some seen) = not (is_empty seen)

-- a transaction other than a HANDSHAKE
abbrev pub is_substantive : List ℕ → Bool
is_substantive [] = false
is_substantive (header ∷ payload) = not (header / 16 % 16 == 0)

add_new-nonempty : (xs : List ℕ) (x : ℕ) → is_empty (add_new ℕ_discrete xs x) ≡ false
add_new-nonempty [] x = refl
add_new-nonempty (y ∷ xs) x = ground arith

engaged_more :
    (turns : List Turn) (seen : List ℕ)
    → is_engaged (watch_connection turns (some seen)).1
      ≡ (not (is_empty seen) || any is_substantive (heard turns))
unfolding watch_connection
engaged_more [] seen = ground arith
engaged_more (turn ∷ turns) seen = elim (Bool-cases turn.connected) [
  | inr gone ↦ rw (gone, watch_connection, heard) (ground arith)
  | inl on ↦ elim (Received-cases turn.received) [
    | inl (inl failed) ↦ rw (on, failed, watch_connection, heard) (ground arith)
    | inl (inr closed) ↦ rw (on, closed, watch_connection, heard) (ground arith)
    | inr (h, payload, got) ↦ elim (Bool-cases (h / 16 % 16 == 0)) [
      | inl shake ↦
          rw (on, got, watch_connection, heard, handle_control_transaction, shake)
            (engaged_more turns seen)
      | inr real ↦
          rw (on, got, watch_connection, heard, handle_control_transaction, real)
            (ground (
              arith,
              engaged_more turns (add_new ℕ_discrete seen (type_of h)),
              add_new-nonempty seen (type_of h),
            ))
    ]
  ]
]

-- A fresh session counts as used exactly if the host sent, while it lasted, a transaction that is
-- not a HANDSHAKE.
pub watch_connection-is_engaged :
    (turns : List Turn)
    → is_engaged (watch_connection turns (some [])).1 ≡ any is_substantive (heard turns)
watch_connection-is_engaged turns = engaged_more turns []

-- Does this look keep the watch going?
abbrev pub is_live : ℕ → Look → Bool
is_live deadline l = l.running && l.connected && ltb l.now deadline

-- The watch ends with its first look that finds the session over or the deadline passed: the link
-- is torn down exactly if no look before it found the session used, and after it the session is
-- still on and still unused.
pub phantom_session_watchdog-verdict :
    (deadline : ℕ) (before : List Look) (last : Look) (rest : List Look) (after : Look)
    → all (is_live deadline) before ≡ true
    → is_live deadline last ≡ false
    → phantom_session_watchdog deadline (before ++ last ∷ rest) after
      ≡ some (
          all (λ (l : Look). not l.engaged) before
          && after.running
          && after.connected
          && not after.engaged)
unfolding phantom_session_watchdog
phantom_session_watchdog-verdict deadline [] last rest after live over = ground arith
phantom_session_watchdog-verdict deadline (l ∷ before) last rest after live over =
    ground (arith, phantom_session_watchdog-verdict deadline before last rest after)
