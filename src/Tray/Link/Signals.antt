-- ===== src/Tray/Link/Signals.antt =====
-- What the tray hears of a connection, and what it says first.
use toothkey.Base.{
  ℕ, ◌≡◌, refl, ap, ◌⊎◌, inl, inr, Bool, true, false, Option, none, some, List, [], ◌∷◌, ◌++◌, Text,
  Option-cases, if◌then◌else◌,
}
use toothkey.Tray.Link.{
  Link, Line, blank, bad_json, not_object, state, shutdown_ack, hello, unknown, Signal,
  state_changed, acked, worker_gone, reader_loop, start, Connect, first_connection, client_hello,
  session_env,
}

-- what the worker writes is objects
abbrev pub AreObjects {ℓ} : {A : Type ℓ} → List (Line A) → Type 0
AreObjects [] = Unit
AreObjects (not_object ∷ lines) = ⊥
AreObjects (blank ∷ lines) = AreObjects lines
AreObjects (bad_json ∷ lines) = AreObjects lines
AreObjects (state s ∷ lines) = AreObjects lines
AreObjects (shutdown_ack ∷ lines) = AreObjects lines
AreObjects (hello pid ∷ lines) = AreObjects lines
AreObjects (unknown ∷ lines) = AreObjects lines

-- the signals of the lines
abbrev pub signals_of {ℓ} : {A : Type ℓ} → List (Line A) → List (Signal A)
signals_of [] = []
signals_of (state s ∷ lines) = state_changed s ∷ signals_of lines
signals_of (shutdown_ack ∷ lines) = acked ∷ signals_of lines
signals_of (blank ∷ lines) = signals_of lines
signals_of (bad_json ∷ lines) = signals_of lines
signals_of (not_object ∷ lines) = signals_of lines
signals_of (hello pid ∷ lines) = signals_of lines
signals_of (unknown ∷ lines) = signals_of lines

-- If every line that is JSON is an object, each state and each acknowledgement is signalled once,
-- in order, whatever stands between them, and then, once and last, that the worker is gone.
pub reader_loop-signals_of {ℓ} :
    {A : Type ℓ} (lines : List (Line A))
    → AreObjects lines
    → reader_loop lines ≡ signals_of lines ++ worker_gone ∷ []
unfolding reader_loop
reader_loop-signals_of [] h = refl
reader_loop-signals_of (blank ∷ lines) h = reader_loop-signals_of lines h
reader_loop-signals_of (bad_json ∷ lines) h = reader_loop-signals_of lines h
reader_loop-signals_of (not_object ∷ lines) h = absurd h
reader_loop-signals_of (state s ∷ lines) h =
    ap (λ rest. state_changed s ∷ rest) (reader_loop-signals_of lines h)
reader_loop-signals_of (shutdown_ack ∷ lines) h =
    ap (λ rest. acked ∷ rest) (reader_loop-signals_of lines h)
reader_loop-signals_of (hello pid ∷ lines) h = reader_loop-signals_of lines h
reader_loop-signals_of (unknown ∷ lines) h = reader_loop-signals_of lines h

-- However start ends, nothing of the link before is left to write to: it raises with no
-- connection, or the connection is the new one, its reader runs, and the first message on it, if
-- it can be written, is the hello with the variables of the session that are set.
pub start-client_hello :
    (attempts : List Connect) (vars : List (Text × Option Text)) (succeeds : Bool) (l : Link)
    → (((start attempts vars succeeds l).1 ≡ false)
        × (((start attempts vars succeeds l).0.conn ≡ none)
            × ((start attempts vars succeeds l).0.wfh ≡ none)))
      ⊎ ((c : ℕ) × ((start attempts vars succeeds l).1 ≡ true)
          × (((start attempts vars succeeds l).0.conn ≡ some c)
              × (((start attempts vars succeeds l).0.readers ≡ l.readers ++ c ∷ [])
                  × ((start attempts vars succeeds l).0.written ≡ (
                      if succeeds
                      then l.written ++ (c, client_hello (session_env vars)) ∷ []
                      else l.written)))))
unfolding start
start-client_hello attempts vars true l = elim (Option-cases (first_connection attempts)) [
  | inl nobody ↦ inl (rw (nobody, start) (refl, (refl, refl)))
  | inr (c, came) ↦ inr (rw (came, start) (c, refl, (refl, (refl, refl))))
]
start-client_hello attempts vars false l = elim (Option-cases (first_connection attempts)) [
  | inl nobody ↦ inl (rw (nobody, start) (refl, (refl, refl)))
  | inr (c, came) ↦ inr (rw (came, start) (c, refl, (refl, (refl, refl))))
]
