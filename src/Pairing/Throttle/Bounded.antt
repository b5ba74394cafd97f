-- ===== src/Pairing/Throttle/Bounded.antt =====
-- The throttle's memory, and its count of repeats.
use toothkey.Base.{
  ℕ, suc, ◌+◌, ◌<◌, ◌≤◌, ◌≡◌, refl, Bool, true, false, not, ◌&&◌, none, some, List, [], ◌∷◌, arith,
  if◌then◌else◌, ◌==◌, ltb, leb, length, Bool-cases, Option-cases, inl, inr, All, ◌≢◌, ◌∙◌, ap,
}
use toothkey.Pairing.Throttle.{
  Entry, throttle_max_keys, get, put, oldest, delete, drop_oldest, last_of, suppressed_of, is_in,
  tlog_throttled,
}

length-put :
    (key last suppressed : ℕ) (state : List Entry)
    → length (put key last suppressed state)
      ≡ (if is_in (get key state) then length state else suc (length state))
unfolding put get
length-put key last suppressed [] = refl
length-put key last suppressed (e ∷ es) = ground (arith, length-put key last suppressed es)

length-delete :
    (key : ℕ) (state : List Entry)
    → is_in (get key state) ≡ true
    → suc (length (delete key state)) ≡ length state
unfolding delete get
length-delete key [] h = cc
length-delete key (e ∷ es) h = ground (arith, length-delete key es)

get-delete_absent :
    (key gone : ℕ) (state : List Entry)
    → is_in (get key state) ≡ false
    → is_in (get key (delete gone state)) ≡ false
unfolding delete get
get-delete_absent key gone [] h = refl
get-delete_absent key gone (e ∷ es) h = ground (arith, get-delete_absent key gone es)

oldest-present :
    (e : Entry) (es : List Entry) → is_in (get (Entry.key (oldest e es)) (e ∷ es)) ≡ true
unfolding oldest get
oldest-present e [] = ground arith
oldest-present e (f ∷ es) = ground (arith, oldest-present f es, oldest-present e es)

absent-none : (key : ℕ) (state : List Entry) → is_in (get key state) ≡ false → get key state ≡ none
absent-none key state h = elim (Option-cases (get key state)) [
  | inl n ↦ n
  | inr (e, found) ↦ absurd (ground arith)
]

make_room :
    (key now : ℕ) (state : List Entry)
    → 512 ≤ length state
    → is_in (get key state) ≡ false
    → length (put key now 0 (drop_oldest state)) ≤ length state
make_room key now [] many absent = ground arith
make_room key now (e ∷ es) many absent =
    let gone = Entry.key (oldest e es) in
    ground (
      arith,
      length-put key now 0 (delete gone (e ∷ es)),
      length-delete gone (e ∷ es) (oldest-present e es),
      get-delete_absent key gone (e ∷ es) absent,
    )

-- The throttle never comes to remember more than 512 keys.
pub tlog_throttled-length :
    (key now interval : ℕ) (state : List Entry)
    → length state ≤ 512
    → length (tlog_throttled key now interval state).0 ≤ 512
unfolding tlog_throttled
tlog_throttled-length key now interval state h = elim (Bool-cases (is_in (get key state))) [
  | inl known ↦ ground (
    arith,
    length-put key (last_of (get key state)) (suppressed_of (get key state) + 1) state,
    length-put key now 0 state,
    known,
  )
  | inr fresh ↦
      let none_known : (get key state ≡ none) = absent-none key state fresh in
      elim (Bool-cases (leb 512 (length state))) [
        | inl many ↦ ground (arith, none_known, make_room key now state (ground arith) fresh)
        | inr few ↦ ground (arith, none_known, length-put key now 0 state)
      ]
]

get-put :
    (key last suppressed : ℕ) (state : List Entry)
    → get key (put key last suppressed state)
      ≡ some (record { key = key; last = last; suppressed = suppressed })
unfolding get put
get-put key last suppressed [] = ground arith
get-put key last suppressed (e ∷ es) = ground (arith, get-put key last suppressed es)

-- The calls with one key at these times: the state after them, and whether none logged a line.
abbrev pub calls : ℕ → ℕ → List ℕ → List Entry → List Entry × Bool
calls key interval [] state = (state, true)
calls key interval (now ∷ times) state =
    let (state', line) = tlog_throttled key now interval state in
    let rest = calls key interval times state' in
    elim line [ none ↦ rest | some dropped ↦ (rest.0, false) ]

abbrev Remembers : ℕ → ℕ → ℕ → List Entry → Type 0
Remembers key t n state = get key state ≡ some (record { key = key; last = t; suppressed = n })

tlog_throttled-quiet :
    (key t n u interval : ℕ) (state : List Entry)
    → 0 < t
    → u < t + interval
    → Remembers key t n state
    → ((tlog_throttled key u interval state).1 ≡ none)
      × Remembers key t (suc n) (tlog_throttled key u interval state).0
unfolding tlog_throttled
tlog_throttled-quiet key t n u interval state pos early found =
    (ground arith, ground (arith, get-put key t (n + 1) state))

calls-quiet :
    (key t n interval : ℕ) (times : List ℕ) (state : List Entry)
    → 0 < t
    → All (λ u. u < t + interval) times
    → Remembers key t n state
    → ((calls key interval times state).1 ≡ true)
      × Remembers key t (n + length times) (calls key interval times state).0
calls-quiet key t n interval [] state pos early found = (refl, ground arith)
calls-quiet key t n interval (u ∷ times) state pos early found =
    let (quiet, more) = tlog_throttled-quiet key t n u interval state pos early.0 found in
    let state' = (tlog_throttled key u interval state).0 in
    ground (arith, quiet, calls-quiet key t (suc n) interval times state' pos early.1 more)

tlog_throttled-logged :
    (key t interval : ℕ) (state : List Entry)
    → (tlog_throttled key t interval state).1 ≢ none
    → Remembers key t 0 (tlog_throttled key t interval state).0
unfolding tlog_throttled
tlog_throttled-logged key t interval state logged =
    let known = is_in (get key state) in
    let room =
      if leb throttle_max_keys (length state) && not known then drop_oldest state else state in
    elim (Bool-cases
      (not (last_of (get key state) == 0) && ltb t (last_of (get key state) + interval))) [
        | inl held ↦ absurd (logged (ground arith))
        | inr due ↦ rw due (get-put key t 0 room)
      ]

tlog_throttled-due :
    (key t n now interval : ℕ) (state : List Entry)
    → Remembers key t n state
    → t + interval ≤ now
    → (tlog_throttled key now interval state).1 ≡ some n
unfolding tlog_throttled
tlog_throttled-due key t n now interval state found late = ground arith

-- After a line logged at a time other than 0, calls with its key within the interval log nothing,
-- and the first call after the interval logs a line that says how many they were.
pub tlog_throttled-counts :
    (key t now interval : ℕ) (times : List ℕ) (state : List Entry)
    → 0 < t
    → (tlog_throttled key t interval state).1 ≢ none
    → All (λ u. u < t + interval) times
    → t + interval ≤ now
    → let (state', quiet) = calls key interval times (tlog_throttled key t interval state).0 in
      (quiet ≡ true) × ((tlog_throttled key now interval state').1 ≡ some (length times))
tlog_throttled-counts key t now interval times state pos logged early late =
    let state' = (tlog_throttled key t interval state).0 in
    let fresh = tlog_throttled-logged key t interval state logged in
    let (quiet, kept) = calls-quiet key t 0 interval times state' pos early fresh in
    (
      quiet,
      tlog_throttled-due key t (0 + length times) now interval _ kept late ∙ ap some (omega arith),
    )
