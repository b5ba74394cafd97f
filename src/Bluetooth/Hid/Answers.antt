-- ===== src/Bluetooth/Hid/Answers.antt =====
-- What the host is answered, against a table of the answers by transaction type.
use toothkey.Base.{
  ℕ, ◌/◌, ◌%◌, ◌<◌, ◌≡◌, refl, Bool, true, false, ◌&&◌, Option, none, some, List, [], ◌∷◌, get_or,
  arith, if◌then◌else◌, ◌==◌, ◌⊎◌, inl, inr, Bool-cases, all_below, all_below_sound, ap, All,
}
use toothkey.Bluetooth.Hid.{
  Seen, Turn, note_type, type_of, param_of, handshake, hid_data_reply, reply_to, watch_connection,
  sends,
}

-- The answer to a transaction: SET requests are granted, an input report is the empty
-- one behind a DATA header, other reports are refused, as is every unknown request.
pub data Expected : Type 0 where
  silence granted no_such_report unsupported : Expected
  value : List ℕ → Expected

abbrev pub input_report : ℕ → Expected
input_report param =
    if param % 4 == 1 then value (0xA1 ∷ 0 ∷ 0 ∷ 0 ∷ 0 ∷ 0 ∷ 0 ∷ 0 ∷ 0 ∷ []) else no_such_report

-- by transaction type, from 0 to 10
abbrev pub expected : ℕ → ℕ → Expected
expected t_type param =
    get_or
      (unsupported
        ∷ silence
        ∷ unsupported
        ∷ unsupported
        ∷ input_report param
        ∷ granted
        ∷ value (0xA1 ∷ [])
        ∷ granted
        ∷ value (0xA0 ∷ 0 ∷ [])
        ∷ granted
        ∷ silence
        ∷ [])
      t_type unsupported

abbrev pub bytes_of : Expected → Option (List ℕ)
bytes_of silence = none
bytes_of granted = some (0x00 ∷ [])
bytes_of no_such_report = some (0x02 ∷ [])
bytes_of unsupported = some (0x03 ∷ [])
bytes_of (value bytes) = some bytes

-- What the device is to send for a run of transactions, in order.
abbrev pub answers : List (List ℕ) → List (List ℕ)
answers [] = []
answers ([] ∷ heard) = answers heard
answers ((header ∷ payload) ∷ heard) =
    sends (bytes_of (expected (header / 16) (header % 16))) (answers heard)

-- The transactions that arrive while the session lasts.
abbrev pub heard : List Turn → List (List ℕ)
heard [] = []
heard (turn ∷ turns) = elim turn.connected [
  | false ↦ []
  | true ↦ elim turn.received [
    | none ↦ []
    | some [] ↦ []
    | some (header ∷ payload) ↦ let rest = heard turns in (header ∷ payload) ∷ rest
  ]
]

-- Those of them that come while the sender takes what it is given.
abbrev pub taken : List Turn → List (List ℕ)
taken [] = []
taken (turn ∷ turns) = elim turn.connected [
  | false ↦ []
  | true ↦ elim turn.received [
    | none ↦ []
    | some [] ↦ []
    | some (header ∷ payload) ↦
        let rest = taken turns in if turn.queueing then (header ∷ payload) ∷ rest else rest
  ]
]

-- a transaction of bytes
abbrev pub IsBytes : List ℕ → Type 0
IsBytes bytes = All (λ b. b < 256) bytes

abbrev eq_bytes : List ℕ → List ℕ → Bool
eq_bytes [] [] = true
eq_bytes (x ∷ xs) (y ∷ ys) = x == y && eq_bytes xs ys
eq_bytes _ _ = false

eq_bytes→eq : (xs ys : List ℕ) → eq_bytes xs ys ≡ true → xs ≡ ys
eq_bytes→eq [] [] h = refl
eq_bytes→eq (x ∷ xs) (y ∷ ys) h = ground (arith, eq_bytes→eq xs ys)
eq_bytes→eq [] (y ∷ ys) h = cc
eq_bytes→eq (x ∷ xs) [] h = cc

abbrev eq_reply : Option (List ℕ) → Option (List ℕ) → Bool
eq_reply none none = true
eq_reply (some a) (some b) = eq_bytes a b
eq_reply _ _ = false

eq_reply→eq : (a b : Option (List ℕ)) → eq_reply a b ≡ true → a ≡ b
eq_reply→eq none none h = refl
eq_reply→eq (some a) (some b) h = ap some (eq_bytes→eq a b h)
eq_reply→eq none (some b) h = cc
eq_reply→eq (some a) none h = cc

reply_table :
    all_below 256
      (λ h. eq_reply (reply_to (type_of h) (param_of h)) (bytes_of (expected (h / 16) (h % 16))))
    ≡ true
unfolding all_below reply_to handshake hid_data_reply
reply_table = refl

reply_to-expected :
    (h : ℕ) → h < 256 → reply_to (type_of h) (param_of h) ≡ bytes_of (expected (h / 16) (h % 16))
reply_to-expected h small = eq_reply→eq _ _ (all_below_sound 256 _ h reply_table small)

pub Received-cases :
    (r : Option (List ℕ))
    → ((r ≡ none) ⊎ (r ≡ some [])) ⊎ ((h : ℕ) × (payload : List ℕ) × (r ≡ some (h ∷ payload)))
Received-cases none = inl (inl refl)
Received-cases (some []) = inl (inr refl)
Received-cases (some (h ∷ payload)) = inr (h, payload, refl)

-- While the session lasts, every transaction that comes while the sender has a queue gets its answer,
-- in the order of arrival, and nothing else is sent; one that comes before `_start_hid_sender` has
-- made the queue gets none. The answers: SET requests are granted, GET requests answered or refused, HID_CONTROL and DATA
-- met with silence, and anything else, a HANDSHAKE included, refused as unsupported.
pub watch_connection-answers :
    (turns : List Turn) (seen : Seen)
    → All IsBytes (taken turns)
    → (watch_connection turns seen).0 ≡ answers (taken turns)
unfolding watch_connection
watch_connection-answers [] seen bytes = refl
watch_connection-answers (turn ∷ turns) seen bytes = elim (Bool-cases turn.connected) [
  | inr gone ↦ rw (gone, watch_connection, taken) refl
  | inl on ↦ elim (Received-cases turn.received) [
    | inl (inl failed) ↦ rw (on, failed, watch_connection, taken) refl
    | inl (inr closed) ↦ rw (on, closed, watch_connection, taken) refl
    | inr (h, payload, got) ↦
        let rest = watch_connection-answers turns (note_type (type_of h) seen) in
        elim (Bool-cases turn.queueing) [
          | inl takes ↦
              let small : (IsBytes (h ∷ payload) × All IsBytes (taken turns)) =
                rw (on, got, takes, taken) at bytes in
              rw
                (
                  on,
                  got,
                  takes,
                  watch_connection,
                  taken,
                  reply_to-expected h small.0.0,
                  rest small.1,
                )
                refl
          | inr drops ↦
              let small : All IsBytes (taken turns) = rw (on, got, drops, taken) at bytes in
              rw (on, got, drops, watch_connection, taken, rest small) refl
        ]
  ]
]
