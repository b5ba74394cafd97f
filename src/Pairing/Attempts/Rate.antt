-- ===== src/Pairing/Attempts/Rate.antt =====
-- How often, and whom, this machine asks to pair.
use toothkey.Base.{
  ℕ, ◌+◌, ◌<◌, ◌≤◌, ◌≡◌, refl, true, false, not, ◌&&◌, ◌||◌, List, [], ◌∷◌, ap, arith, ◌==◌, length,
  Bool-cases, inl, inr, All,
}
use toothkey.Pairing.Attempts.{
  Peer, Attempts, is_public, classic_pairing_candidate, pair_retry_interval, pair_attempt_allowed,
  on_interfaces_added, pair_calls,
}

-- Each of these times lies at least the retry interval after the one before.
abbrev pub IsSpaced : ℕ → List ℕ → Type 0
IsSpaced last [] = Unit {0}
IsSpaced last (t ∷ ts) = (last + pair_retry_interval ≤ t) × IsSpaced t ts

-- one appearance: what becomes of an address's entry
abbrev Entry : ℕ → ℕ → Peer → Attempts → Type 0
Entry addr now dev attempts =
    let (called, attempts') = on_interfaces_added now dev attempts in
    let (count, last) = attempts addr in
    (called && (dev.addr == addr) ≡ true
      → (attempts' addr ≡ (count + 1, now)) × (count < 5) × (last + pair_retry_interval ≤ now))
    × (called && (dev.addr == addr) ≡ false → attempts' addr ≡ attempts addr)

entry : (addr now : ℕ) (dev : Peer) (attempts : Attempts) → Entry addr now dev attempts
unfolding on_interfaces_added classic_pairing_candidate pair_attempt_allowed
entry addr now dev attempts =
    (λ called. (ground arith, ground arith, ground arith), λ idle. ground arith)

pair_calls-limits :
    (addr : ℕ) (appearances : List (ℕ × Peer)) (attempts : Attempts)
    → (attempts addr).0 ≤ 5
    → ((attempts addr).0 + length (pair_calls addr appearances attempts) ≤ 5)
      × IsSpaced (attempts addr).1 (pair_calls addr appearances attempts)
unfolding pair_calls
pair_calls-limits addr [] attempts h = (omega (arith, h), tt)
pair_calls-limits addr ((now, dev) ∷ appearances) attempts h =
    let (yes_entry, no_entry) = entry addr now dev attempts in
    let (called, attempts') = on_interfaces_added now dev attempts in
    elim (Bool-cases (called && (dev.addr == addr))) [
      | inl asked ↦
          let (same, few, apart) = yes_entry asked in
          let count : ((attempts' addr).0 ≡ (attempts addr).0 + 1) = ap (λ (x : ℕ × ℕ). x.0) same in
          let last : ((attempts' addr).1 ≡ now) = ap (λ (x : ℕ × ℕ). x.1) same in
          let (more, spaced) =
            pair_calls-limits addr appearances attempts' (omega (arith, count, few)) in
          rw asked (omega (arith, count, more), (apart, rw last at spaced))
      | inr idle ↦
          let same = no_entry idle in
          let limits = pair_calls-limits addr appearances attempts' (rw same h) in
          rw idle (rw same at limits)
    ]

abbrev pub no_attempts : Attempts
no_attempts addr = (0, 0)

-- However the devices in range come and go, in one run of the worker an address is asked to pair
-- at most five times, and each time at least 30 seconds after the time before.
pub pair_calls-rate :
    (addr : ℕ) (appearances : List (ℕ × Peer))
    → (length (pair_calls addr appearances no_attempts) ≤ 5)
      × IsSpaced 0 (pair_calls addr appearances no_attempts)
pair_calls-rate addr appearances =
    let (few, spaced) = pair_calls-limits addr appearances no_attempts (omega arith) in
    (omega (arith, few), spaced)

-- Bystanders are never asked: no call is made for an address that appears only with an LE
-- address, blocked, paired already, or connected by its own doing.
pub pair_calls_bystander :
    (addr : ℕ) (appearances : List (ℕ × Peer)) (attempts : Attempts)
    → All
        (λ e.
          (e.1.addr == addr) ≡ true
          → (not (is_public e.1.address_type) || e.1.blocked || e.1.paired || e.1.connected) ≡ true)
        appearances
    → pair_calls addr appearances attempts ≡ []
unfolding pair_calls on_interfaces_added classic_pairing_candidate
pair_calls_bystander addr [] attempts h = refl
pair_calls_bystander addr ((now, dev) ∷ appearances) attempts h =
    ground (
      arith,
      pair_calls_bystander addr appearances (on_interfaces_added now dev attempts).1 h.1,
      h.0,
    )
