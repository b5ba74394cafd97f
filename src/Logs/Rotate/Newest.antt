-- ===== src/Logs/Rotate/Newest.antt =====
-- What the rotation keeps, whether or not its calls succeed.
use toothkey.Base.{
  ℕ, zero, suc, ◌≡◌, refl, ◌⊎◌, inl, inr, ◌+◌, ◌-◌, ◌≤◌, ◌<◌, Bool, true, false, none, some,
  if◌then◌else◌, ltb, leb, is_some, ◌==◌, arith, Bool-cases, Option-cases, ==-cases,
}
use toothkey.Logs.Rotate.{
  Dir, replace, unlink, Outcome, call, clear, roll_all, rotate_files, rotate_if_large,
}
use toothkey.Logs.Rotate.Kept.{
  Rolled, raised, done, roll_all-raised, roll_all-Rolled, Shifted, shifted,
}

module _ (A : Type 0) where
  -- How `clear` ends.
  data Cleared (n good : ℕ) (d : Dir A) : Outcome A → Type 0 where
    stuck : good ≡ 0 → Cleared n good d (d, none)
    free :
        (d0 : Dir A) (g : ℕ)
        → good ≤ suc g
        → d0 n ≡ none
        → ((k : ℕ) → (k == n) ≡ false → d0 k ≡ d k)
        → Cleared n good d (d0, some g)

  clear-Cleared : (n good : ℕ) (d : Dir A) → Cleared n good d (clear A n good d)
  unfolding clear call
  clear-Cleared n zero d = elim (Option-cases (d n)) [
    | inl e ↦ simp e (free d 0 (omega arith) e (λ k ne. refl))
    | inr (a, e) ↦ simp e (stuck refl)
  ]
  clear-Cleared n (suc g) d = elim (Bool-cases (is_some (d n))) [
    | inl e ↦ simp e (free (unlink A d n) g (omega arith) (ground arith) (λ k ne. ground arith))
    | inr e ↦ simp e (free d (suc g) (omega arith) (ground arith) (λ k ne. refl))
  ]

  -- The directory after a rotation that keeps `n + 1` old files.
  abbrev pub rotated : ℕ → Dir A → Dir A
  rotated n d zero = none
  rotated n d (suc j) = if leb j n then d j else d (suc j)

  pub data Ended (n good : ℕ) (d : Dir A) : Outcome A → Type 0 where
    failed :
        (d' : Dir A)
        → good < n + 2
        → d' 0 ≡ d 0
        → ((k : ℕ) → k ≤ n → (d' k ≡ d k) ⊎ (d' (suc k) ≡ d k))
        → Ended n good d (d', none)
    finished : (d' : Dir A) (g : ℕ) → ((k : ℕ) → d' k ≡ rotated n d k) → Ended n good d (d', some g)

  -- Those files that were shifted are where a rotation has them, but for the first.
  shifted-rotated :
      (n : ℕ) (d d0 : Dir A)
      → ((k : ℕ) → (k == suc n) ≡ false → d0 k ≡ d k)
      → (j : ℕ) → shifted A n d0 (suc (suc j)) ≡ rotated n d (suc (suc j))
  shifted-rotated n d d0 same j = elim (==-cases j n) [
    | inl e ↦ rw e (ground (arith, same (suc (suc n))))
    | inr ne ↦ ground (arith, same (suc j), same (suc (suc j)))
  ]

  first-rotated :
      (n : ℕ) (d d0 d1 : Dir A)
      → ((k : ℕ) → (k == suc n) ≡ false → d0 k ≡ d k)
      → Shifted A n d0 d1
      → (k : ℕ) → replace A d1 0 1 k ≡ rotated n d k
  first-rotated n d d0 d1 same s zero = refl
  first-rotated n d d0 d1 same s (suc zero) = ground (arith, s 0, same 0)
  first-rotated n d d0 d1 same s (suc (suc j)) =
      ground (arith, s (suc (suc j)), shifted-rotated n d d0 same j)

  Shifted-next :
      (n : ℕ) (d d0 d1 : Dir A)
      → ((k : ℕ) → (k == suc n) ≡ false → d0 k ≡ d k)
      → Shifted A n d0 d1
      → (k : ℕ) → k ≤ n
      → (d1 k ≡ d k) ⊎ (d1 (suc k) ≡ d k)
  Shifted-next n d d0 d1 same s zero le = inl (ground (arith, s 0, same 0))
  Shifted-next n d d0 d1 same s (suc j) le =
      inr (ground (arith, s (suc (suc j)), shifted-rotated n d d0 same j))

  moved_first :
      (n good h : ℕ) (d d0 d1 : Dir A)
      → ((k : ℕ) → (k == suc n) ≡ false → d0 k ≡ d k)
      → Shifted A n d0 d1
      → good ≤ h + n + 1
      → Ended n good d (call A d1 (replace A d1 0 1) (some h))
  unfolding call
  moved_first n good zero d d0 d1 same s le =
      failed d1 (omega arith) (ground (arith, s 0, same 0)) (Shifted-next n d d0 d1 same s)
  moved_first n good (suc h) d d0 d1 same s le =
      finished (replace A d1 0 1) h (first-rotated n d d0 d1 same s)

  rolled_on :
      (n good g : ℕ) (d d0 : Dir A) (o : Outcome A)
      → good ≤ suc g
      → ((k : ℕ) → (k == suc n) ≡ false → d0 k ≡ d k)
      → Rolled A n g d0 o
      → Ended n good d (call A o.0 (replace A o.0 0 1) o.1)
  unfolding call
  rolled_on n good g d d0 o le same (raised d' lt first kept) =
      failed d' (omega arith) (ground (arith, first, same 0))
        (λ k le'. ground (arith, kept k, same k))
  rolled_on n good g d d0 o le same (done d' h le' s) =
      moved_first n good h d d0 d' same s (omega arith)

  cleared_on :
      (n good : ℕ) (d : Dir A) (o : Outcome A)
      → Cleared (suc n) good d o
      → let o' = roll_all A n o in Ended n good d (call A o'.0 (replace A o'.0 0 1) o'.1)
  unfolding call
  cleared_on n good d o (stuck e) =
      rw (roll_all-raised A n d) (failed d (omega arith) refl (λ k le. inl refl))
  cleared_on n good d o (free d0 g le gone same) =
      rolled_on n good g d d0 _ le same (roll_all-Rolled A n g d0 gone)

  pub rotate_files-Ended : (n good : ℕ) (d : Dir A) → Ended n good d (rotate_files A (suc n) good d)
  unfolding rotate_files
  rotate_files-Ended n good d =
      let less : suc n - 1 ≡ n = omega arith in
      rw less (cleared_on n good d _ (clear-Cleared (suc n) good d))

  rotate_if_large-cases :
      (size : A → ℕ) (max_bytes keep good : ℕ) (d : Dir A)
      → let r = rotate_if_large A size max_bytes keep good d in
        let o = rotate_files A keep good d in (r ≡ (d, false)) ⊎ (r ≡ (o.0, is_some o.1))
  unfolding rotate_if_large
  rotate_if_large-cases size max_bytes keep good d = elim (Option-cases (d 0)) [
    | inl e ↦ inl (rw (e, rotate_if_large) refl)
    | inr (a, e) ↦ elim (Bool-cases (ltb (size a) max_bytes)) [
      | inl small ↦ inl (rw (e, rotate_if_large, small) refl)
      | inr large ↦ inr (rw (e, rotate_if_large, large) refl)
    ]
  ]

  -- What a rotation that may fail owes to the files of a directory.
  abbrev pub Keeps : ℕ → Dir A → Dir A × Bool → Type 0
  Keeps n d (d', rolls) =
      ((k : ℕ) → k ≤ n → (d' k ≡ d k) ⊎ (d' (suc k) ≡ d k))
      × (rolls ≡ true → (k : ℕ) → d' k ≡ rotated n d k)
      × (rolls ≡ false → d' 0 ≡ d 0)

  pub rotated_next :
      (n : ℕ) (d d' : Dir A) → ((k : ℕ) → d' k ≡ rotated n d k) → (k : ℕ) → k ≤ n → d' (suc k) ≡ d k
  rotated_next n d d' f k le = ground (arith, f (suc k))

  Ended-Keeps :
      (n good : ℕ) (d : Dir A) (o : Outcome A) → Ended n good d o → Keeps n d (o.0, is_some o.1)
  Ended-Keeps n good d o (failed d' lt first next) = (next, λ r. cc, λ r. first)
  Ended-Keeps n good d o (finished d' g f) =
      (λ k le. inr (rotated_next n d d' f k le), λ r. f, λ r. cc)

  -- Whatever call fails: each file but the one of the last number keeps its number or takes the next
  -- one; if true is returned, each has taken the next one and the path itself is free, and if false
  -- is, the path itself has the file that it had.
  pub rotate_if_large-Keeps :
      (size : A → ℕ) (max_bytes n good : ℕ) (d : Dir A)
      → Keeps n d (rotate_if_large A size max_bytes (suc n) good d)
  rotate_if_large-Keeps size max_bytes n good d =
      elim (rotate_if_large-cases size max_bytes (suc n) good d) [
        | inl stays ↦ rw stays (λ k le. inl refl, λ r. cc, λ r. refl)
        | inr rolls ↦ rw rolls (Ended-Keeps n good d _ (rotate_files-Ended n good d))
      ]
