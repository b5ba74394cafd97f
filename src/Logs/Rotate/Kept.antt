-- ===== src/Logs/Rotate/Kept.antt =====
-- Where the rotation leaves each file.
use toothkey.Base.{
  ℕ, zero, suc, ◌≡◌, refl, ◌⊎◌, inl, inr, ◌+◌, ◌≤◌, ◌<◌, true, none, some, if◌then◌else◌, leb,
  is_some, ◌==◌, arith, Bool-cases, Option-cases, ==-cases,
}
use toothkey.Logs.Rotate.{Dir, replace, Outcome, call, roll, roll_all}

module _ (A : Type 0) where
  -- the file of number `n` moved up
  abbrev Moved : ℕ → Dir A → Dir A → Type 0
  Moved n d d' = (k : ℕ) → d' k ≡ (if k == n then none else if k == suc n then d n else d k)

  replace-Moved : (n : ℕ) (d : Dir A) → Moved n d (replace A d n (suc n))
  replace-Moved n d k = ground arith

  still-Moved : (n : ℕ) (d : Dir A) → d n ≡ none → d (suc n) ≡ none → Moved n d d
  still-Moved n d gone free k = elim (==-cases k n) [
    | inl e ↦ rw e (ground arith)
    | inr ne ↦ elim (==-cases k (suc n)) [ inl e ↦ rw e (ground arith) | inr ne' ↦ ground arith ]
  ]

  -- Where the files from 1 to `n` have moved up, and 1 is free.
  abbrev pub shifted : ℕ → Dir A → Dir A
  shifted n d zero = d 0
  shifted n d (suc j) = if j == 0 then none else if leb j n then d j else d (suc j)

  abbrev pub Shifted : ℕ → Dir A → Dir A → Type 0
  Shifted n d d' = (k : ℕ) → d' k ≡ shifted n d k

  -- Each file up to `n` has its number or the next one, and the others stay.
  abbrev pub Kept : ℕ → Dir A → Dir A → Type 0
  Kept n d d' = (k : ℕ) → (k ≤ n → (d' k ≡ d k) ⊎ (d' (suc k) ≡ d k)) × (suc n < k → d' k ≡ d k)

  Shifted-zero : (d : Dir A) → d 1 ≡ none → Shifted 0 d d
  Shifted-zero d free zero = refl
  Shifted-zero d free (suc j) = elim (==-cases j 0) [
    | inl e ↦ rw e (ground arith)
    | inr ne ↦ ground arith
  ]

  Moved-Shifted :
      (n : ℕ) (d d1 d' : Dir A) → Moved (suc n) d d1 → Shifted n d1 d' → Shifted (suc n) d d'
  Moved-Shifted n d d1 d' m s zero = ground (arith, m 0, s 0)
  Moved-Shifted n d d1 d' m s (suc j) = elim (==-cases j (suc n)) [
    | inl e ↦ rw e (ground (arith, m (suc (suc n)), s (suc (suc n))))
    | inr ne ↦ ground (arith, m j, m (suc j), s (suc j))
  ]

  Moved-Kept : (n : ℕ) (d d1 d' : Dir A) → Moved (suc n) d d1 → Kept n d1 d' → Kept (suc n) d d'
  Moved-Kept n d d1 d' m s k = elim (==-cases k (suc n)) [
    | inl e ↦ rw e (ground (arith, m (suc (suc n)), s (suc (suc n))))
    | inr ne ↦ ground (arith, m k, s k)
  ]

  -- How the loop over the files from `n` down to 1 ends, with so many calls that are good.
  pub data Rolled (n good : ℕ) (d : Dir A) : Outcome A → Type 0 where
    raised : (d' : Dir A) → good < n → d' 0 ≡ d 0 → Kept n d d' → Rolled n good d (d', none)
    done : (d' : Dir A) (g : ℕ) → good ≤ g + n → Shifted n d d' → Rolled n good d (d', some g)

  Moved-Rolled :
      (n good g : ℕ) (d d1 : Dir A) (o : Outcome A)
      → Moved (suc n) d d1
      → good ≤ suc g
      → Rolled n g d1 o
      → Rolled (suc n) good d o
  Moved-Rolled n good g d d1 o m le (raised d' lt first k) =
      raised d' (omega arith) (ground (arith, m 0)) (Moved-Kept n d d1 d' m k)
  Moved-Rolled n good g d d1 o m le (done d' h le' s) =
      done d' h (omega arith) (Moved-Shifted n d d1 d' m s)

  pub roll_all-raised : (n : ℕ) (d : Dir A) → roll_all A n (d, none) ≡ (d, none)
  unfolding roll_all roll call
  roll_all-raised zero d = refl
  roll_all-raised (suc n) d = elim (Bool-cases (is_some (d (suc n)))) [
    | inl e ↦ simp e (roll_all-raised n d)
    | inr e ↦ simp e (roll_all-raised n d)
  ]

  roll-cases :
      (n good : ℕ) (d : Dir A)
      → is_some (d n) ≡ true
      → ((good ≡ 0) × (roll A n (d, some good) ≡ (d, none)))
        ⊎ ((g : ℕ) × (good ≡ suc g) × (roll A n (d, some good) ≡ (replace A d n (suc n), some g)))
  unfolding roll call
  roll-cases n zero d e = simp e (inl (refl, refl))
  roll-cases n (suc g) d e = simp e (inr (g, refl, refl))

  pub roll_all-Rolled :
      (n good : ℕ) (d : Dir A) → d (suc n) ≡ none → Rolled n good d (roll_all A n (d, some good))
  unfolding roll_all
  roll_all-Rolled zero good d free = done d good (omega arith) (Shifted-zero d free)
  roll_all-Rolled (suc n) good d free = elim (Option-cases (d (suc n))) [
    | inl gone ↦
        let stays : roll A (suc n) (d, some good) ≡ (d, some good) =
          unfold roll in simp gone refl in
        rw stays (
          Moved-Rolled n good good d d _ (still-Moved (suc n) d gone free) (omega arith)
            (roll_all-Rolled n good d gone))
    | inr (a, e) ↦ elim (roll-cases (suc n) good d (rw e refl)) [
      | inl (out, fails) ↦
          rw (fails, roll_all-raised n d)
            (raised d (omega arith) refl (λ k. (λ le. inl refl, λ lt. refl)))
      | inr (g, more, moves) ↦ rw moves (
          Moved-Rolled n good g d (replace A d (suc n) (suc (suc n))) _ (replace-Moved (suc n) d)
            (omega arith) (roll_all-Rolled n g (replace A d (suc n) (suc (suc n))) (ground arith)))
    ]
  ]
