-- ===== src/Logs/Rotate/Files.antt =====
-- The log files as a list, the newest first, and what the rotation does to it.
use toothkey.Base.{
  ℕ, zero, suc, ◌≡◌, refl, ◌∙◌, ap, ◌+◌, ◌≤◌, ◌<◌, true, false, Option, none, some, List, [], ◌∷◌,
  ltb, is_some, arith,
}
use toothkey.Logs.Rotate.{Dir, Outcome, rotate_files, rotate_if_large}
use toothkey.Logs.Rotate.Newest.{Ended, failed, finished, rotated_next, rotate_files-Ended}

module _ (A : Type 0) where
  abbrev pub listed : Option A → List A → List A
  listed none more = more
  listed (some a) more = a ∷ more

  -- the files of so many numbers from `i`, the newest first
  abbrev pub files : ℕ → ℕ → Dir A → List A
  files i zero d = []
  files i (suc c) d = listed (d i) (files (suc i) c d)

  files_moved :
      (i c : ℕ) (d d' : Dir A)
      → ((k : ℕ) → k < i + c → d' (suc k) ≡ d k)
      → files (suc i) c d' ≡ files i c d
  files_moved i zero d d' f = refl
  files_moved i (suc c) d d' f =
      let rest = files_moved (suc i) c d d' (λ k lt. f k (omega arith)) in
      ap (λ (o : Option A). listed o (files (suc (suc i)) c d')) (f i (omega arith))
      ∙ ap (listed (d i)) rest

  Ended-files :
      (n good : ℕ) (d : Dir A) (o : Outcome A)
      → n + 2 ≤ good
      → Ended A n good d o
      → (is_some o.1 ≡ true) × (files 0 (suc (suc n)) o.0 ≡ files 0 (suc n) d)
  Ended-files n good d o enough (failed d' lt first next) = absurd (omega arith)
  Ended-files n good d o enough (finished d' g f) =
      let none_ = f 0 in
      (
        refl,
        ap (λ (a : Option A). listed a (files 1 (suc n) d')) none_
            ∙ files_moved 0 (suc n) d d' (λ k lt. rotated_next A n d d' f k (omega arith)),
      )

  rotate_if_large_big :
      (size : A → ℕ) (max_bytes keep good : ℕ) (d : Dir A) (a : A)
      → d 0 ≡ some a
      → max_bytes ≤ size a
      → let o = rotate_files A keep good d in
        rotate_if_large A size max_bytes keep good d ≡ (o.0, is_some o.1)
  unfolding rotate_if_large
  rotate_if_large_big size max_bytes keep good d a e large =
      let big : ltb (size a) max_bytes ≡ false = ground arith in rw (e, rotate_if_large, big) refl

  -- With a log that is too large, and if all calls succeed, the rotation returns true, and of the list
  -- of the log files, the newest first, nothing is gone but a file of the last number that is kept.
  pub rotate_if_large-files :
      (size : A → ℕ) (max_bytes n good : ℕ) (d : Dir A) (a : A)
      → d 0 ≡ some a
      → max_bytes ≤ size a
      → n + 2 ≤ good
      → let (d', rolls) = rotate_if_large A size max_bytes (suc n) good d in
        (rolls ≡ true) × (files 0 (suc (suc n)) d' ≡ files 0 (suc n) d)
  rotate_if_large-files size max_bytes n good d a e large enough =
      rw (rotate_if_large_big size max_bytes (suc n) good d a e large)
        (Ended-files n good d _ enough (rotate_files-Ended A n good d))
