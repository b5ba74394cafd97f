-- ===== src/Base/Members.antt =====
-- Membership in a list whose elements are compared by a decision: Python's `in`, `set.add`,
-- `list.append` of a new element, `list.remove` and `set.discard`.
use mathlib.Core.Path.{◌≡◌, refl, sym, ◌∙◌}
use mathlib.Core.Logic.{ite, inl, inr, if_pos, if_neg}
use mathlib.Core.List.{List, [], ◌∷◌, ◌++◌}
use mathlib.Core.Bool.{Bool, true, false, ◌||◌}
use native.Mathlib.Omega.{arith}
use toothkey.Base.Lists.{All, All-append}
use toothkey.Base.Tests.{Bool-cases, if◌then◌else◌, is_decided}

module _ {ℓ} {A : Type ℓ} (dec : Discrete A) where
  -- `a in xs`
  abbrev pub has : List A → A → Bool
  has [] a = false
  has (x ∷ xs) a = ite (dec x a) true (has xs a)

  -- `if a not in xs: xs.append(a)`
  abbrev pub add_new : List A → A → List A
  add_new xs a = if has xs a then xs else xs ++ a ∷ []

  -- the first `a` goes, if there is one
  abbrev pub remove : List A → A → List A
  remove [] a = []
  remove (x ∷ xs) a = ite (dec x a) xs (x ∷ remove xs a)

  abbrev pub IsNodup : List A → Type 0
  IsNodup [] = Unit {0}
  IsNodup (x ∷ xs) = (has xs x ≡ false) × IsNodup xs

  pub has-append : (xs ys : List A) (a : A) → has (xs ++ ys) a ≡ (has xs a || has ys a)
  has-append [] ys a = refl
  has-append (x ∷ xs) ys a = ground (arith, has-append xs ys a)

  pub has-add_new :
      (xs : List A) (a b : A) → has (add_new xs a) b ≡ (is_decided (dec a b) || has xs b)
  has-add_new xs a b = ground (arith, has-append xs (a ∷ []) b)

  pub has-remove_ne : (xs : List A) (a b : A) → ¬ (a ≡ b) → has (remove xs a) b ≡ has xs b
  has-remove_ne [] a b h = refl
  has-remove_ne (x ∷ xs) a b h = elim (dec x a) [
    | yes e ↦ rw (if_pos _ e) (rw (if_neg _ (λ p. h (sym e ∙ p))))
    | no n ↦ rw (if_neg _ n) (rw (has-remove_ne xs a b h))
  ]

  pub has-remove_self : (xs : List A) (a : A) → IsNodup xs → has (remove xs a) a ≡ false
  has-remove_self [] a h = refl
  has-remove_self (x ∷ xs) a h = elim (dec x a) [
    | yes e ↦ rw (if_pos _ e) (rw e at h.0)
    | no n ↦ rw (if_neg _ n) (rw (if_neg _ n) (has-remove_self xs a h.1))
  ]

  pub IsNodup-snoc : (xs : List A) (a : A) → IsNodup xs → has xs a ≡ false → IsNodup (xs ++ a ∷ [])
  IsNodup-snoc [] a h n = (refl, tt)
  IsNodup-snoc (x ∷ xs) a h n = ground (arith, has-append xs (a ∷ []) x, IsNodup-snoc xs a h.1)

  pub IsNodup-add_new : (xs : List A) (a : A) → IsNodup xs → IsNodup (add_new xs a)
  IsNodup-add_new xs a h = ground (arith, IsNodup-snoc xs a h)

  pub IsNodup-remove : (xs : List A) (a : A) → IsNodup xs → IsNodup (remove xs a)
  IsNodup-remove [] a h = tt
  IsNodup-remove (x ∷ xs) a h = ground (arith, has-remove_ne xs a x, IsNodup-remove xs a h.1)

module _ {ℓ} {A : Type ℓ} (dec : Discrete A) (P : A → Type 0) where
  pub All-add_new : (xs : List A) (a : A) → All P xs → P a → All P (add_new dec xs a)
  All-add_new xs a h p = elim (Bool-cases (has dec xs a)) [
    | inl old ↦ rw (old, add_new) h
    | inr new ↦ rw (new, add_new) (All-append P xs (a ∷ []) h (p, tt))
  ]

  pub All-remove : (xs : List A) (a : A) → All P xs → All P (remove dec xs a)
  All-remove [] a h = tt
  All-remove (x ∷ xs) a h = elim (dec x a) [
    | yes e ↦ rw (if_pos _ e) h.1
    | no n ↦ rw (if_neg _ n) (h.0, All-remove xs a h.1)
  ]

  pub has-false_of_All : (xs : List A) (a : A) → All P xs → ¬ P a → has dec xs a ≡ false
  has-false_of_All [] a h n = refl
  has-false_of_All (x ∷ xs) a h n = elim (dec x a) [
    | yes e ↦ absurd (n (rw e at h.0))
    | no ne ↦ rw (if_neg _ ne) (has-false_of_All xs a h.1 n)
  ]
