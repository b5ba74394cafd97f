-- ===== src/Window/Merged.antt =====
-- What is in the property after a call.
use toothkey.Base.{
  ℕ, ◌+◌, ◌≡◌, refl, sym, ap, ◌∙◌, inl, inr, true, ◌||◌, some, List, [], ◌∷◌, ◌++◌, has, ℕ_discrete,
  if◌then◌else◌, arith, is_empty, has-append, Bool-cases,
}
use mathlib.Core.List.{append-nil}
use toothkey.Window.{
  Atoms, wanted, missing, merge, Window, existing_of, write_state, send_messages, no_fault,
  skip_taskbar_and_pager,
}

has-missing :
    (existing atoms : List ℕ) (a : ℕ)
    → has ℕ_discrete atoms a ≡ true
    → (has ℕ_discrete existing a || has ℕ_discrete (missing existing atoms) a) ≡ true
has-missing existing [] a h = cc
has-missing existing (b ∷ atoms) a h = ground (arith, has-missing existing atoms a)

has-first : (b : ℕ) (atoms : List ℕ) → has ℕ_discrete (b ∷ atoms) b ≡ true
has-first b atoms = ground arith

has-later :
    (b a : ℕ) (atoms : List ℕ) → has ℕ_discrete atoms a ≡ true → has ℕ_discrete (b ∷ atoms) a ≡ true
has-later b a atoms h = ground arith

missing-present :
    (existing atoms : List ℕ)
    → ((a : ℕ) → has ℕ_discrete atoms a ≡ true → has ℕ_discrete existing a ≡ true)
    → missing existing atoms ≡ []
missing-present existing [] h = refl
missing-present existing (b ∷ atoms) h = ground (
  arith,
  missing-present existing atoms (λ a m. h a (has-later b a atoms m)),
  h b (has-first b atoms),
)

has-merge :
    (existing atoms : List ℕ) (a : ℕ)
    → has ℕ_discrete atoms a ≡ true
    → has ℕ_discrete (merge existing atoms) a ≡ true
has-merge existing atoms a h =
    has-append ℕ_discrete existing (missing existing atoms) a ∙ has-missing existing atoms a h

none_of : (atoms : List ℕ) → is_empty atoms ≡ true → atoms ≡ []
none_of [] h = refl
none_of (a ∷ atoms) h = cc

merge-full :
    (existing atoms : List ℕ)
    → is_empty (missing existing atoms) ≡ true
    → merge existing atoms ≡ existing
merge-full existing atoms h =
    ap (λ more. existing ++ more) (none_of (missing existing atoms) h) ∙ append-nil existing

write_state-merge :
    (atoms : List ℕ) (w : Window)
    → existing_of ((write_state atoms w).property) ≡ merge (existing_of (w.property)) atoms
unfolding write_state
write_state-merge atoms w =
    elim (Bool-cases (is_empty (missing (existing_of (w.property)) atoms))) [
      | inl full ↦ simp full (sym (merge-full (existing_of (w.property)) atoms full))
      | inr lacks ↦ simp lacks
    ]

write_state-full :
    (atoms : List ℕ) (w : Window)
    → missing (existing_of (w.property)) atoms ≡ []
    → (write_state atoms w).writes ≡ w.writes
unfolding write_state
write_state-full atoms w h =
    ap
      (λ more.
        (if is_empty more then w else record w {
          property = some (existing_of (w.property) ++ more);
          writes = w.writes + 1;
        }).writes)
      h

-- After a call that succeeds, the property starts with all the states that were in it, in their
-- order, and has the three that are wanted; and a second call does not write it again.
pub skip_taskbar_and_pager-merges :
    (wid : ℕ) (a : Atoms) (w : Window) (b : ℕ)
    → has ℕ_discrete (wanted a) b ≡ true
    → ((more : List ℕ) × (existing_of
            ((skip_taskbar_and_pager true (some wid) no_fault a w).0.property)
          ≡ existing_of (w.property) ++ more))
      × ((has ℕ_discrete
              (existing_of ((skip_taskbar_and_pager true (some wid) no_fault a w).0.property))
              b
            ≡ true)
          × ((skip_taskbar_and_pager true
                (some wid)
                no_fault
                a
                ((skip_taskbar_and_pager true (some wid) no_fault a w).0)).0.writes
              ≡ (skip_taskbar_and_pager true (some wid) no_fault a w).0.writes))
unfolding skip_taskbar_and_pager
skip_taskbar_and_pager-merges wid a w b h =
    let merged = write_state-merge (wanted a) w in
    (
      (missing (existing_of (w.property)) (wanted a), merged),
      (
        ap (λ atoms. has ℕ_discrete atoms b) merged
            ∙ has-merge (existing_of (w.property)) (wanted a) b h,
        write_state-full (wanted a) (send_messages a (write_state (wanted a) w)) (
            ap (λ atoms. missing atoms (wanted a)) merged
            ∙ missing-present (merge (existing_of (w.property)) (wanted a)) (wanted a)
                (has-merge (existing_of (w.property)) (wanted a))),
      ),
    )
