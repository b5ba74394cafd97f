-- ===== src/Worker/Poller/Current.antt =====
-- What a listener of the poller is told.
use toothkey.Base.{
  ℕ, ◌≡◌, refl, sym, ap, subst, ◌∙◌, Bool, true, false, ◌&&◌, Option, none, some, List, [], ◌∷◌,
  eqb, eqb→eq, Bool-cases, inl, inr, arith,
}
use toothkey.Worker.Commands.{State}
use toothkey.Worker.Poller.{same_value, same_state, is_last, state_poller}

same_value→eq : (a b : Option ℕ) → same_value a b ≡ true → a ≡ b
same_value→eq none none h = refl
same_value→eq none (some b) h = cc
same_value→eq (some a) none h = cc
same_value→eq (some a) (some b) h = ap (λ (n : ℕ). some n) (ground arith)

and-left : (a b : Bool) → (a && b) ≡ true → a ≡ true
and-left true b h = refl
and-left false b h = cc

and-right : (a b : Bool) → (a && b) ≡ true → b ≡ true
and-right true b h = h
and-right false b h = cc

same_state→eq : (s t : State) → same_state s t ≡ true → s ≡ t
same_state→eq s t h =
    let h1 = and-right _ _ h in
    let h2 = and-right _ _ h1 in
    let h3 = and-right _ _ h2 in
    let h4 = and-right _ _ h3 in
    let connected = eqb→eq s.connected t.connected (and-left _ _ h) in
    let name = same_value→eq s.name t.name (and-left _ _ h1) in
    let mac = same_value→eq s.mac t.mac (and-left _ _ h2) in
    let grab = eqb→eq s.grab t.grab (and-left _ _ h3) in
    let paused = eqb→eq s.paused t.paused (and-left _ _ h4) in
    let pairing = eqb→eq s.pairing t.pairing (and-right _ _ h4) in
    λ i. record {
      connected = connected i;
      name = name i;
      mac = mac i;
      grab = grab i;
      paused = paused i;
      pairing = pairing i;
    }

is_last→eq :
    (last : Option (Option State)) (look : Option State)
    → is_last last look ≡ true
    → last ≡ some look
is_last→eq none look h = cc
is_last→eq (some none) none h = refl
is_last→eq (some none) (some t) h = cc
is_last→eq (some (some s)) none h = cc
is_last→eq (some (some s)) (some t) h = ap (λ (u : State). some (some u)) (same_state→eq s t h)

same_value_refl : (a : Option ℕ) → same_value a a ≡ true
same_value_refl none = refl
same_value_refl (some a) = ground arith

eqb_refl : (b : Bool) → eqb b b ≡ true
eqb_refl true = refl
eqb_refl false = refl

is_last_refl : (look : Option State) → is_last (some look) look ≡ true
is_last_refl none = refl
is_last_refl (some s) = ground (
  arith,
  eqb_refl s.connected,
  same_value_refl s.name,
  same_value_refl s.mac,
  eqb_refl s.grab,
  eqb_refl s.paused,
  eqb_refl s.pairing,
)

-- the last of some looks, or the one before them
abbrev pub latest : Option State → List (Option State) → Option State
latest look [] = look
latest look (next ∷ looks) = latest next looks

-- Each message differs from the one before.
abbrev pub Changes : Option (Option State) → List (Option State) → Type 0
Changes last [] = Unit
Changes last (message ∷ more) = (last ≡ some message → ⊥) × Changes (some message) more

is_last_some→eq : (last look : Option State) → is_last (some last) look ≡ true → last ≡ look
is_last_some→eq none none h = refl
is_last_some→eq none (some t) h = cc
is_last_some→eq (some s) none h = cc
is_last_some→eq (some s) (some t) h = ap (λ (u : State). some u) (same_state→eq s t h)

pub state_poller-latest :
    (last : Option State) (looks : List (Option State))
    → latest last (state_poller (some last) looks) ≡ latest last looks
unfolding state_poller
state_poller-latest last [] = refl
state_poller-latest last (look ∷ looks) =
    let rest = state_poller-latest look looks in
    elim (Bool-cases (is_last (some last) look)) [
      | inl same ↦
          let e = is_last_some→eq last look same in
          simp same (ap (λ (l : Option State). latest l (state_poller (some look) looks)) e ∙ rest)
      | inr new ↦ simp new rest
    ]

pub state_poller-Changes :
    (last : Option (Option State)) (looks : List (Option State))
    → Changes last (state_poller last looks)
unfolding state_poller
state_poller-Changes last [] = tt
state_poller-Changes last (look ∷ looks) =
    let rest = state_poller-Changes (some look) looks in
    elim (Bool-cases (is_last last look)) [
      | inl same ↦ simp same (
          subst (λ (l : Option (Option State)). Changes l (state_poller (some look) looks))
            (sym (is_last→eq last look same)) rest)
      | inr new ↦
          let differs : last ≡ some look → ⊥ = λ e.
            let same = ap (λ (l : Option (Option State)). is_last l look) e ∙ is_last_refl look in
            absurd (ground arith) in
          simp new (differs, rest)
    ]
