-- ===== src/Adapter/Pollution/Attributed.antt =====
-- Whose records are on the adapter, and what initialize does about them.
use toothkey.Base.{
  ℕ, ◌≡◌, refl, sym, subst, inl, inr, Bool, true, false, ◌&&◌, ◌||◌, ◌==◌, List, [], ◌∷◌, ◌++◌, map,
  arith, is_empty, Text, text, one_of, same_text, contains, starts_with, same_text→eq,
  same_text_refl, Bool-cases,
}
use toothkey.Adapter.Uuids.{
  uuid_to_short, forbidden_shorts, is_forbidden, uuid_owners, Owner, obexd, pipewire,
}
use toothkey.Adapter.Pollution.{
  join, insert, sorted_set, forbidden_of, tagged, uuid_reasons, class_reasons, props,
  adapter_pollution_reasons, attribute_pollution, found, is_owner, reregisters, class_reason,
  same_owner, bad_service_bits,
}

starts_with-append : (p s : Text) → starts_with p (p ++ s) ≡ true
starts_with-append [] s = refl
starts_with-append (c ∷ p) s = ground (arith, starts_with-append p s)

contains-front : (p s : Text) → contains p (p ++ s) ≡ true
contains-front [] [] = refl
contains-front [] (c ∷ s) = refl
contains-front (c ∷ p) s = ground (arith, starts_with-append p s)

contains-after : (p s t : Text) → contains p t ≡ true → contains p (s ++ t) ≡ true
contains-after p [] t h = h
contains-after p (c ∷ s) t h = ground (arith, contains-after p s t h)

starts_with-more : (p s t : Text) → starts_with p s ≡ true → starts_with p (s ++ t) ≡ true
starts_with-more [] s t h = refl
starts_with-more (d ∷ p) [] t h = cc
starts_with-more (d ∷ p) (c ∷ s) t h = ground (arith, starts_with-more p s t)

contains-more : (p s t : Text) → contains p s ≡ true → contains p (s ++ t) ≡ true
contains-more [] [] [] h = refl
contains-more [] [] (c ∷ t) h = refl
contains-more (d ∷ p) [] t h = cc
contains-more p (c ∷ s) t h = ground (arith, contains-more p s t, starts_with-more p (c ∷ s) t)

one_of-insert_self : (s : Text) (ts : List Text) → one_of (insert s ts) s ≡ true
one_of-insert_self s [] = ground (arith, same_text_refl s)
one_of-insert_self s (t ∷ ts) =
    ground (arith, same_text_refl s, one_of-insert_self s ts, same_text→eq s t)

one_of-insert : (s x : Text) (ts : List Text) → one_of ts x ≡ true → one_of (insert s ts) x ≡ true
one_of-insert s x [] h = cc
one_of-insert s x (t ∷ ts) h = ground (arith, one_of-insert s x ts)

one_of-sorted_set :
    (x : Text) (ss : List Text) → one_of ss x ≡ true → one_of (sorted_set ss) x ≡ true
one_of-sorted_set x [] h = cc
one_of-sorted_set x (s ∷ ss) h = elim (Bool-cases (same_text s x)) [
  | inl same ↦
      subst (λ y. one_of (insert s (sorted_set ss)) y ≡ true) (same_text→eq s x same)
        (one_of-insert_self s (sorted_set ss))
  | inr other ↦ one_of-insert s x (sorted_set ss) (one_of-sorted_set x ss (ground arith))
]

one_of-forbidden_of :
    (u : Text) (us : List Text)
    → one_of us u ≡ true
    → is_forbidden (uuid_to_short u) ≡ true
    → one_of (forbidden_of us) (uuid_to_short u) ≡ true
one_of-forbidden_of u [] h f = cc
one_of-forbidden_of u (v ∷ us) h f = elim (Bool-cases (same_text v u)) [
  | inl same ↦
      subst (λ w. one_of (forbidden_of (w ∷ us)) (uuid_to_short u) ≡ true)
        (sym (same_text→eq v u same)) (simp (f, same_text_refl (uuid_to_short u)))
  | inr other ↦ ground (arith, one_of-forbidden_of u us)
]

contains-tagged : (s : Text) → contains s (tagged s) ≡ true
contains-tagged s = contains-front s _

contains-join-map :
    (s : Text) (ss : List Text)
    → one_of ss s ≡ true
    → contains s (join (text ", ") (map tagged ss)) ≡ true
contains-join-map s [] h = cc
contains-join-map s (t ∷ []) h =
    subst (λ w. contains w (tagged t) ≡ true) (same_text→eq t s (ground arith)) (contains-tagged t)
contains-join-map s (t ∷ v ∷ ss) h = elim (Bool-cases (same_text t s)) [
  | inl same ↦
      contains-more s (tagged t) _
        (subst (λ w. contains w (tagged t) ≡ true) (same_text→eq t s same) (contains-tagged t))
  | inr other ↦
      contains-after s (tagged t) _
        (contains-after s (text ", ") _ (contains-join-map s (v ∷ ss) (ground arith)))
]

contains-class :
    (s : Text) (cod : ℕ) (reason : Text)
    → contains s reason ≡ true
    → contains s (join (text " ") (class_reasons cod ++ reason ∷ [])) ≡ true
contains-class s cod reason h = elim (Bool-cases (bad_service_bits cod == 0)) [
  | inl clean ↦ simp (clean, h)
  | inr bad ↦
      rw (bad, class_reasons)
        (contains-after s (class_reason cod) _ (contains-after s (text " ") reason h))
]

abbrev pub owned : Owner → Text → List (Text × Owner) → Bool
owned o s [] = false
owned o s ((short, owner) ∷ more) = (same_owner o owner && same_text short s) || owned o s more

abbrev all_among : List Text → List (Text × Owner) → Bool
all_among fs [] = true
all_among fs ((short, owner) ∷ more) = one_of fs short && all_among fs more

one_of-owned :
    (fs : List Text) (o : Owner) (s : Text) (table : List (Text × Owner))
    → all_among fs table ≡ true
    → owned o s table ≡ true
    → one_of fs s ≡ true
one_of-owned fs o s [] a h = cc
one_of-owned fs o s ((short, owner) ∷ more) a h = elim (Bool-cases (same_text short s)) [
  | inl same ↦ subst (λ w. one_of fs w ≡ true) (same_text→eq short s same) (ground arith)
  | inr other ↦ one_of-owned fs o s more (ground arith) (ground arith)
]

found-owned :
    (o : Owner) (s blob : Text) (table : List (Text × Owner))
    → owned o s table ≡ true
    → contains s blob ≡ true
    → found o blob table ≡ true
found-owned o s blob [] h c = cc
found-owned o s blob ((short, owner) ∷ more) h c = elim (Bool-cases (same_text short s)) [
  | inl same ↦ ground (
    arith,
    found-owned o s blob more,
    subst (λ w. contains w blob ≡ true) (sym (same_text→eq short s same)) c,
  )
  | inr other ↦ ground (arith, found-owned o s blob more)
]

contains-uuid_reasons :
    (cod : ℕ) (ss : List Text) (s : Text)
    → one_of ss s ≡ true
    → contains s (join (text " ") (class_reasons cod ++ uuid_reasons ss)) ≡ true
contains-uuid_reasons cod [] s h = cc
contains-uuid_reasons cod (t ∷ ss) s h =
    contains-class s cod _
      (contains-after s (text "forbidden adapter UUIDs: ") _ (contains-join-map s (t ∷ ss) h))

-- the reasons, put together, name every forbidden UUID
contains-reasons :
    (cod : ℕ) (us : List Text) (u : Text)
    → one_of us u ≡ true
    → is_forbidden (uuid_to_short u) ≡ true
    → contains
        (uuid_to_short u)
        (join (text " ") (class_reasons cod ++ uuid_reasons (sorted_set (forbidden_of us))))
      ≡ true
contains-reasons cod us u h f =
    contains-uuid_reasons cod (sorted_set (forbidden_of us)) (uuid_to_short u)
      (one_of-sorted_set (uuid_to_short u) (forbidden_of us) (one_of-forbidden_of u us h f))

attribute_pollution-pipewire :
    (reasons : List Text)
    → is_owner pipewire (join (text " ") reasons) ≡ true
    → starts_with (text "owner: obexd") (attribute_pollution reasons) ≡ false
unfolding attribute_pollution
attribute_pollution-pipewire reasons h =
    elim (Bool-cases (is_owner obexd (join (text " ") reasons))) [
      | inl both ↦ simp (h, both)
      | inr alone ↦ simp (h, alone)
    ]

forbidden-owned : (o : Owner) (s : Text) → owned o s uuid_owners ≡ true → is_forbidden s ≡ true
unfolding is_forbidden
forbidden-owned o s h = one_of-owned forbidden_shorts o s uuid_owners refl h

is_owner-adapter_pollution_reasons :
    (cod : ℕ) (us : List Text) (o : Owner) (u : Text)
    → one_of us u ≡ true
    → owned o (uuid_to_short u) uuid_owners ≡ true
    → is_owner o (join (text " ") (adapter_pollution_reasons (props cod us))) ≡ true
unfolding is_owner adapter_pollution_reasons
is_owner-adapter_pollution_reasons cod us o u h own =
    found-owned o (uuid_to_short u) _ uuid_owners own
      (contains-reasons cod us u h (forbidden-owned o (uuid_to_short u) own))

-- If a forbidden UUID of PipeWire is on the adapter, among whatever other UUIDs and with any
-- class, initialize leaves the HID profile as it is registered.
pub reregisters-pipewire :
    (cod : ℕ) (us : List Text) (u : Text)
    → one_of us u ≡ true
    → owned pipewire (uuid_to_short u) uuid_owners ≡ true
    → reregisters (adapter_pollution_reasons (props cod us)) ≡ false
unfolding reregisters
reregisters-pipewire cod us u h o =
    elim (Bool-cases (is_empty (adapter_pollution_reasons (props cod us)))) [
      | inl clean ↦ simp clean
      | inr dirty ↦ ground (
        arith,
        attribute_pollution-pipewire (adapter_pollution_reasons (props cod us))
            (is_owner-adapter_pollution_reasons cod us pipewire u h o),
      )
    ]
