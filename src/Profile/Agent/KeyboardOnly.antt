-- ===== src/Profile/Agent/KeyboardOnly.antt =====
-- AuthorizeService and the UUIDs that the adapter must not advertise.
use toothkey.Base.{
  ◌≡◌, refl, sym, ap, ◌∙◌, ◌⊎◌, inl, inr, Bool, true, false, ◌&&◌, ◌||◌, [], ◌∷◌, ◌++◌, take, drop,
  length, arith, Text, text, lower, one_of, ends_with, ◌==◌, same_text, starts_with,
  take-starts_with, same_text→eq, Bool-cases,
}
use toothkey.Adapter.Uuids.{uuid_to_short, forbidden_shorts, is_forbidden, base_suffix}
use toothkey.Profile.Agent.{
  rejected, authorize_service, allowed_authorize_uuids, hid_uuid_short, sdp_uuid, hid_uuid,
}

-- the characters from the fifth to the eighth
abbrev middle : Text → Text
middle s = take 4 (drop 4 s)

middle-take : (s : Text) → middle (take 8 s) ≡ middle s
middle-take [] = refl
middle-take (a ∷ []) = refl
middle-take (a ∷ b ∷ []) = refl
middle-take (a ∷ b ∷ c ∷ []) = refl
middle-take (a ∷ b ∷ c ∷ d ∷ []) = refl
middle-take (a ∷ b ∷ c ∷ d ∷ e ∷ []) = refl
middle-take (a ∷ b ∷ c ∷ d ∷ e ∷ f ∷ []) = refl
middle-take (a ∷ b ∷ c ∷ d ∷ e ∷ f ∷ g ∷ []) = refl
middle-take (a ∷ b ∷ c ∷ d ∷ e ∷ f ∷ g ∷ h ∷ s) = refl

-- what a UUID that is authorized has in the middle
abbrev IsOurs : Text → Type 0
IsOurs s = (middle s ≡ text "1124") ⊎ (middle s ≡ text "0001")

middle-hid : (s : Text) → starts_with hid_uuid_short s ≡ true → middle s ≡ text "1124"
middle-hid s h = sym (middle-take s) ∙ ap middle (take-starts_with hid_uuid_short s h)

last_case : (a b c : Bool) → ((a || (b || false)) || c) ≡ true → c ≡ false → a ≡ false → b ≡ true
last_case a b c h hc ha = ground arith

authorized-middle :
    (s : Text)
    → (one_of allowed_authorize_uuids s || starts_with hid_uuid_short s) ≡ true
    → IsOurs s
authorized-middle s h = elim (Bool-cases (starts_with hid_uuid_short s)) [
  | inl hid ↦ inl (middle-hid s hid)
  | inr not_hid ↦ elim (Bool-cases (same_text hid_uuid s)) [
    | inl full ↦ inl (ap middle (sym (same_text→eq hid_uuid s full)))
    | inr not_full ↦
        inr (ap middle (sym (same_text→eq sdp_uuid s (last_case _ _ _ h not_hid not_full))))
  ]
]

short-middle :
    (u : Text) → (uuid_to_short u ≡ []) ⊎ (uuid_to_short u ≡ text "0x" ++ middle (lower u))
unfolding uuid_to_short
short-middle u = elim (Bool-cases ((length (lower u) == 36) && ends_with base_suffix (lower u))) [
  | inl base ↦ inr (simp base)
  | inr other ↦ inl (simp other)
]

ours-short : (u : Text) → IsOurs (lower u) → one_of forbidden_shorts (uuid_to_short u) ≡ false
ours-short u ours = elim (short-middle u) [
  | inl empty ↦ ap (one_of forbidden_shorts) empty
  | inr short ↦ elim ours [
    | inl hid ↦ ap (one_of forbidden_shorts) (short ∙ ap (λ m. text "0x" ++ m) hid)
    | inr sdp ↦ ap (one_of forbidden_shorts) (short ∙ ap (λ m. text "0x" ++ m) sdp)
  ]
]

-- A service that must not be on the adapter (object exchange, audio, telephony, phone book,
-- messages), in any spelling of its UUID in letters of either case, is always refused by the
-- agent, also if the adapter advertises it.
pub authorize_service-forbidden :
    (u : Text) → is_forbidden (uuid_to_short u) ≡ true → authorize_service u ≡ rejected
unfolding authorize_service is_forbidden
authorize_service-forbidden u forbidden =
    elim (Bool-cases
      (one_of allowed_authorize_uuids (lower u) || starts_with hid_uuid_short (lower u))) [
        | inl allowed ↦ cc (ours-short u (authorized-middle (lower u) allowed), forbidden)
        | inr refused ↦ simp refused
      ]
