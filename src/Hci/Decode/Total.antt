-- ===== src/Hci/Decode/Total.antt =====
-- Whether the decoding of a packet can raise.
use toothkey.Base.{
  ℕ, zero, suc, ◌≡◌, refl, ap, ◌≤◌, ◌<◌, true, Option, none, some, List, [], ◌∷◌, length, ltb,
  arith, is_some, ◌⊎◌, Option-cases, Bool-cases, inl, inr,
}
use toothkey.Hci.Decode.{
  slice, from_bytes, index, byte, decode_le, decode_params, decode_keys, decode_confirm, Summary,
  decode_hci_event, decode_packet, log_packet,
}

index-is_some : (xs : List ℕ) (i : ℕ) → i < length xs → is_some (index xs i) ≡ true
index-is_some [] i lt = absurd (omega arith)
index-is_some (x ∷ xs) zero lt = refl
index-is_some (x ∷ xs) (suc i) lt = index-is_some xs i (omega arith)

decode_le-is_some : (params : List ℕ) (sub plen : ℕ) → is_some (decode_le params sub plen) ≡ true
unfolding decode_le byte
decode_le-is_some params sub plen =
    let have = index-is_some params in ground (arith, have 1, have 2, have 3, have 4)

decode_confirm-is_some :
    (params : List ℕ) (code plen : ℕ) → is_some (decode_confirm params code plen) ≡ true
unfolding decode_confirm byte
decode_confirm-is_some params code plen = elim (Option-cases (index params 0)) [
  | inl e ↦ let have = index-is_some params 0 in rw (e, byte) (ground arith)
  | inr (sub, e) ↦ rw (e, byte) (ground (arith, decode_le-is_some params sub plen))
]

decode_keys-is_some :
    (params : List ℕ) (code plen : ℕ) → is_some (decode_keys params code plen) ≡ true
unfolding decode_keys byte
decode_keys-is_some params code plen =
    let have = index-is_some params in
    ground (arith, have 6, have 7, have 8, have 22, decode_confirm-is_some params code plen)

decode_params-is_some :
    (params : List ℕ) (code plen : ℕ) → is_some (decode_params params code plen) ≡ true
unfolding decode_params byte
decode_params-is_some params code plen =
    let have = index-is_some params in
    ground
      (arith, have 0, have 1, have 2, have 3, have 9, have 10, decode_keys-is_some params code plen)

-- Whatever the bytes of an event are, its decoding raises no IndexError.
pub decode_hci_event-is_some : (body : List ℕ) → is_some (decode_hci_event body) ≡ true
unfolding decode_hci_event byte
decode_hci_event-is_some [] = refl
decode_hci_event-is_some (code ∷ []) = refl
decode_hci_event-is_some (code ∷ plen ∷ more) =
    ground (arith, decode_params-is_some (slice 2 plen (code ∷ plen ∷ more)) code plen)

decode_packet-is_some : (monop : ℕ) (body : List ℕ) → is_some (decode_packet monop body) ≡ true
unfolding decode_packet byte
decode_packet-is_some monop body =
    let have = index-is_some body in
    ground (arith, have 0, have 1, have 2, decode_hci_event-is_some body)

is_some→some {ℓ} : {A : Type ℓ} (o : Option A) → is_some o ≡ true → (a : A) × (o ≡ some a)
is_some→some none h = cc
is_some→some (some a) h = (a, refl)

-- Whatever a packet is, it is logged exactly if it has the six bytes of a header, and then with a
-- summary: its decoding raises no IndexError, so no decode_error is logged.
pub log_packet-decoded :
    (data_ : List ℕ)
    → ((length data_ < 6) × (log_packet data_ ≡ none))
      ⊎ ((6 ≤ length data_)
          × ((hindex : ℕ) × (s : Summary) × (log_packet data_ ≡ some (hindex, some s))))
unfolding log_packet
log_packet-decoded data_ =
    let monop = from_bytes (slice 0 2 data_) in
    let body = slice 6 (from_bytes (slice 4 2 data_)) data_ in
    let (s, e) = is_some→some _ (decode_packet-is_some monop body) in
    elim (Bool-cases (ltb (length data_) 6)) [
      | inl short ↦ inl (ground arith, simp short refl)
      | inr long ↦ inr (
        ground arith,
        (
          from_bytes (slice 2 2 data_),
          s,
          simp long (ap (λ (o : Option Summary). some (from_bytes (slice 2 2 data_), o)) e),
        ),
      )
    ]
