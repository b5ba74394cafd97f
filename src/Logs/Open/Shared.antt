-- ===== src/Logs/Open/Shared.antt =====
-- Who may write the log.
use toothkey.Base.{
  ℕ, ◌≡◌, refl, sym, ap, ◌∙◌, Bool, true, false, not, ◌&&◌, ◌||◌, Option, none, some, ◌==◌,
  Bool-cases, inl, inr, arith, if◌then◌else◌, is_some, ◌⊎◌,
}
use toothkey.Logs.Rotate.{Dir, rotate_if_large}
use toothkey.Logs.Rotate.Newest.{rotate_if_large-Keeps}
use toothkey.Logs.Open.{
  LogFile, Place, new_file, or_new, opened, share_with_log_dir_owner, open_log, max_log_bytes,
  log_keep,
}

-- The log, if there is one, belongs to this user.
abbrev pub IsOwned : ℕ → Dir LogFile → Type 0
IsOwned owner d = (f : LogFile) → d 0 ≡ some f → f.owner ≡ owner

-- Opened by the user himself, or by root where the log directory is the user's and chown succeeds.
abbrev pub IsFor : ℕ → Place → Type 0
IsFor owner p =
    ((p.euid ≡ owner) × ((p.euid == 0) ≡ false))
    ⊎ ((p.euid ≡ 0) × (p.dir_owner ≡ some owner) × (p.chowns ≡ true))

-- a log that is there before stays as it is, or is moved away and the rotation says so
rotates_first :
    (p : Place) (d : Dir LogFile)
    → let (d', rolls) = rotate_if_large LogFile (λ f. f.size) max_log_bytes log_keep p.good d in
      ((rolls ≡ true) × (d' 0 ≡ none)) ⊎ ((rolls ≡ false) × (d' 0 ≡ d 0))
rotates_first p d =
    let (next, moves, stays) =
      rotate_if_large-Keeps LogFile (λ f. f.size) max_log_bytes 2 p.good d in
    let rolls = (rotate_if_large LogFile (λ f. f.size) max_log_bytes log_keep p.good d).1 in
    elim (Bool-cases rolls) [ inl e ↦ inl (e, moves e 0) | inr e ↦ inr (e, stays e) ]

share-owner :
    (owner : ℕ) (p : Place) (f : LogFile)
    → IsFor owner p
    → (f.owner ≡ owner) ⊎ (f.owner ≡ p.euid)
    → (share_with_log_dir_owner p f).owner ≡ owner
unfolding share_with_log_dir_owner
share-owner owner p f (inl (user, not_root)) mine = ground arith
share-owner owner p f (inr (root, theirs, good)) mine = simp (root, theirs) (ground arith)

some-injective : {f g : LogFile} → some f ≡ some g → f ≡ g
some-injective e = cc

-- The file after the opening, where it was there before or is to be shared.
opened-owner :
    (owner : ℕ) (p : Place) (shares : Bool) (o : Option LogFile)
    → IsFor owner p
    → ((f : LogFile) → o ≡ some f → f.owner ≡ owner)
    → (shares ≡ false → is_some o ≡ true)
    → (if shares then share_with_log_dir_owner p (or_new p o) else or_new p o).owner ≡ owner
opened-owner owner p true none for_ own kept = share-owner owner p (new_file p) for_ (inr refl)
opened-owner owner p true (some f) for_ own kept = share-owner owner p f for_ (inl (own f refl))
opened-owner owner p false none for_ own kept = absurd (let e = kept refl in cc)
opened-owner owner p false (some f) for_ own kept = own f refl

opened-IsOwned :
    (owner : ℕ) (p : Place) (shares : Bool) (d : Dir LogFile)
    → IsFor owner p
    → IsOwned owner d
    → (shares ≡ false → is_some (d 0) ≡ true)
    → IsOwned owner (opened shares p d)
opened-IsOwned owner p shares d for_ own kept f e =
    sym (ap (λ (g : LogFile). g.owner) (some-injective e))
    ∙ opened-owner owner p shares (d 0) for_ own kept

none-IsOwned : (owner : ℕ) (d : Dir LogFile) → d 0 ≡ none → IsOwned owner d
none-IsOwned owner d gone f e = absurd (let both = sym gone ∙ e in cc)

-- What `_open_log` does after the rotation.
rotated-IsOwned :
    (owner : ℕ) (p : Place) (d d' : Dir LogFile) (rolls : Bool)
    → IsFor owner p
    → IsOwned owner d
    → ((rolls ≡ true) × (d' 0 ≡ none)) ⊎ ((rolls ≡ false) × (d' 0 ≡ d 0))
    → IsOwned owner (opened (rolls || not (is_some (d 0))) p d')
rotated-IsOwned owner p d d' rolls for_ own (inl (e, gone)) =
    opened-IsOwned owner p _ d' for_ (none-IsOwned owner d' gone) (λ h. absurd (ground arith))
rotated-IsOwned owner p d d' rolls for_ own (inr (e, same)) =
    opened-IsOwned owner p _ d' for_ (λ f h. own f (sym same ∙ h)) (λ h. ground arith)

-- If the log belongs to a user, or there is none, and the directory and the file can be made, then the
-- opening returns, and the log is there and belongs to the user, whether or not it was rotated or made
-- anew: opened by the user, or by root where the log directory is the user's and chown succeeds.
pub open_log-IsOwned :
    (owner : ℕ) (p : Place) (d : Dir LogFile)
    → IsFor owner p
    → IsOwned owner d
    → (p.makes_dir && p.opens) ≡ true
    → (d' : Dir LogFile) × (open_log p d ≡ some d') × (is_some (d' 0) ≡ true) × IsOwned owner d'
unfolding open_log
open_log-IsOwned owner p d for_ own works =
    let (d', rolls) = rotate_if_large LogFile (λ f. f.size) max_log_bytes log_keep p.good d in
    (
      opened (rolls || not (is_some (d 0))) p d',
      rw (works, not, if◌then◌else◌) refl,
      refl,
      rotated-IsOwned owner p d d' rolls for_ own (rotates_first p d),
    )
