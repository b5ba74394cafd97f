-- ===== src/Adapter/Class.antt =====
-- set_class_of_device and _verify_class_of_device: the class that the adapter shows.
pub mod Bounded
use toothkey.Base.{
  ℕ, ◌+◌, ◌-◌, ◌/◌, ◌%◌, Bool, true, false, not, ◌&&◌, Option, none, some, List, [], ◌∷◌, ◌++◌,
  if◌then◌else◌, ◌==◌,
}
use toothkey.Adapter.Pollution.{bad_service_bits}

-- how a command ends: with a return code that is 0 or not, as a program that is not there, or as
-- one that is stopped after its time; `raised` is any other exception of `subprocess.run`, such as a
-- PermissionError, which nothing here catches
pub data Run : Type 0 where
  returned : Bool → Run
  not_found : Run
  timed_out : Run
  raised : Run

pub data Command : Type 0 where
  btmgmt : ℕ → ℕ → Command
  hciconfig : ℕ → Command

-- `_btmgmt_usable`, and the commands that have been run, with their ends
pub record Radio : Type 0 where
  pub btmgmt_usable : Bool
  pub ran : List (Command × Run)

-- CLASS_OF_DEVICE_PERIPHERAL_KEYBOARD
abbrev pub keyboard_class : ℕ
keyboard_class = 9536

-- `(cod >> 8) & 0x1F`, and `cod & 0xFC`
abbrev pub major_of : ℕ → ℕ
major_of cod = cod / 256 % 32

abbrev pub minor_byte : ℕ → ℕ
minor_byte cod = cod % 256 - cod % 4

abbrev pub run_btmgmt : ℕ → Run → Radio → Radio
run_btmgmt cod end r = record r {
  ran = r.ran ++ (btmgmt (major_of cod) (minor_byte cod), end) ∷ [];
}

abbrev pub is_raised : Run → Bool
is_raised raised = true
is_raised _ = false

abbrev pub run_hciconfig : ℕ → Run → Radio → Radio × Bool
run_hciconfig cod end r =
    (record r { ran = r.ran ++ (hciconfig cod, end) ∷ [] }, not (is_raised end))

-- what follows the call of btmgmt
abbrev pub after_btmgmt : ℕ → Run → Run → Radio → Radio × Bool
after_btmgmt cod (returned true) fallback r = (r, true)
after_btmgmt cod (returned false) fallback r = run_hciconfig cod fallback r
after_btmgmt cod not_found fallback r =
    run_hciconfig cod fallback (record r { btmgmt_usable = false })
after_btmgmt cod timed_out fallback r =
    run_hciconfig cod fallback (record r { btmgmt_usable = false })
after_btmgmt cod raised fallback r = (r, false)

-- `set_class_of_device`, with how the two commands end if they are run; the second part is false if
-- it raises
unfoldable pub set_class_of_device : ℕ → Run → Run → Radio → Radio × Bool
set_class_of_device cod end fallback r =
    if r.btmgmt_usable
    then after_btmgmt cod end fallback (run_btmgmt cod end r)
    else run_hciconfig cod fallback r

-- `cod_ok`
unfoldable pub cod_ok : ℕ → Bool
cod_ok cod = major_of cod == 5 && (cod / 4 % 64 / 16 % 2 == 1 && bad_service_bits cod == 0)

-- what one pass of the loop meets: the class that it reads, unless that fails, and how the
-- commands end
pub record Try : Type 0 where
  pub read : Option ℕ
  pub managed : Run
  pub configured : Run

-- how `_verify_class_of_device` ends: pinned, unable to read, with one of its two warnings, or by an
-- exception of `set_class_of_device`
pub data Verdict : Type 0 where
  pinned : Verdict
  unreadable : Verdict
  still_hybrid : Verdict
  not_pinned : Verdict
  raises : Verdict

-- the final read, which may fail
abbrev pub final_verdict : Option ℕ → Verdict
final_verdict none = not_pinned
final_verdict (some cod) = if bad_service_bits cod == 0 then not_pinned else still_hybrid

-- `_verify_class_of_device` over its tries
unfoldable pub verify_class_of_device : List Try → Option ℕ → Radio → Radio × Verdict
unfolding set_class_of_device cod_ok
verify_class_of_device [] final r = (r, final_verdict final)
verify_class_of_device (t ∷ ts) final r =
    let (r', ok) = set_class_of_device keyboard_class t.managed t.configured r in
    let next = verify_class_of_device ts final r' in
    elim (t.read) [
      | none ↦ (r, unreadable)
      | some cod ↦ if cod_ok cod then (r, pinned) else if ok then next else (r', raises)
    ]
