-- ===== src/Profile/Registration.antt =====
-- The registration of the agent and of the HID profile with BlueZ, and the descriptor that BlueZ
-- hands to the profile.
use toothkey.Base.{
  ℕ, zero, suc, ◌-◌, Bool, true, false, not, Option, none, some, List, [], ◌∷◌, ◌++◌, any, length,
  if◌then◌else◌, remove, ℕ_discrete, Text, text, one_of, same_text, starts_with,
}

-- `_adapter_present`, over the interfaces of the objects that BlueZ has, unless asking it raises
unfoldable pub adapter_present : Option (List (List Text)) → Bool
adapter_present none = false
adapter_present (some objects) =
    any (λ interfaces. one_of interfaces (text "org.bluez.Adapter1")) objects

-- what BlueZ holds of ours: the agent, whether it is the default one, and the profile with the
-- text of its service record
pub record Registry : Type 0 where
  pub has_agent : Bool
  pub default_agent : Bool
  pub profile : Option Text

-- `ToothkeyAgent.__init__`, with whether its two calls succeed; the second part is false if it raises
unfoldable pub new_agent : Bool → Bool → Registry → Registry × Bool
new_agent registers defaults r =
    if registers
    then (record r { has_agent = true; default_agent = defaults }, true)
    else (r, false)

-- `s.replace(old, new)`, for an `old` that is not empty; the characters still to be gone past
abbrev pub replace : Text → Text → ℕ → Text → Text
replace old new skip [] = []
replace old new (suc skip) (c ∷ s) = replace old new skip s
replace old new zero (c ∷ s) =
    let replaced = replace old new (length old - 1) s in
    let kept = replace old new 0 s in if starts_with old (c ∷ s) then new ++ replaced else c ∷ kept

-- `DEFAULT_SERVICE_NAME`
abbrev pub default_service_name : Text
default_service_name = text "Toothkey Keyboard"

unfoldable pub service_record : Text → Text → Text
service_record sdp_record name =
    if not (same_text name default_service_name)
    then replace default_service_name name 0 sdp_record
    else sdp_record

-- `register_hid_profile_with_bluez`, with the file of the record and whether the call succeeds
unfoldable pub register_hid_profile : Text → Text → Bool → Registry → Registry × Bool
unfolding service_record
register_hid_profile sdp_record name succeeds r =
    if succeeds
    then (record r { profile = some (service_record sdp_record name) }, true)
    else (r, false)

-- `unregister_hid_profile_with_bluez`
unfoldable pub unregister_hid_profile : Bool → Registry → Registry
unregister_hid_profile succeeds r = if succeeds then record r { profile = none } else r

-- `ToothkeyProfile.__init__`
unfoldable pub new_profile :
    Text → Text → Option (List (List Text)) → Bool → Registry → Registry × Bool
unfolding adapter_present register_hid_profile
new_profile sdp_record name objects succeeds r =
    if adapter_present objects then register_hid_profile sdp_record name succeeds r else (r, false)

-- the descriptor that the profile keeps, and those of it that are open
pub record Descriptors : Type 0 where
  pub file_descriptor : Option ℕ
  pub opened : List ℕ

-- `NewConnection`
unfoldable pub new_connection : ℕ → Descriptors → Descriptors
new_connection fd d = record d { file_descriptor = some fd; opened = fd ∷ d.opened }

-- `RequestDisconnection`
unfoldable pub request_disconnection : Descriptors → Descriptors
request_disconnection d = elim (d.file_descriptor) [
  | none ↦ d
  | some fd ↦ record d { file_descriptor = none; opened = remove ℕ_discrete (d.opened) fd }
]
