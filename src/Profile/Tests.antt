-- ===== src/Profile/Tests.antt =====
-- Tests of the agent and the profile.
use toothkey.Base.{◌≡◌, refl, true, none, [], ◌∷◌, Text, text, ℕ_discrete}
use toothkey.Adapter.Uuids.{uuid_to_short, is_forbidden}
use toothkey.Profile.Agent.{
  agent, authorize, request_confirmation, done, rejected, authorize_service,
}
use toothkey.Profile.Agent.KeyboardOnly.{authorize_service-forbidden}
use toothkey.Profile.Registration.{
  Descriptors, new_connection, request_disconnection, service_record,
}

-- a phone asks for hands-free, in capital letters
abbrev handsfree : Text
handsfree = text "0000111E-0000-1000-8000-00805F9B34FB"

handsfree_forbidden : is_forbidden (uuid_to_short handsfree) ≡ true
unfolding is_forbidden uuid_to_short
handsfree_forbidden = refl

authorize_service-forbidden_example : authorize_service handsfree ≡ rejected
authorize_service-forbidden_example = authorize_service-forbidden handsfree handsfree_forbidden

keyboard_is_authorized : agent (authorize (text "00001124-0000-1000-8000-00805F9B34FB")) ≡ done
unfolding agent
keyboard_is_authorized = refl

confirmation_needs_nobody : agent (request_confirmation 123456) ≡ done
unfolding agent
confirmation_needs_nobody = refl

record_is_renamed :
    service_record (text "<Toothkey Keyboard>") (text "Tooth-key (x)") ≡ text "<Tooth-key (x)>"
unfolding service_record
record_is_renamed = refl

abbrev no_descriptor : Descriptors
no_descriptor = record { file_descriptor = none; opened = [] }

disconnection_closes : request_disconnection (new_connection 7 no_descriptor) ≡ no_descriptor
unfolding request_disconnection new_connection ℕ_discrete
disconnection_closes = refl

-- a second connection without a disconnection in between: the first descriptor stays open
second_connection_leaks :
    (request_disconnection (new_connection 8 (new_connection 7 no_descriptor))).opened ≡ 7 ∷ []
unfolding request_disconnection new_connection ℕ_discrete
second_connection_leaks = refl
