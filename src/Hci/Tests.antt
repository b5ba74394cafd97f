-- ===== src/Hci/Tests.antt =====
-- Packets as the monitor reads them, and the theorems about them at these.
use toothkey.Base.{ℕ, ◌≡◌, some, List, [], ◌∷◌, arith}
use toothkey.Hci.Decode.{event, cmd, log_packet}
use toothkey.Hci.Decode.Packets.{Address, Sent, connection_complete, encode, seen, framed}
use toothkey.Hci.Decode.Read.{log_packet-cmd, log_packet-event}

-- DISCONN_COMPLETE for the handle 0x0b, whose parameters are cut short
abbrev cut : List ℕ
cut = 3 ∷ 0 ∷ 0 ∷ 0 ∷ 5 ∷ 0 ∷ 5 ∷ 4 ∷ 0 ∷ 11 ∷ []

abbrev phone : Address
phone = record { a = 160; b = 177; c = 2; d = 3; e = 4; f = 5 }

abbrev link_up : Sent
link_up = connection_complete 0 267 phone 1 0

log_packet-event_example :
    log_packet (framed 3 0 (encode link_up)) ≡ some (0, some (event (seen link_up)))
log_packet-event_example = log_packet-event 0 link_up

-- HCI_Disconnect of the handle 0x0b, because the host asks for it
log_packet-cmd_example :
    log_packet (framed 2 0 (6 ∷ 4 ∷ 3 ∷ 11 ∷ 0 ∷ 22 ∷ []))
    ≡ some (0, some (cmd 1 6 3 (11 ∷ 0 ∷ 22 ∷ [])))
log_packet-cmd_example = log_packet-cmd 0 1 6 (11 ∷ 0 ∷ 22 ∷ []) (omega arith) (omega arith)
