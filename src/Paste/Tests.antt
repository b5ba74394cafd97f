-- ===== src/Paste/Tests.antt =====
-- Runs of the paste, and the theorems about it at them.
use toothkey.Base.{ℕ, ◌≡◌, refl, Bool, true, false, some, List, [], ◌∷◌, arith}
use toothkey.Paste.Chars.Layout.{ascii, visible}
use toothkey.Paste.Typing.{paste_reports}
use toothkey.Paste.Typing.Host.{host_types, arrives, host_types-paste_reports}

-- `A`, then a CRLF line break; the grab is gone before the last character
abbrev text : List (ℕ × Bool)
text = (65, true) ∷ (13, true) ∷ (10, true) ∷ (66, false) ∷ []

host_types-paste_reports_example :
    host_types [] (paste_reports ascii (some text)) ≡ arrives visible text
host_types-paste_reports_example =
    host_types-paste_reports ascii text
      (omega arith, (omega arith, (omega arith, (omega arith, tt))))

-- a CRLF line break gives two
crlf_twice : arrives visible text ≡ 65 ∷ 10 ∷ 10 ∷ []
crlf_twice = refl
