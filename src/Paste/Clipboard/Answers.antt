-- ===== src/Paste/Clipboard/Answers.antt =====
-- Whose text is read.
use toothkey.Base.{
  ◌≡◌, refl, sym, ap, ◌∙◌, ◌⊎◌, inl, inr, Bool, Option, none, some, List, [], ◌∷◌, ◌++◌, Text, map,
  Option-cases,
}
use toothkey.Paste.Clipboard.{
  Helper, Ran, Complaint, answer, ask_helpers, got, candidates, read_desktop_clipboard,
}
use mathlib.Core.List.{append-nil, append_assoc}

abbrev pub or_else : Option Text → Option Text → Option Text
or_else none rest = rest
or_else (some s) rest = some s

got-first :
    (o : Option Text) (errors : List Complaint) (rest : Option Text × List Complaint)
    → (got o errors rest).0 ≡ or_else o (rest.0)
got-first none errors rest = refl
got-first (some s) errors rest = refl

got-complaints :
    (o : Option Text) (errors : List Complaint) (rest : Option Text × List Complaint)
    (first : Option Text)
    → or_else o first ≡ none
    → ((got o errors rest).1 ≡ rest.1) × (first ≡ none)
got-complaints none errors rest first h = (refl, h)
got-complaints (some s) errors rest first h = cc

-- the first helper of a list that gives a text
abbrev pub first_text : List Helper → (Helper → Ran) → Option Text
first_text [] run = none
first_text (helper ∷ helpers) run =
    or_else ((answer helper (run helper)).1) (first_text helpers run)

ask_helpers-first :
    (helpers : List Helper) (run : Helper → Ran) (errors : List Complaint)
    → (ask_helpers helpers run errors).0 ≡ first_text helpers run
ask_helpers-first [] run errors = refl
ask_helpers-first (helper ∷ helpers) run errors =
    got-first ((answer helper (run helper)).1) errors _
    ∙ ap (or_else ((answer helper (run helper)).1))
        (ask_helpers-first helpers run (errors ++ (answer helper (run helper)).0 ∷ []))

abbrev pub complaint : (Helper → Ran) → Helper → Complaint
complaint run helper = (answer helper (run helper)).0

ask_helpers-complaints :
    (helpers : List Helper) (run : Helper → Ran) (errors : List Complaint)
    → first_text helpers run ≡ none
    → (ask_helpers helpers run errors).1 ≡ errors ++ map (complaint run) helpers
ask_helpers-complaints [] run errors silent = sym (append-nil errors)
ask_helpers-complaints (helper ∷ helpers) run errors h =
    let (same, silent) =
      got-complaints ((answer helper (run helper)).1) errors
        (ask_helpers helpers run (errors ++ complaint run helper ∷ [])) (first_text helpers run)
        h in
    same
    ∙ ask_helpers-complaints helpers run (errors ++ complaint run helper ∷ []) silent
    ∙ append_assoc errors (complaint run helper ∷ []) (map (complaint run) helpers)

-- With any environment and whatever the helpers do: the text is that of the first helper that
-- gives one, the Wayland helper before xclip; if none does, what is printed has the complaint of
-- every helper that there is reason to try, in order.
pub read_desktop_clipboard-answers :
    (wayland display : Bool) (run : Helper → Ran)
    → ((read_desktop_clipboard wayland display run).0 ≡ first_text (candidates wayland display) run)
      × (((a : Text) × (first_text (candidates wayland display) run ≡ some a))
          ⊎ ((read_desktop_clipboard wayland display run).1
              ≡ map (complaint run) (candidates wayland display)))
unfolding read_desktop_clipboard
read_desktop_clipboard-answers wayland display run = (
  ask_helpers-first (candidates wayland display) run [],
  elim (Option-cases (first_text (candidates wayland display) run)) [
    | inl silent ↦ inr (ask_helpers-complaints (candidates wayland display) run [] silent)
    | inr said ↦ inl said
  ],
)
