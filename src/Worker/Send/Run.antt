-- ===== src/Worker/Send/Run.antt =====
-- What the worker's lines come to while no thread comes between the parts of a send.
use toothkey.Base.{
  ℕ, ◌≡◌, refl, inl, inr, Bool, true, Option, none, some, List, [], ◌∷◌, arith, if◌then◌else◌,
  Bool-cases,
}
use toothkey.Worker.Send.{
  Ipc, serve_begins, serve_ends, Sent, no_stream, given_up, sent, write_line, send, Happening,
  begins, ends, leaves, sends, happen,
}

-- the stream that the worker has is open
abbrev pub IsBacked : Ipc → Type 0
IsBacked s = (fh : ℕ) → s.out_fh ≡ some fh → s.is_open fh ≡ true

-- where a line goes: to the tray that is served, if it still reads
abbrev pub goes : Option ℕ → (ℕ → Bool) → Sent
goes none is_read = no_stream
goes (some fh) is_read = if is_read fh then sent fh else given_up

write_line-goes :
    (o : Option ℕ) (s : Ipc)
    → s.out_fh ≡ o
    → IsBacked s
    → ((write_line o s).1 ≡ goes o s.is_read) × IsBacked (write_line o s).0
unfolding write_line
write_line-goes none s e b = (refl, b)
write_line-goes (some fh) s e b = elim (Bool-cases (s.is_read fh)) [
  | inl reads ↦ simp (b fh e, reads) (refl, b)
  | inr left_ ↦ simp (b fh e, left_) (refl, λ g h. cc)
]

begins-IsBacked : (fh : ℕ) (s : Ipc) → IsBacked (serve_begins fh s)
unfolding serve_begins
begins-IsBacked fh s g e = ground arith

happen-IsBacked : (h : Happening) (s : Ipc) → IsBacked s → IsBacked (happen h s)
unfolding happen serve_ends send
happen-IsBacked (begins fh) s b = begins-IsBacked fh s
happen-IsBacked (ends fh) s b = λ g e. cc
happen-IsBacked (leaves fh) s b = b
happen-IsBacked sends s b = (write_line-goes s.out_fh s refl b).1

unfoldable pub run : List Happening → Ipc → Ipc
run [] s = s
run (h ∷ more) s = run more (happen h s)

-- However trays come and go, if no thread comes between the parts of a send, a line never raises: it
-- goes to the tray that is being served, is given up if that tray has gone, and is dropped if there is
-- none.
pub run-goes :
    (history : List Happening) (s : Ipc)
    → IsBacked s
    → let now = run history s in (send now).1 ≡ goes now.out_fh now.is_read
unfolding run send
run-goes [] s b = (write_line-goes s.out_fh s refl b).0
run-goes (h ∷ more) s b = run-goes more (happen h s) (happen-IsBacked h s b)
