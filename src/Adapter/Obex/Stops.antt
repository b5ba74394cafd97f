-- ===== src/Adapter/Obex/Stops.antt =====
-- What the answer of quiet_obex_daemons tells.
use toothkey.Base.{
  ℕ, ◌≡◌, refl, Bool, ◌||◌, Option, none, some, List, [], ◌∷◌, ◌++◌, any, Text, arith, Option-cases,
  inl, inr,
}
use toothkey.Adapter.Obex.{
  Service, Command, Programs, Done, is_ok, note, stop_service, numbers_in, kill_pids,
  kill_lingering, stop_obex_daemons, user_stop, system_stop, kill, obex, bluez_obexd,
}

abbrev pub counts : Command × Bool → Bool
counts (c, b) = b

-- `stopped` tells whether a command that was run counts
abbrev IsTold : Done → Type 0
IsTold d = d.stopped ≡ any counts (d.ran)

any-snoc :
    (ran : List (Command × Bool)) (c : Command) (b : Bool)
    → any counts (ran ++ (c, b) ∷ []) ≡ (b || any counts ran)
any-snoc [] c b = ground arith
any-snoc ((c', b') ∷ ran) c b = ground (arith, any-snoc ran c b)

note-IsTold : (c : Command) (b : Bool) (d : Done) → IsTold d → IsTold (note c b d)
note-IsTold c b d h = ground (arith, any-snoc (d.ran) c b)

stop_service-IsTold :
    (uid : Option ℕ) (p : Programs) (s : Service) (d : Done)
    → IsTold d
    → IsTold (stop_service uid p s d)
unfolding stop_service
stop_service-IsTold none p s d h = note-IsTold (system_stop s) (is_ok (p.system s)) d h
stop_service-IsTold (some uid) p s d h =
    note-IsTold (system_stop s) (is_ok (p.system s)) (note (user_stop uid s) (is_ok (p.user s)) d)
      (note-IsTold (user_stop uid s) (is_ok (p.user s)) d h)

kill_pids-IsTold :
    (pids : List Text) (runs : Bool) (d : Done) → IsTold d → IsTold (kill_pids pids runs d)
kill_pids-IsTold [] runs d h = h
kill_pids-IsTold (pid ∷ pids) runs d h = note-IsTold (kill (pid ∷ pids)) runs d h

kill_lingering-IsTold : (p : Programs) (d : Done) → IsTold d → IsTold (kill_lingering p d)
unfolding kill_lingering
kill_lingering-IsTold p d h = elim (Option-cases (p.pgrep)) [
  | inl failed ↦ rw (failed, kill_lingering) h
  | inr (words, found) ↦
      rw (found, kill_lingering) (kill_pids-IsTold (numbers_in words) (p.kill_runs) d h)
]

-- Whoever owns the session and however the programs end: the answer is true exactly if one of the
-- stops that were tried succeeded or the processes that were found could be sent a signal.
pub stop_obex_daemons-counts :
    (uid : Option ℕ) (p : Programs)
    → (stop_obex_daemons uid p).stopped ≡ any counts ((stop_obex_daemons uid p).ran)
unfolding stop_obex_daemons
stop_obex_daemons-counts uid p =
    kill_lingering-IsTold p _
      (stop_service-IsTold uid p bluez_obexd _ (stop_service-IsTold uid p obex _ refl))
