-- ===== src/Tray/Relink.antt =====
-- How often the tray dials the worker.
use Prim.Native.Nat.pow
use toothkey.Base.{
  ℕ, zero, suc, ◌≡◌, refl, ◌*◌, ◌^◌, min, false, List, [], ◌∷◌, ◌++◌, arith, if◌then◌else◌, ◌==◌,
}
use toothkey.Tray.View.{Tray}
use toothkey.Tray.Handlers.{
  Effect, unreachable, relink_in, start_link, schedule_relink, on_worker_gone,
}

-- the Tray after so many attempts that did not reach the worker
abbrev pub unreached : ℕ → Tray → Tray
unreached zero t = t
unreached (suc n) t = (start_link false (unreached n t)).0

abbrev Waits : ℕ → ℕ → Tray → Type 0
Waits d n t =
    (t.relink_attempts ≡ n) × (t.relink_delay_ms ≡ min (d * 2 ^ n) 5000) × (t.shutting_down ≡ false)

double : (d n : ℕ) → d * 2 ^ suc n ≡ 2 * (d * 2 ^ n)
double d n = let e = pow.suc 2 n in grind arith

start_link-Waits : (d n : ℕ) (t : Tray) → Waits d n t → Waits d (suc n) (start_link false t).0
unfolding start_link schedule_relink
start_link-Waits d n t (attempts, delay, open_) =
    let e = double d n in (ground arith, ground arith, ground arith)

unreached-Waits : (d n : ℕ) (t : Tray) → Waits d zero t → Waits d n (unreached n t)
unreached-Waits d zero t w = w
unreached-Waits d (suc n) t w = start_link-Waits d n (unreached n t) (unreached-Waits d n t w)

-- what an attempt does that fails after `n` that failed
abbrev pub failing : ℕ → ℕ → List Effect
failing n wait = (if n == 0 then unreachable ∷ [] else []) ++ relink_in wait ∷ []

start_link-failing :
    (d n : ℕ) (t : Tray) → Waits d n t → (start_link false t).1 ≡ failing n (min (d * 2 ^ n) 5000)
unfolding start_link schedule_relink
start_link-failing d n t (attempts, delay, open_) = simp (open_, delay, attempts) (ground arith)

-- When the connection to the worker breaks and no shutdown was asked for, the tray dials again after
-- half a second; each attempt that fails, after `n` before it that did, shows the one notification
-- exactly if it is the first, and sets exactly one timer for the next attempt, of a second at first,
-- twice as long each time, and never of more than five seconds.
pub on_worker_gone-relinks :
    (n : ℕ) (t : Tray)
    → t.shutting_down ≡ false
    → ((on_worker_gone t).1 ≡ relink_in 500 ∷ [])
      × ((start_link false (unreached n (on_worker_gone t).0)).1
          ≡ failing n (min (1000 * 2 ^ n) 5000))
unfolding on_worker_gone schedule_relink
on_worker_gone-relinks n t open_ = (
  simp open_ refl,
  start_link-failing 1000 n _ (unreached-Waits 1000 n _ (simp open_ (refl, refl, refl))),
)
