-- ===== src/Bluetooth/Sender/Drained.antt =====
-- How the sending thread works off its queue.
use mathlib.Core.List.{append_assoc, append-nil}
use toothkey.Base.{ℕ, zero, suc, ◌≡◌, refl, sym, ap, ◌∙◌, true, List, [], ◌∷◌, ◌++◌, map, length}
use toothkey.Bluetooth.Sender.{
  Item, safe_send, Report, report, at_top, Link, get, go_on, sender_turn,
}

-- one pass of the loop, whose `send` succeeds
abbrev pub pass : Link → Link
pass s = sender_turn true (sender_turn true (sender_turn true (sender_turn true s)))

abbrev pub passes : ℕ → Link → Link
passes zero s = s
passes (suc n) s = passes n (pass s)

-- a session with these reports in the queue, of which others went out
abbrev pub waiting : List Report → List Report → List Report → Link
waiting came out rs = record {
  running = true;
  connected = true;
  named = true;
  queue = map report rs;
  thread = at_top;
  accepted = came;
  sent = out;
}

pass-waiting :
    (came out rs : List Report) (r : Report)
    → pass (waiting came out (r ∷ rs)) ≡ waiting came (out ++ r ∷ []) rs
unfolding sender_turn go_on get
pass-waiting came out rs r = refl

-- If the sends succeed and the peer stays connected, one pass of the loop for each report in the queue
-- sends all of them, in order, and leaves the queue empty and the thread at the head of its loop.
passes-waiting :
    (came out rs : List Report)
    → passes (length rs) (waiting came out rs) ≡ waiting came (out ++ rs) []
passes-waiting came out [] = ap (λ (l : List Report). waiting came l []) (sym (append-nil out))
passes-waiting came out (r ∷ rs) =
    ap (passes (length rs)) (pass-waiting came out rs r)
    ∙ passes-waiting came (out ++ r ∷ []) rs
    ∙ ap (λ (l : List Report). waiting came l []) (append_assoc out (r ∷ []) rs)

-- these reports come, one after the other
abbrev pub come_in : List Report → Link → Link
come_in [] s = s
come_in (r ∷ rs) s = come_in rs (safe_send r s)

map-append :
    (q : List Report) (r : Report) → map report q ++ report r ∷ [] ≡ map report (q ++ r ∷ [])
map-append [] r = refl
map-append (x ∷ q) r = ap (λ (l : List Item). report x ∷ l) (map-append q r)

abbrev with_queue : List Report → List Report → List Item → Link
with_queue came out q = record (waiting came out []) { queue = q }

safe_send-waiting :
    (came out q : List Report) (r : Report)
    → safe_send r (waiting came out q) ≡ waiting (came ++ r ∷ []) out (q ++ r ∷ [])
unfolding safe_send
safe_send-waiting came out q r = ap (with_queue (came ++ r ∷ []) out) (map-append q r)

come_in-waiting :
    (came out q rs : List Report)
    → come_in rs (waiting came out q) ≡ waiting (came ++ rs) out (q ++ rs)
come_in-waiting came out q [] =
    ap (λ (c : List Report). waiting c out q) (sym (append-nil came))
    ∙ ap (waiting (came ++ []) out) (sym (append-nil q))
come_in-waiting came out q (r ∷ rs) =
    ap (come_in rs) (safe_send-waiting came out q r)
    ∙ come_in-waiting (came ++ r ∷ []) out (q ++ r ∷ []) rs
    ∙ ap (λ (c : List Report). waiting c out (q ++ r ∷ [] ++ rs)) (append_assoc came (r ∷ []) rs)
    ∙ ap (waiting (came ++ r ∷ rs) out) (append_assoc q (r ∷ []) rs)

-- While the peer stays connected and the sends succeed: reports that come while nothing waits in the
-- queue are all accepted, and one pass of the loop for each sends them all, in order, and leaves the
-- queue empty and the thread at the head of its loop.
pub passes-come_in :
    (came out rs : List Report)
    → passes (length rs) (come_in rs (waiting came out [])) ≡ waiting (came ++ rs) (out ++ rs) []
passes-come_in came out rs =
    ap (passes (length rs)) (come_in-waiting came out [] rs) ∙ passes-waiting (came ++ rs) out rs
