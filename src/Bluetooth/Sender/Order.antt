-- ===== src/Bluetooth/Sender/Order.antt =====
-- The order of the reports, over every interleaving of the sending thread with the others.
use mathlib.Core.List.{append_assoc}
use toothkey.Base.{
  ◌≡◌, ◌⊎◌, refl, sym, ap, ◌∙◌, Bool, true, false, ◌&&◌, List, [], ◌∷◌, ◌++◌, Bool-cases, inl, inr,
}
use toothkey.Bluetooth.Sender.{
  Report, Item, report, send_stop, Thread, at_top, at_get, ended, holding, sending, Link, new_link,
  safe_send, stop_hid_sender, drop_client, get, sender_turn, go_on,
}

-- What happens to the queue: a report comes, the thread goes on, the client is dropped by any
-- thread, or the worker stops.
pub data Step (s : Link) : Link → Type 0 where
  sends : (r : Report) → Step s (safe_send r s)
  turns : (ok : Bool) → Step s (sender_turn ok s)
  drops : Step s (drop_client s)
  stops : Step s (record s { running = false })

pub data Reach : Link → Type 0 where
  here : Reach new_link
  next : {s t : Link} → Reach s → Step s t → Reach t

-- the reports in a queue, and the one that the thread has
abbrev pub reports : List Item → List Report
reports [] = []
reports (report r ∷ more) = r ∷ reports more
reports (send_stop ∷ more) = reports more

abbrev pub held : Thread → List Report
held at_top = []
held at_get = []
held ended = []
held (holding r) = r ∷ []
held (sending r) = r ∷ []

-- what is in `send`, and what may still go there once the client was dropped
abbrev pub in_send : Thread → List Report
in_send at_top = []
in_send at_get = []
in_send ended = []
in_send (holding r) = []
in_send (sending r) = r ∷ []

-- While the peer is connected, nothing is lost or overtaken; afterwards, what has gone out or is just
-- being sent is a beginning of what was accepted.
pub record IsOrdered (s : Link) : Type 0 where
  pub whole : s.connected ≡ true → s.accepted ≡ s.sent ++ (held s.thread ++ reports s.queue)
  pub prefix : (rest : List Report) × (s.accepted ≡ s.sent ++ (in_send s.thread ++ rest))

reports-append : (q : List Item) (r : Report) → reports (q ++ report r ∷ []) ≡ reports q ++ r ∷ []
reports-append [] r = refl
reports-append (report x ∷ more) r = ap (λ (l : List Report). x ∷ l) (reports-append more r)
reports-append (send_stop ∷ more) r = reports-append more r

-- one report more at the end of four parts
one_more :
    (a s h q : List Report) (r : Report)
    → a ≡ s ++ (h ++ q)
    → a ++ r ∷ [] ≡ s ++ (h ++ (q ++ r ∷ []))
one_more a s h q r e =
    ap (λ (l : List Report). l ++ r ∷ []) e
    ∙ append_assoc s (h ++ q) (r ∷ [])
    ∙ ap (λ (l : List Report). s ++ l) (append_assoc h q (r ∷ []))

Queue-cases :
    (q : List Item)
    → (q ≡ [])
      ⊎ (((more : List Item) × (q ≡ send_stop ∷ more))
          ⊎ ((r : Report) × ((more : List Item) × (q ≡ report r ∷ more))))
Queue-cases [] = inl refl
Queue-cases (send_stop ∷ more) = inr (inl (more, refl))
Queue-cases (report r ∷ more) = inr (inr (r, (more, refl)))

safe_send-IsOrdered : (r : Report) (s : Link) → IsOrdered s → IsOrdered (safe_send r s)
unfolding safe_send
safe_send-IsOrdered r s v = elim (Bool-cases (s.connected && s.named)) [
  | inl e ↦
      let (rest, p) = v.prefix in
      simp e (record {
        whole = λ c.
            one_more s.accepted s.sent (held s.thread) (reports s.queue) r (v.whole c)
            ∙ ap (λ (l : List Report). s.sent ++ (held s.thread ++ l))
                (sym (reports-append s.queue r));
        prefix = (rest ++ r ∷ [], one_more s.accepted s.sent (in_send s.thread) rest r p);
      })
  | inr e ↦ simp e v
]

abbrev Begins : Link → Type 0
Begins s = (rest : List Report) × (s.accepted ≡ s.sent ++ (in_send s.thread ++ rest))

drop_client-IsOrdered : (s : Link) → Begins s → IsOrdered (drop_client s)
unfolding drop_client stop_hid_sender
drop_client-IsOrdered s p = elim (Bool-cases s.named) [
  | inl e ↦ simp e (record { whole = λ c. cc; prefix = p })
  | inr e ↦ simp e (record { whole = λ c. cc; prefix = p })
]

get-IsOrdered : (s : Link) → s.thread ≡ at_get → IsOrdered s → IsOrdered (get s)
unfolding get
get-IsOrdered s e v = elim (Queue-cases s.queue) [
  | inl none_ ↦
      let whole = simp e at v.whole in
      let prefix = simp e at v.prefix in
      elim (Bool-cases s.running) [
        | inl n ↦ rw (none_, get, n) (record { whole = whole; prefix = prefix })
        | inr n ↦ rw (none_, get, n) (record { whole = whole; prefix = prefix })
      ]
  | inr (inl (more, stop)) ↦
      rw (stop, get) (record { whole = simp (e, stop) at v.whole; prefix = simp e at v.prefix })
  | inr (inr (r, (more, first))) ↦
      rw (first, get) (record { whole = simp (e, first) at v.whole; prefix = simp e at v.prefix })
]

go_on-IsOrdered :
    (t : Thread) (ok : Bool) (s : Link) → s.thread ≡ t → IsOrdered s → IsOrdered (go_on t ok s)
unfolding go_on
go_on-IsOrdered at_top ok s e v = elim (Bool-cases s.named) [
  | inl n ↦ simp n (record { whole = simp e at v.whole; prefix = simp e at v.prefix })
  | inr n ↦ simp n (record { whole = simp e at v.whole; prefix = simp e at v.prefix })
]
go_on-IsOrdered at_get ok s e v = get-IsOrdered s e v
go_on-IsOrdered (holding r) ok s e v = elim (Bool-cases s.connected) [
  | inl c ↦
      simp c
        (record { whole = simp (c, e) at v.whole; prefix = (reports s.queue, simp e at v.whole c) })
  | inr c ↦ simp c (record { whole = λ d. cc; prefix = simp e at v.prefix })
]
go_on-IsOrdered (sending r) true s e v =
    let (rest, p) = v.prefix in
    record {
      whole = λ c. (simp e at v.whole c) ∙ sym (append_assoc s.sent (r ∷ []) (reports s.queue));
      prefix = (rest, (simp e at p) ∙ sym (append_assoc s.sent (r ∷ []) rest));
    }
go_on-IsOrdered (sending r) false s e v =
    let (rest, p) = v.prefix in
    drop_client-IsOrdered (record s { thread = at_top }) (r ∷ rest, simp e at p)
go_on-IsOrdered ended ok s e v = v

Step-IsOrdered : {s t : Link} → Step s t → IsOrdered s → IsOrdered t
unfolding sender_turn
Step-IsOrdered {s} (sends r) v = safe_send-IsOrdered r s v
Step-IsOrdered {s} (turns ok) v = go_on-IsOrdered s.thread ok s refl v
Step-IsOrdered {s} drops v = drop_client-IsOrdered s v.prefix
Step-IsOrdered {s} stops v = record { whole = v.whole; prefix = v.prefix }

-- In every order in which reports come, the sending thread goes on, the client is dropped and the
-- worker stops: while the peer is connected, the reports that were accepted are those that went out,
-- then the one that the thread has, then those in the queue; none is lost, doubled or overtaken. After
-- a drop, what went out, with what is in `send`, is a beginning of what was accepted.
pub Reach-IsOrdered : {s : Link} → Reach s → IsOrdered s
Reach-IsOrdered here = record { whole = λ c. refl; prefix = ([], refl) }
Reach-IsOrdered (next more step) = Step-IsOrdered step (Reach-IsOrdered more)
