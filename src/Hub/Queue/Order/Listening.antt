-- ===== src/Hub/Queue/Order/Listening.antt =====
-- What the steps of a listener (hub/messagequeue.go) keep.
use websockethub.Base.{
  ℕ, zero, suc, ◌≡◌, sym, inl, inr, false, Option, none, some, List, [], ◌∷◌, arith, ◌==◌,
  Bool-cases, All,
}
use mathlib.Core.Path.{subst}
use websockethub.Hub.Queue.{
  Message, Entry, Queue, Appender, Listener, Place, follows, sends, has_sent, closed, stopped,
  crashed, listen_from, deliver, inspect, stale,
}
use websockethub.Hub.Queue.Order.Stretch.{
  IsNext, unset, cut, linked, IsMessage, stored, IsOrdered, IsPlaced, EndsAt, IsAtPlace,
  EndsAt-IsStretch, IsAtPlace-more, EndsAt-deliver,
}
use websockethub.Hub.Queue.Order.Entries.{Grows, IsPlaced-more}

-- What has been delivered fits the place of the listener.
abbrev pub IsHeard : List Message → Listener → Type 0
IsHeard log l = IsAtPlace l.delivered log l.place

pub IsPlaced-Grows :
    (log log' : List Message) (a : Appender) → Grows log log' → IsPlaced log a → IsPlaced log' a
IsPlaced-Grows log log' a (inl e) h = subst (λ l. IsPlaced l a) (sym e) h
IsPlaced-Grows log log' a (inr (m, e)) h =
    subst (λ l. IsPlaced l a) (sym e) (IsPlaced-more log (m ∷ []) a h)

pub IsHeard-Grows :
    (log log' : List Message) (l : Listener) → Grows log log' → IsHeard log l → IsHeard log' l
IsHeard-Grows log log' l (inl e) h = subst (λ k. IsHeard k l) (sym e) h
IsHeard-Grows log log' l (inr (m, e)) h =
    subst (λ k. IsHeard k l) (sym e) (IsAtPlace-more l.delivered log m l.place h)

pub All-map :
    {A : Type 0} {P Q : A → Type 0} (f : (a : A) → P a → Q a) (as' : List A) → All P as' → All Q as'
All-map f [] h = tt
All-map f (a ∷ as') (h, hs) = (f a h, All-map f as' hs)

pub inspect-IsAtPlace :
    (ds log : List Message) (k : ℕ) (entry : Entry)
    → EndsAt ds log k
    → IsAtPlace ds log (inspect (suc k) entry)
inspect-IsAtPlace ds log k entry h = elim (Bool-cases entry.valid) [
  | inr n ↦ rw n h
  | inl y ↦ rw y (by_message entry.msg)
]
  where
    by_message :
        (o : Option Message) → IsAtPlace ds log (elim o [ none ↦ crashed | some _ ↦ sends (suc k) ])
    by_message none = EndsAt-IsStretch ds log k h
    by_message (some m) = h

pub deliver-IsHeard :
    (ds log : List Message) (k : ℕ) (o : Option Message)
    → IsMessage log (suc k) o
    → EndsAt ds log k
    → IsHeard log (deliver o (suc k) (record { place = sends (suc k); delivered = ds }))
deliver-IsHeard ds log k none i h = EndsAt-IsStretch ds log k h
deliver-IsHeard ds log k (some m) (stored n e) h = EndsAt-deliver ds log k m e h

pub next-IsAtPlace :
    (ds log : List Message) (k : ℕ) (p : Option ℕ)
    → IsNext (suc k) p
    → EndsAt ds log (suc k)
    → IsAtPlace ds log (follows p)
next-IsAtPlace ds log k none unset h = EndsAt-IsStretch ds log (suc k) h
next-IsAtPlace ds log k _ cut h = EndsAt-IsStretch ds log (suc k) h
next-IsAtPlace ds log k _ linked h = h

pub listen_from-IsHeard :
    (q : Queue) (p : Place) (ds : List Message)
    → IsOrdered q
    → IsAtPlace ds q.placed p
    → IsHeard q.placed (listen_from p q (record { place = p; delivered = ds }))
listen_from-IsHeard q (follows none) ds o h = h
listen_from-IsHeard q (follows (some zero)) ds o h = h
listen_from-IsHeard q (follows (some (suc k))) ds o h =
    let listed : (suc k == stale) ≡ false = ground arith in
    rw listed (inspect-IsAtPlace ds q.placed k (q.heap (suc k)) h)
listen_from-IsHeard q (sends zero) ds o h = absurd h
listen_from-IsHeard q (sends (suc k)) ds o h =
    deliver-IsHeard ds q.placed k (q.heap (suc k)).msg (o.messages (suc k)) h
listen_from-IsHeard q (has_sent zero) ds o h = absurd h
listen_from-IsHeard q (has_sent (suc k)) ds o h =
    next-IsAtPlace ds q.placed k (q.heap (suc k)).next (o.nexts (suc k)) h
listen_from-IsHeard q closed ds o h = h
listen_from-IsHeard q stopped ds o h = h
listen_from-IsHeard q crashed ds o h = h
