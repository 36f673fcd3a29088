-- ===== src/Hub/Queue/Replay.antt =====
-- A listener that joins a queue at rest (hub/messagequeue.go).
use websockethub.Base.{
  ℕ, zero, suc, ◌+◌, ◌*◌, ◌<◌, ◌≡◌, ◌∙◌, ap, sym, Bool, false, Option, some, List, [], ◌∷◌, ◌++◌,
  append-nil, append_assoc, arith, length, ◌==◌, if◌then◌else◌,
}
use websockethub.Hub.Queue.{
  Message, Entry, Queue, Listener, follows, sends, closed, listen_step, inspect, deliver, stale,
}
use websockethub.Hub.Queue.Backlog.Held.{Chain, Holds, IsFull}

-- The steps of one listener while the queue stays as it is.
abbrev pub listen_alone : ℕ → Queue → Listener → Listener
listen_alone zero q l = l
listen_alone (suc n) q l = listen_alone n q (listen_step q l)

abbrev at_entry : ℕ → List Message → Listener
at_entry k ds = record { place = follows (some k); delivered = ds }

-- One message in three steps.
listen-message :
    (q : Queue) (k : ℕ) (ds : List Message) (m : Message)
    → 0 < k
    → IsFull q.heap k m
    → listen_step q (listen_step q (listen_step q (at_entry k ds)))
      ≡ at_entry (suc k) (ds ++ m ∷ [])
unfolding listen_step
listen-message q k ds m lt f =
    let fresh : (k == stale) ≡ false = ground arith in
    let arrives : listen_step q (at_entry k ds) ≡ record { place = sends k; delivered = ds } =
      ap
        (λ (b : Bool). record {
          place = if b then closed else inspect k (q.heap k);
          delivered = ds;
        })
        fresh
      ∙ ap (λ (e : Entry). record { place = inspect k e; delivered = ds }) f in
    ap (λ l. listen_step q (listen_step q l)) arrives
    ∙ (ap
          (λ (e : Entry).
            listen_step q (deliver e.msg k (record { place = sends k; delivered = ds })))
          f
        ∙ ap (λ (e : Entry). record { place = follows e.next; delivered = ds ++ m ∷ [] }) f)

abbrev steps : List Message → ℕ
steps [] = 0
steps (m ∷ ms) = suc (suc (suc (steps ms)))

steps-lem : (ms : List Message) → steps ms ≡ 3 * length ms
steps-lem [] = omega arith
steps-lem (m ∷ ms) = omega (arith, steps-lem ms)

listen-Chain :
    (q : Queue) (k : ℕ) (ds ms : List Message)
    → 0 < k
    → Chain q.heap k ms
    → listen_alone (steps ms) q (at_entry k ds) ≡ at_entry (k + length ms) (ds ++ ms)
listen-Chain q k ds [] lt c =
    let here : k ≡ k + 0 = omega arith in
    ap (λ i. at_entry i ds) here ∙ ap (at_entry (k + 0)) (sym (append-nil ds))
listen-Chain q k ds (m ∷ ms) lt (f, c) =
    let there : suc k + length ms ≡ k + suc (length ms) = omega arith in
    ap (listen_alone (steps ms) q) (listen-message q k ds m lt f)
    ∙ (listen-Chain q (suc k) (ds ++ m ∷ []) ms (omega arith) c
        ∙ (ap (λ i. at_entry i (ds ++ m ∷ [] ++ ms)) there
            ∙ ap (at_entry (k + suc (length ms))) (append_assoc ds (m ∷ []) ms)))

-- A listener that joins a queue at rest delivers all messages that the queue holds, in their order,
-- within three steps for each, if they are taken, and then waits at the newest entry.
pub replay-Holds :
    (overhead limit : ℕ) (q : Queue) (ms : List Message)
    → Holds overhead limit q ms
    → listen_alone (3 * length ms) q (record { place = follows q.oldest; delivered = [] })
      ≡ record { place = follows (some q.newest); delivered = ms }
replay-Holds overhead limit q ms h =
    ap
      (λ (p : Option ℕ).
        listen_alone (3 * length ms) q (record { place = follows p; delivered = [] }))
      h.oldest
    ∙ (ap (λ n. listen_alone n q (at_entry h.first [])) (sym (steps-lem ms))
        ∙ (listen-Chain q h.first [] ms h.positive h.chain
            ∙ ap (λ i. at_entry i ms) (sym h.newest)))
