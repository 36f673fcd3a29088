-- ===== src/Hub/Queue/History.antt =====
-- All calls of `Append` since a queue was made (hub/messagequeue.go), one after the other, and a
-- listener that joins behind them.
use websockethub.Base.{
  ℕ, ◌+◌, ◌*◌, ◌-◌, ◌<◌, ◌≤◌, ◌≡◌, refl, ◌∙◌, ap, sym, inl, inr, true, some, List, [], ◌∷◌, ◌++◌,
  append-nil, append_assoc, arith, length, length-append, Bool-cases, All,
}
use mathlib.Core.Path.{subst}
use mathlib.Core.List.{tail-eq_of_cons-eq}
use websockethub.Base.Int.{pos}
use websockethub.Hub.Queue.{Message, Queue, Appender, follows, loads, returned, new_queue, gt}
use websockethub.Hub.Queue.Backlog.{append-Ends, new-Holds}
use websockethub.Hub.Queue.Backlog.Held.{total, trimmed, alone, Holds}
use websockethub.Hub.Queue.Backlog.Trimming.{Ends, gt-le, trimmed-above, trimmed-below}
use websockethub.Hub.Queue.Replay.{listen_alone, replay-Holds}

-- The messages at the end of a list that fit the limit, as many of them as possible.
pub record IsBacklog (overhead limit : ℕ) (ms kept : List Message) : Type 0 where
  pub dropped : List Message
  pub split : ms ≡ dropped ++ kept
  pub fits : total overhead kept ≤ limit
  pub longest :
      (xs ys : List Message) → ms ≡ xs ++ ys → total overhead ys ≤ limit → length ys ≤ length kept

module _ (overhead limit : ℕ) where
  -- The messages of a list are appended one after the other, each with up to `n` operations. With
  -- where the calls are then.
  abbrev pub append_all : ℕ → List Message → Queue → Queue × List Appender
  append_all n [] q = (q, [])
  append_all n (m ∷ ms) q =
      let r = alone overhead n (q, loads m) in
      let rest = append_all n ms r.0 in (rest.0, r.1 ∷ rest.1)

  gt-lt : (a b : ℕ) → gt (pos a) (pos b) ≡ true → b < a
  gt-lt a b e = ground arith

  total-prefix : (xs ys : List Message) → total overhead xs ≤ total overhead (xs ++ ys)
  unfolding total
  total-prefix [] ys = omega arith
  total-prefix (x ∷ xs) ys = omega (arith, total-prefix xs ys)

  nothing-IsBacklog : IsBacklog overhead limit [] []
  unfolding total
  nothing-IsBacklog = record {
    dropped = [];
    split = refl;
    fits = omega arith;
    longest = λ xs ys e fit. omega (arith, ap (length {0}) e, length-append {0} xs ys);
  }

  all-IsBacklog : (ms : List Message) → total overhead ms ≤ limit → IsBacklog overhead limit ms ms
  all-IsBacklog ms fit = record {
    dropped = [];
    split = refl;
    fits = fit;
    longest = λ xs ys e fit'. omega (arith, ap (length {0}) e, length-append {0} xs ys);
  }

  longest-below :
      (m : Message) (ms kept : List Message)
      → limit < total overhead (m ∷ ms)
      → IsBacklog overhead limit ms kept
      → (xs ys : List Message) → m ∷ ms ≡ xs ++ ys
      → total overhead ys ≤ limit
      → length ys ≤ length kept
  longest-below m ms kept above b [] ys e fit =
      absurd (omega (arith, ap (total overhead) e, above, fit))
  longest-below m ms kept above b (x ∷ xs) ys e fit = b.longest xs ys (tail-eq_of_cons-eq e) fit

  IsBacklog-cons :
      (m : Message) (ms kept : List Message)
      → limit < total overhead (m ∷ ms)
      → IsBacklog overhead limit ms kept
      → IsBacklog overhead limit (m ∷ ms) kept
  IsBacklog-cons m ms kept above b = record {
    dropped = m ∷ b.dropped;
    split = ap (λ s. m ∷ s) b.split;
    fits = b.fits;
    longest = longest-below m ms kept above b;
  }

  trimmed-IsBacklog : (ms : List Message) → IsBacklog overhead limit ms (trimmed overhead limit ms)
  trimmed-IsBacklog [] = unfold trimmed in nothing-IsBacklog
  trimmed-IsBacklog (m ∷ ms) = elim (Bool-cases (gt (pos (total overhead (m ∷ ms))) (pos limit))) [
    | inl above ↦
        subst (IsBacklog overhead limit (m ∷ ms)) (sym (trimmed-above overhead limit m ms above)) (
          IsBacklog-cons m ms (trimmed overhead limit ms)
            (gt-lt (total overhead (m ∷ ms)) limit above) (trimmed-IsBacklog ms))
    | inr below ↦
        subst (IsBacklog overhead limit (m ∷ ms)) (sym (trimmed-below overhead limit m ms below))
          (all-IsBacklog (m ∷ ms) (gt-le (total overhead (m ∷ ms)) limit below))
  ]

  lt-gt : (a b : ℕ) → b < a → gt (pos a) (pos b) ≡ true
  lt-gt a b h = ground arith

  trimmed-trimmed :
      (xs ys : List Message)
      → trimmed overhead limit (trimmed overhead limit xs ++ ys) ≡ trimmed overhead limit (xs ++ ys)
  trimmed-trimmed [] ys = unfold trimmed in refl
  trimmed-trimmed (x ∷ xs) ys = elim (Bool-cases (gt (pos (total overhead (x ∷ xs))) (pos limit))) [
    | inl above ↦
        ap (λ s. trimmed overhead limit (s ++ ys)) (trimmed-above overhead limit x xs above)
        ∙ (trimmed-trimmed xs ys
            ∙ sym (
                trimmed-above overhead limit x (xs ++ ys) (
                  lt-gt (total overhead (x ∷ xs ++ ys)) limit (
                    omega (
                      arith,
                      gt-lt (total overhead (x ∷ xs)) limit above,
                      total-prefix (x ∷ xs) ys,
                    )))))
    | inr below ↦
        ap (λ s. trimmed overhead limit (s ++ ys)) (trimmed-below overhead limit x xs below)
  ]

  length-trimmed : (ms : List Message) → length (trimmed overhead limit ms) ≤ length ms
  length-trimmed ms =
      let b = trimmed-IsBacklog ms in
      omega
        (arith, ap (length {0}) b.split, length-append {0} b.dropped (trimmed overhead limit ms))

  append-trimmed :
      (n : ℕ) (past : List Message) (m : Message) (q : Queue)
      → Holds overhead limit q (trimmed overhead limit past)
      → 6 * length past + 13 ≤ n
      → Ends overhead limit
          (alone overhead n (q, loads m))
          (trimmed overhead limit (past ++ m ∷ []))
  append-trimmed n past m q h enough =
      let needed : ℕ = 6 * length (trimmed overhead limit past) + 13 in
      let fuel : needed + (n - needed) ≡ n = omega (arith, enough, length-trimmed past) in
      subst (Ends overhead limit (alone overhead n (q, loads m))) (trimmed-trimmed past (m ∷ [])) (
        subst
          (λ k.
            Ends overhead limit (alone overhead k (q, loads m))
              (trimmed overhead limit (trimmed overhead limit past ++ m ∷ [])))
          fuel (append-Ends overhead limit (n - needed) q (trimmed overhead limit past) m h))

  -- All calls have returned, and the queue holds the end of the list.
  abbrev HasAppended : Queue × List Appender → List Message → Type 0
  HasAppended r ms =
      All (λ a. a ≡ returned) r.1 × Holds overhead limit r.0 (trimmed overhead limit ms)

  append_all-HasAppended :
      (n : ℕ) (past ms : List Message) (q : Queue)
      → Holds overhead limit q (trimmed overhead limit past)
      → 6 * length (past ++ ms) + 13 ≤ n
      → HasAppended (append_all n ms q) (past ++ ms)
  append_all-HasAppended n past [] q h enough =
      (tt, subst (λ s. Holds overhead limit q (trimmed overhead limit s)) (sym (append-nil past)) h)
  append_all-HasAppended n past (m ∷ ms) q h enough =
      let at_end =
        append-trimmed n past m q h (omega (arith, enough, length-append {0} past (m ∷ ms))) in
      let then' =
        subst (HasAppended (append_all n ms (alone overhead n (q, loads m)).0))
          (append_assoc past (m ∷ []) ms)
          (append_all-HasAppended n (past ++ m ∷ []) ms (alone overhead n (q, loads m)).0 at_end.1
            (omega (arith, enough, ap (length {0}) (append_assoc past (m ∷ []) ms)))) in
      ((at_end.0, then'.0), then'.1)

  -- The calls have returned, and a listener that joins delivers the end of the list.
  pub record Replays (r : Queue × List Appender) (ms : List Message) : Type 0 where
    pub returns : All (λ a. a ≡ returned) r.1
    pub kept : List Message
    pub backlog : IsBacklog overhead limit ms kept
    pub delivers :
        listen_alone (3 * length kept) r.0 (record { place = follows r.0.oldest; delivered = [] })
        ≡ record { place = follows (some r.0.newest); delivered = kept }

  -- However many messages are appended to a new queue, one after the other, each call returns, within
  -- thirteen operations and six more for each message of the list. A listener that joins behind them
  -- delivers the messages at the end of the list that fit the limit, as many of them as possible, in
  -- their order and within three steps for each, if they are taken, and then waits at the newest
  -- entry.
  pub replay-append_all :
      (n : ℕ) (ms : List Message)
      → 6 * length ms + 13 ≤ n
      → Replays (append_all n ms (new_queue (pos limit))) ms
  replay-append_all n ms enough =
      let start : Holds overhead limit (new_queue (pos limit)) (trimmed overhead limit []) =
        unfold trimmed in new-Holds overhead limit in
      let ends = append_all-HasAppended n [] ms (new_queue (pos limit)) start enough in
      record {
        returns = ends.0;
        kept = trimmed overhead limit ms;
        backlog = trimmed-IsBacklog ms;
        delivers =
            replay-Holds overhead limit (append_all n ms (new_queue (pos limit))).0
              (trimmed overhead limit ms) ends.1;
      }
