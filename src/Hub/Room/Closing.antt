-- ===== src/Hub/Room/Closing.antt =====
-- The handler and the goroutine that sends both close a client (`Close` of hub/client.go).
use websockethub.Base.{ℕ, ◌≡◌, Bool, true, false, List, [], ◌∷◌, ◌++◌, if◌then◌else◌}
use websockethub.Hub.Room.Located.{
  IsAt, write_fails-IsAt, drops-IsAt, read_fails-IsAt, checks-IsAt, tests-IsAt, closes-IsAt,
  shuts-panics, shuts-IsAt, shuts_first-IsAt, passes-IsAt, skips-IsAt, leaves-IsAt,
}
use websockethub.Hub.Room.{
  reading, checking, closing, leaving, left, sending, testing, shutting, ended, Room, Move, handles,
  writes, read_fails, write_fails, move, run,
}

-- A message cannot be sent, so the client is dropped and its connection closed, and then nothing can
-- be read from it either: both goroutines are about to close the client.
abbrev pub failing : ℕ → List Move
failing k = write_fails k ∷ writes k ∷ read_fails k ∷ []

-- Both test the channel, and then both close it; `b` tells whether the handler tests first, `c`
-- whether it closes first.
abbrev pub overlapping : ℕ → Bool → Bool → List Move
overlapping k b c =
    (if b then handles k ∷ writes k ∷ [] else writes k ∷ handles k ∷ [])
    ++ (if c then handles k ∷ writes k ∷ [] else writes k ∷ handles k ∷ [])

-- One tests and closes before the other one tests, which then has nothing to close; `b` tells
-- whether the handler comes first. The other one's last step, where it has two, is that of leaving.
abbrev pub in_turn : ℕ → Bool → List Move
in_turn k b =
    if b
    then handles k ∷ handles k ∷ writes k ∷ handles k ∷ []
    else writes k ∷ writes k ∷ handles k ∷ handles k ∷ []

module _ (verbose : Bool) (r : Room) (k i : ℕ) (a : IsAt r k (reading i) (sending i) false) where
  ready : Room
  ready = run verbose r (failing k)

  ready-IsAt : IsAt ready k (checking i) testing false
  unfolding ready
  ready-IsAt =
      let r1 = move verbose r (write_fails k) in
      read_fails-IsAt verbose (move verbose r1 (writes k)) k i testing false (
        drops-IsAt verbose r1 k i (reading i) false
          (write_fails-IsAt verbose r k i (reading i) false a))

  both_tested :
      (b : Bool)
      → IsAt
          (run verbose ready (if b then handles k ∷ writes k ∷ [] else writes k ∷ handles k ∷ []))
          k
          (closing i)
          shutting
          false
  both_tested true =
      tests-IsAt verbose (move verbose ready (handles k)) k i (closing i)
        (checks-IsAt verbose ready k i testing ready-IsAt)
  both_tested false =
      checks-IsAt verbose (move verbose ready (writes k)) k i shutting
        (tests-IsAt verbose ready k i (checking i) ready-IsAt)

  both_close :
      (v : Room) (c : Bool)
      → IsAt v k (closing i) shutting false
      → (run verbose v
          (if c then handles k ∷ writes k ∷ [] else writes k ∷ handles k ∷ [])).panicked
        ≡ true
  both_close v true h =
      shuts-panics verbose (move verbose v (handles k)) k i (leaving i)
        (closes-IsAt verbose v k i shutting h)
  both_close v false h =
      shuts_first-IsAt verbose (move verbose v (writes k)) k i ended
        (shuts-IsAt verbose v k i (closing i) h)

  in_turn-IsAt : (b : Bool) → IsAt (run verbose ready (in_turn k b)) k (left i) ended true
  in_turn-IsAt true =
      let v1 = move verbose ready (handles k) in
      let v2 = move verbose v1 (handles k) in
      leaves-IsAt verbose (move verbose v2 (writes k)) k i ended true (
        passes-IsAt verbose v2 k i (leaving i)
          (closes-IsAt verbose v1 k i testing (checks-IsAt verbose ready k i testing ready-IsAt)))
  in_turn-IsAt false =
      let v1 = move verbose ready (writes k) in
      let v2 = move verbose v1 (writes k) in
      leaves-IsAt verbose (move verbose v2 (handles k)) k i ended true (
        skips-IsAt verbose v2 k i ended (
          shuts-IsAt verbose v1 k i (checking i)
            (tests-IsAt verbose ready k i (checking i) ready-IsAt)))

  -- A message cannot be sent to a client whose handler waits for a message from it, the client is
  -- dropped, and then the read fails too, so that the goroutine that sends and the handler are both
  -- about to close the client. If both test the channel before one of them closes it, the server
  -- panics, in each of the four orders of their tests and closings. In the two other orders, where
  -- one has tested and closed the channel before the other tests it, both end and the server goes on.
  pub run-panicked :
      (b c : Bool)
      → ((run verbose r (failing k ++ overlapping k b c)).panicked ≡ true)
        × IsAt (run verbose r (failing k ++ in_turn k b)) k (left i) ended true
  unfolding ready
  run-panicked true true = (both_close _ true (both_tested true), in_turn-IsAt true)
  run-panicked true false = (both_close _ false (both_tested true), in_turn-IsAt true)
  run-panicked false true = (both_close _ true (both_tested false), in_turn-IsAt false)
  run-panicked false false = (both_close _ false (both_tested false), in_turn-IsAt false)
