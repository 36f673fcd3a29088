-- ===== src/Regex.antt =====
-- Regular expressions of JavaScript, as far as static/chatroomwidget.js writes them: a syntax tree
-- and a backtracking matcher. `run` lists every way to match, in the order in which a backtracking
-- engine tries them, so its first entry is the match. All uses have the flag `i`.
pub mod Laws
pub mod Replace
pub mod Consumes
use mathlib.Core.Bool.{xor}
use websockethub.Base.{
  ℕ, zero, suc, ◌-◌, Bool, true, false, ◌||◌, Option, none, some, List, [], ◌∷◌, ◌++◌, ltb, ◌==◌,
  if◌then◌else◌, length, take,
}
use websockethub.Text.{Text, is_word, fold}

pub data Regex : Type 0 where
  -- one unit whose folded form is listed
  one : Text → Regex
  empty : Regex
  seq alt : Regex → Regex → Regex
  -- `r*`, greedy
  star : Regex → Regex
  -- `r{0,n}`, greedy
  upto : ℕ → Regex → Regex
  -- `\b` and `$`
  boundary finish : Regex

abbrev pub is_some : Option Text → Bool
is_some none = false
is_some (some _) = true

-- What stands before the position, nearest first, and what follows it.
pub record Position : Type 0 where
  pub before : Text
  pub rest : Text

abbrev pub position : Text → Text → Position
position b r = record { before = b; rest = r }

-- `IsWordChar` at the head of a text
abbrev pub at_word : Text → Bool
at_word [] = false
at_word (c ∷ s) = is_word c

abbrev pub is_boundary : Position → Bool
is_boundary p = xor (at_word p.before) (at_word p.rest)

module _ {A : Type 0} where
  abbrev pub flat_map : (A → List A) → List A → List A
  flat_map f [] = []
  flat_map f (x ∷ xs) = f x ++ flat_map f xs

-- One round of a repetition must consume something.
unfoldable pub keep_shorter : ℕ → List Position → List Position
keep_shorter n [] = []
keep_shorter n (p ∷ ps) = if ltb (length p.rest) n then p ∷ keep_shorter n ps else keep_shorter n ps

unfoldable pub repeat : ℕ → (Position → List Position) → Position → List Position
unfolding keep_shorter
repeat zero step p = p ∷ []
repeat (suc n) step p = flat_map (repeat n step) (keep_shorter (length p.rest) (step p)) ++ p ∷ []

-- Membership in a character class.
unfoldable pub listed : Text → ℕ → Bool
listed [] a = false
listed (c ∷ cs) a = (a == c) || listed cs a

unfoldable pub run_one : Text → Text → Text → List Position
run_one cs b [] = []
run_one cs b (a ∷ s) = if listed cs (fold a) then position (a ∷ b) s ∷ [] else []

abbrev pub when : Bool → Position → List Position
when t p = if t then p ∷ [] else []

abbrev pub is_end : Text → Bool
is_end [] = true
is_end (c ∷ s) = false

unfoldable pub run : Regex → Position → List Position
unfolding listed run_one repeat
run (one cs) p = run_one cs p.before p.rest
run empty p = p ∷ []
run (seq r s) p = flat_map (run s) (run r p)
run (alt r s) p = run r p ++ run s p
run (star r) p = repeat (length p.rest) (run r) p
run (upto n r) p = repeat n (run r) p
run boundary p = when (is_boundary p) p
run finish p = when (is_end p.rest) p

-- The text that is gone between two positions of one scan.
abbrev pub consumed_by : Text → List Position → Option Text
consumed_by s [] = none
consumed_by s (p ∷ ps) = some (take (length s - length p.rest) s)

-- The match at one position, if there is one.
unfoldable pub match_here : Regex → Text → Text → Option Text
unfolding run
match_here r b s = consumed_by s (run r (position b s))

-- `r.test(s)`: some position matches.
unfoldable pub test_from : Regex → Text → Text → Bool
unfolding match_here
test_from r b [] = is_some (match_here r b [])
test_from r b (c ∷ s) = is_some (match_here r b (c ∷ s)) || test_from r (c ∷ b) s

-- The input of a replacement with the flag `g`, cut into the units that stay and the matches.
pub data Piece : Type 0 where
  lit : ℕ → Piece
  hit : Text → Piece

-- What follows a match at the unit `c`; `next` scans on from behind `c`, and is told how many more
-- units the match has taken. After an empty match the scan moves on by one unit.
abbrev after_match : ℕ → Text → (ℕ → List Piece) → List Piece
after_match c [] next = hit [] ∷ lit c ∷ next 0
after_match c (d ∷ m) next = hit (d ∷ m) ∷ next (length m)

-- `skip` counts the units of the last match that are still to be passed.
unfoldable pub scan : Regex → ℕ → Text → Text → List Piece
unfolding match_here
scan r (suc skip) b [] = []
scan r zero b [] = elim (match_here r b []) [ none ↦ [] | some m ↦ hit m ∷ [] ]
scan r (suc skip) b (c ∷ s) = scan r skip (c ∷ b) s
scan r zero b (c ∷ s) = elim (match_here r b (c ∷ s)) [
  | none ↦ lit c ∷ scan r 0 (c ∷ b) s
  | some m ↦ after_match c m (λ k. scan r k (c ∷ b) s)
]
