-- ===== src/Message/Mentions.antt =====
-- When a message mentions a nickname: the search for `\bname\b` against a description of it.
use websockethub.Base.{
  ℕ, ◌≡◌, refl, sym, ap, ◌∙◌, ◌↔◌, ◌⊎◌, inl, inr, Bool, true, false, ◌||◌, Option, some, List, [],
  ◌∷◌, ◌++◌, map, append-nil, arith, ◌==◌, ==_iff, Bool-cases,
}
use mathlib.Core.Option.{some-injective}
use websockethub.Text.{Text, fold}
use websockethub.Regex.{
  Regex, one, empty, seq, boundary, Position, position, is_boundary, run, match_here, test_from,
  is_some,
}
use websockethub.Regex.Laws.{push_all}
use websockethub.Host.{Host}
use websockethub.Message.{name_text, name_pattern, is_me, highlight}

-- A text for itself, and `\bname\b` as it stands for a name without special units.
abbrev pub literal : Text → Regex
literal [] = empty
literal (c ∷ s) = seq (one (fold c ∷ [])) (literal s)

abbrev pub name_regex : Text → Regex
name_regex name = seq boundary (seq (literal name) boundary)

-- `name` stands at a position, in any case of its ASCII letters.
pub record Stands (name before rest : Text) : Type 0 where
  pub found : Text
  pub tail : Text
  pub whole : rest ≡ found ++ tail
  pub same : map fold found ≡ map fold name

-- It stands there as a word of its own.
pub record IsWordAt (name before rest : Text) : Type 0 where
  pub found : Text
  pub tail : Text
  pub whole : rest ≡ found ++ tail
  pub same : map fold found ≡ map fold name
  pub starts : is_boundary (position before rest) ≡ true
  pub ends : is_boundary (position (push_all found before) tail) ≡ true

-- Some place of the message has the nickname as a word.
pub record IsMention (name message : Text) : Type 0 where
  pub head : Text
  pub rest : Text
  pub split : message ≡ head ++ rest
  pub word : IsWordAt name (push_all head []) rest

-- The two outcomes of a literal at a position.
data Literal (name before rest : Text) (r : List Position) : Type 0 where
  stands :
      (found tail : Text)
      → rest ≡ found ++ tail
      → map fold found ≡ map fold name
      → r ≡ position (push_all found before) tail ∷ []
      → Literal name before rest r
  missing : (Stands name before rest → ⊥) → r ≡ [] → Literal name before rest r

Stands-nil :
    (c : ℕ) (name found tail : Text) → [] ≡ found ++ tail → map fold found ≡ map fold (c ∷ name) → ⊥
Stands-nil c name [] tail w e = cc
Stands-nil c name (a ∷ found) tail w e = cc

Stands-cons :
    (c a : ℕ) (name before rest found tail : Text)
    → a ∷ rest ≡ found ++ tail
    → map fold found ≡ map fold (c ∷ name)
    → (fold a ≡ fold c) × Stands name (a ∷ before) rest
Stands-cons c a name before rest [] tail w e = absurd (cc)
Stands-cons c a name before rest (b ∷ found) tail w e =
    (cc, record { found = found; tail = tail; whole = cc; same = cc })

run-literal :
    (name before rest : Text) → Literal name before rest (run (literal name) (position before rest))
unfolding run
run-literal [] before rest = stands [] rest refl refl refl
run-literal (c ∷ name) before [] =
    missing (λ s. Stands-nil c name s.found s.tail s.whole s.same) refl
run-literal (c ∷ name) before (a ∷ rest) = elim (Bool-cases (fold a == fold c)) [
  | inl e ↦ elim (run-literal name (a ∷ before) rest) [
    | stands found tail w s r ↦
        stands (a ∷ found) tail (ap (a ∷◌) w) (cc ((==_iff (fold a) (fold c)).0 e))
          (rw e (rw append-nil r))
    | missing m r ↦
        missing (λ s. m (Stands-cons c a name before rest s.found s.tail s.whole s.same).1)
          (rw e (rw append-nil r))
  ]
  | inr n ↦
      missing
        (λ s.
          let (same, _) = Stands-cons c a name before rest s.found s.tail s.whole s.same in
          cc ((==_iff (fold a) (fold c)).1 same))
        (rw n refl)
]

same_split : (f g t u : Text) → f ++ t ≡ g ++ u → map fold f ≡ map fold g → (f ≡ g) × (t ≡ u)
same_split [] [] t u e h = (refl, e)
same_split [] (b ∷ g) t u e h = absurd (cc)
same_split (a ∷ f) [] t u e h = absurd (cc)
same_split (a ∷ f) (b ∷ g) t u e h = let (p, q) = same_split f g t u (cc) (cc) in (cc, q)

module _ (name before rest : Text) where
  abbrev Found : Type 0
  Found = is_some (match_here (name_regex name) before rest) ≡ true

  -- A word stands where the literal was found, since its length is that of the name.
  IsWordAt-ends :
      (found tail : Text)
      → rest ≡ found ++ tail
      → map fold found ≡ map fold name
      → IsWordAt name before rest
      → is_boundary (position (push_all found before) tail) ≡ true
  IsWordAt-ends found tail w s word =
      let (p, q) =
        same_split word.found found word.tail tail (sym word.whole ∙ w) (word.same ∙ sym s) in
      rw (← p, ← q) word.ends

  -- The search at one position succeeds exactly at a word.
  Found-IsWordAt : Found ↔ IsWordAt name before rest
  unfolding match_here run
  Found-IsWordAt = elim (Bool-cases (is_boundary (position before rest))) [
    | inr n ↦ (λ f. absurd (cc (rw n at f)), λ word. absurd (cc (word.starts)))
    | inl b ↦ elim (run-literal name before rest) [
      | missing m r ↦ (
        λ f. absurd (cc (rw (b, r) at f)),
        λ word. absurd (
            m (record {
              found = word.found;
              tail = word.tail;
              whole = word.whole;
              same = word.same;
            })),
      )
      | stands found tail w s r ↦
          elim (Bool-cases (is_boundary (position (push_all found before) tail))) [
            | inl e ↦ (
              λ f. record { found = found; tail = tail; whole = w; same = s; starts = b; ends = e },
              λ word. rw (b, r, e) refl,
            )
            | inr n ↦ (
              λ f. absurd (cc (rw (b, r, n) at f)),
              λ word. absurd (cc (IsWordAt-ends found tail w s word)),
            )
          ]
    ]
  ]

-- Some place of `rest` has the name as a word, `before` standing in front of it.
record Later (name before rest : Text) : Type 0 where
  head : Text
  tail : Text
  split : rest ≡ head ++ tail
  word : IsWordAt name (push_all head before) tail

or-eq-true : (a b : Bool) → (a || b) ≡ true → (a ≡ true) ⊎ (b ≡ true)
or-eq-true a b h = ground arith

or-true : (a b : Bool) → (a ≡ true) ⊎ (b ≡ true) → (a || b) ≡ true
or-true a b h = ground arith

test_from-Later :
    (name before rest : Text)
    → test_from (name_regex name) before rest ≡ true
    → Later name before rest
unfolding test_from
test_from-Later name before [] h = record {
  head = [];
  tail = [];
  split = refl;
  word = (Found-IsWordAt name before []).0 h;
}
test_from-Later name before (c ∷ rest) h =
    elim (or-eq-true _ (test_from (name_regex name) (c ∷ before) rest) h) [
      | inl here ↦ record {
        head = [];
        tail = c ∷ rest;
        split = refl;
        word = (Found-IsWordAt name before (c ∷ rest)).0 here;
      }
      | inr later ↦
          let l = test_from-Later name (c ∷ before) rest later in
          record { head = c ∷ l.head; tail = l.tail; split = ap (c ∷◌) l.split; word = l.word }
    ]

Later-test_from :
    (name before head tail : Text)
    → IsWordAt name (push_all head before) tail
    → test_from (name_regex name) before (head ++ tail) ≡ true
unfolding test_from
Later-test_from name before [] [] w = (Found-IsWordAt name before []).1 w
Later-test_from name before [] (c ∷ tail) w =
    or-true _ (test_from (name_regex name) (c ∷ before) tail)
      (inl ((Found-IsWordAt name before (c ∷ tail)).1 w))
Later-test_from name before (c ∷ head) tail w =
    or-true (is_some (match_here (name_regex name) before (c ∷ head ++ tail))) _
      (inr (Later-test_from name (c ∷ before) head tail w))

-- If the engine reads the pattern made of the nickname as the nickname itself between two word
-- boundaries, as it does for a nickname without special units, then a message is highlighted
-- exactly if it is from somebody else and mentions the nickname: somewhere in it, with a word
-- boundary on both sides, stands the nickname, but for the case of ASCII letters.
pub highlight_iff :
    (host : Host) (myname : Option Text) (name message : Text)
    → host.compile (name_pattern myname) ≡ some (name_regex (name_text myname))
    → (highlight host myname name message ≡ some true)
      ↔ ((is_me myname name ≡ false) × IsMention (name_text myname) message)
unfolding highlight
highlight_iff host myname name message compiled = elim (Bool-cases (is_me myname name)) [
  | inl me ↦ (λ h. absurd (cc (rw me at h)), λ m. absurd (cc m.0))
  | inr other ↦ (
    λ h.
        let found : test_from (name_regex (name_text myname)) [] message ≡ true =
          some-injective _ _ (rw (other, compiled) at h) in
        let l = test_from-Later (name_text myname) [] message found in
        (other, record { head = l.head; rest = l.tail; split = l.split; word = l.word }),
    λ m.
        rw (other, compiled)
          (ap some
            (rw (m.1.split) (Later-test_from (name_text myname) [] m.1.head m.1.rest m.1.word))),
  )
]
