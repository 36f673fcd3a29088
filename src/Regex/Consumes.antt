-- ===== src/Regex/Consumes.antt =====
-- What the texts are like that an expression matches, where the classes of its units do not tell.
use websockethub.Base.{
  ℕ, zero, suc, ◌≡◌, refl, sym, ap, ◌∙◌, ◌⊎◌, inl, inr, true, some, List, [], ◌∷◌, ◌++◌, ltb,
  length, All, All-append, append_assoc, Bool-cases, Option-cases,
}
use mathlib.Core.Path.{subst}
use mathlib.Core.List.{append-nil}
use websockethub.Text.{Text, fold}
use websockethub.Regex.{
  Regex, one, empty, seq, alt, star, upto, boundary, finish, Position, position, flat_map,
  keep_shorter, repeat, listed, run_one, run, consumed_by, match_here, Piece, lit, hit, after_match,
  scan,
}
use websockethub.Regex.Laws.{Reaches, Over, run-Reaches}
use websockethub.Regex.Replace.{take-part}

-- From `p` the matcher came to `q` over a text that satisfies `K`.
pub record Consumes (K : Text → Type 0) (p q : Position) : Type 0 where
  pub consumed : Text
  pub rest_eq : p.rest ≡ consumed ++ q.rest
  pub holds : K consumed

-- So it does wherever it comes to.
abbrev pub Always : (Text → Type 0) → Regex → Type 0
Always K r = (p : Position) → All (Consumes K p) (run r p)

All-map :
    {A : Type 0} {P Q : A → Type 0} (f : (a : A) → P a → Q a) (xs : List A) → All P xs → All Q xs
All-map f [] h = tt
All-map f (x ∷ xs) (h, hs) = (f x h, All-map f xs hs)

pub Always-weaken :
    (K L : Text → Type 0) (r : Regex) → ((m : Text) → K m → L m) → Always K r → Always L r
Always-weaken K L r f h p =
    All-map
      (λ q (c : Consumes K p q). record {
        consumed = c.consumed;
        rest_eq = c.rest_eq;
        holds = f c.consumed c.holds;
      })
      (run r p) (h p)

-- Over the units of the expression's classes.
pub Always-Over : (P : ℕ → Type 0) (r : Regex) → Over P r → Always (All P) r
Always-Over P r over p =
    All-map
      (λ q (c : Reaches P p q). record {
        consumed = c.consumed;
        rest_eq = c.rest_eq;
        holds = c.over;
      })
      (run r p) (run-Reaches P r over p)

Over-Unit : (r : Regex) → Over (λ a. Unit {0}) r
Over-Unit (one cs) = λ a e. tt
Over-Unit empty = tt
Over-Unit (seq r s) = (Over-Unit r, Over-Unit s)
Over-Unit (alt r s) = (Over-Unit r, Over-Unit s)
Over-Unit (star r) = Over-Unit r
Over-Unit (upto n r) = Over-Unit r
Over-Unit boundary = tt
Over-Unit finish = tt

pub Always-Unit : (r : Regex) → Always (λ m. Unit {0}) r
Always-Unit r =
    Always-weaken (All (λ a. Unit {0})) (λ m. Unit {0}) r (λ m h. tt)
      (Always-Over (λ a. Unit {0}) r (Over-Unit r))

module _ (K J L : Text → Type 0) (join : (m n : Text) → K m → J n → L (m ++ n)) where
  Consumes-join : (p q r : Position) → Consumes K p q → Consumes J q r → Consumes L p r
  Consumes-join p q r c d = record {
    consumed = c.consumed ++ d.consumed;
    rest_eq =
        c.rest_eq
        ∙ (ap (c.consumed ++◌) d.rest_eq ∙ sym (append_assoc c.consumed d.consumed r.rest));
    holds = join c.consumed d.consumed c.holds d.holds;
  }

  flat_map-Consumes :
      (p : Position) (f : Position → List Position) (qs : List Position)
      → All (Consumes K p) qs
      → ((q : Position) → All (Consumes J q) (f q))
      → All (Consumes L p) (flat_map f qs)
  flat_map-Consumes p f [] h step = tt
  flat_map-Consumes p f (q ∷ qs) (h, hs) step =
      All-append (Consumes L p) (f q) (flat_map f qs)
        (All-map (λ r c. Consumes-join p q r h c) (f q) (step q)) (flat_map-Consumes p f qs hs step)

  pub Always-seq : (r s : Regex) → Always K r → Always J s → Always L (seq r s)
  unfolding run
  Always-seq r s h k p = flat_map-Consumes p (run s) (run r p) (h p) k

pub Always-alt : (K : Text → Type 0) (r s : Regex) → Always K r → Always K s → Always K (alt r s)
unfolding run
Always-alt K r s h k p = All-append (Consumes K p) (run r p) (run s p) (h p) (k p)

keep_shorter-All :
    (P : Position → Type 0) (n : ℕ) (qs : List Position) → All P qs → All P (keep_shorter n qs)
unfolding keep_shorter
keep_shorter-All P n [] h = tt
keep_shorter-All P n (q ∷ qs) (h, hs) = elim (Bool-cases (ltb (length q.rest) n)) [
  | inl e ↦ rw e (h, keep_shorter-All P n qs hs)
  | inr e ↦ rw e (keep_shorter-All P n qs hs)
]

-- Nothing, or a match.
pub Always-option :
    (K : Text → Type 0) (r : Regex) → Always K r → Always (λ m. (m ≡ []) ⊎ K m) (upto 1 r)
unfolding run repeat
Always-option K r h p =
    All-append (Consumes (λ m. (m ≡ []) ⊎ K m) p) _ (p ∷ [])
      (flat_map-Consumes (λ m. K m) (λ m. m ≡ []) (λ m. (m ≡ []) ⊎ K m)
        (λ m n k e. inr (subst K (sym (ap (m ++◌) e ∙ append-nil m)) k)) p (λ q. q ∷ [])
        (keep_shorter (length p.rest) (run r p))
        (keep_shorter-All (Consumes K p) (length p.rest) (run r p) (h p))
        (λ q. (record { consumed = []; rest_eq = refl; holds = refl }, tt)))
      (record { consumed = []; rest_eq = refl; holds = inl refl }, tt)

pub Always-one :
    (cs : Text) → Always (λ m. (a : ℕ) × (m ≡ a ∷ []) × (listed cs (fold a) ≡ true)) (one cs)
unfolding run run_one
Always-one cs p = by_rest p.before p.rest
  where
    by_rest :
        (b s : Text)
        → All
            (Consumes (λ m. (a : ℕ) × (m ≡ a ∷ []) × (listed cs (fold a) ≡ true)) (position b s))
            (run_one cs b s)
    by_rest b [] = tt
    by_rest b (a ∷ s) = elim (Bool-cases (listed cs (fold a))) [
      | inl e ↦ rw e (record { consumed = a ∷ []; rest_eq = refl; holds = (a, refl, e) }, tt)
      | inr e ↦ rw e tt
    ]

-- The pieces of a scan for an expression whose matches satisfy `K`.
abbrev pub HitsAre : (Text → Type 0) → List Piece → Type 0
HitsAre K [] = Unit
HitsAre K (lit c ∷ ps) = HitsAre K ps
HitsAre K (hit m ∷ ps) = K m × HitsAre K ps

module _ (K : Text → Type 0) where
  consumed_by-K :
      (b s m : Text) (qs : List Position)
      → All (Consumes K (position b s)) qs
      → consumed_by s qs ≡ some m
      → K m
  consumed_by-K b s m [] h e = absurd (cc)
  consumed_by-K b s m (q ∷ qs) (c, hs) e =
      subst K (take-part c.consumed q.rest s m c.rest_eq (cc)) c.holds

  match_here-K : (r : Regex) (b s m : Text) → Always K r → match_here r b s ≡ some m → K m
  unfolding match_here
  match_here-K r b s m h e = consumed_by-K b s m (run r (position b s)) (h (position b s)) e

  HitsAre-match :
      (c : ℕ) (m : Text) (next : ℕ → List Piece)
      → K m
      → ((k : ℕ) → HitsAre K (next k))
      → HitsAre K (after_match c m next)
  HitsAre-match c [] next k h = (k, h 0)
  HitsAre-match c (d ∷ m) next k h = (k, h (length m))

  pub scan-HitsAre :
      (r : Regex) → Always K r → (skip : ℕ) (b s : Text) → HitsAre K (scan r skip b s)
  unfolding scan
  scan-HitsAre r h (suc k) b [] = tt
  scan-HitsAre r h zero b [] = elim (Option-cases (match_here r b [])) [
    | inl e ↦ rw (e, scan) tt
    | inr (m, e) ↦ rw (e, scan) (match_here-K r b [] m h e, tt)
  ]
  scan-HitsAre r h (suc k) b (c ∷ s) = scan-HitsAre r h k (c ∷ b) s
  scan-HitsAre r h zero b (c ∷ s) = elim (Option-cases (match_here r b (c ∷ s))) [
    | inl e ↦ rw (e, scan) (scan-HitsAre r h zero (c ∷ b) s)
    | inr (m, e) ↦
        rw (e, scan)
          (HitsAre-match c m (λ k. scan r k (c ∷ b) s) (match_here-K r b (c ∷ s) m h e)
            (λ k. scan-HitsAre r h k (c ∷ b) s))
  ]
