-- ===== src/Regex/Replace.antt =====
-- What a global replacement sees: the pieces of `scan` make up the input.
use websockethub.Base.{
  ℕ, zero, suc, ◌-◌, ◌≡◌, refl, sym, ap, ◌∙◌, some, List, [], ◌∷◌, ◌++◌, length, take, drop,
  drop-length_append, All, arith, length-append, take-length_append, Option-cases, inl, inr,
}
use websockethub.Text.{Text}
use websockethub.Regex.{
  Regex, Position, position, consumed_by, run, match_here, Piece, lit, hit, after_match, scan,
}
use websockethub.Regex.Laws.{Reaches, Over, run-Reaches}

-- `m` is matched at the head of `s`, over units that satisfy `P`.
pub record Split (P : ℕ → Type 0) (s m : Text) : Type 0 where
  pub tail : Text
  pub whole : s ≡ m ++ tail
  pub over : All P m

-- What is gone of a text is its first part.
pub take-part : (c t s m : Text) → s ≡ c ++ t → take (length s - length t) s ≡ m → c ≡ m
take-part c t s m f e =
    sym (take-length_append c t)
    ∙ (ap (take (length c)) (sym f) ∙ (ap (λ n. take n s) (sym size) ∙ e))
  where
    size : length s - length t ≡ length c
    size = omega (arith, ap length f, length-append c t)

module _ (P : ℕ → Type 0) where
  take-Reaches :
      (b s m : Text) (q : Position)
      → Reaches P (position b s) q
      → take (length s - length q.rest) s ≡ m
      → Split P s m
  take-Reaches b s m q f e = record {
    tail = q.rest;
    whole = rw (← same) f.rest_eq;
    over = rw (← same) f.over;
  }
    where
      same : f.consumed ≡ m
      same = take-part f.consumed q.rest s m f.rest_eq e

  consumed_by-Split :
      (b s m : Text) (qs : List Position)
      → All (Reaches P (position b s)) qs
      → consumed_by s qs ≡ some m
      → Split P s m
  consumed_by-Split b s m [] h e = absurd (cc)
  consumed_by-Split b s m (q ∷ qs) (h, hs) e = take-Reaches b s m q h (cc)

  pub match_here-Split :
      (r : Regex) (b s m : Text) → Over P r → match_here r b s ≡ some m → Split P s m
  unfolding match_here
  match_here-Split r b s m h e =
      consumed_by-Split b s m (run r (position b s)) (run-Reaches P r h (position b s)) e

-- The input that the pieces stand for.
abbrev pub raw : List Piece → Text
raw [] = []
raw (lit c ∷ ps) = c ∷ raw ps
raw (hit m ∷ ps) = m ++ raw ps

abbrev pub HitsOver : (ℕ → Type 0) → List Piece → Type 0
HitsOver P [] = Unit
HitsOver P (lit c ∷ ps) = HitsOver P ps
HitsOver P (hit m ∷ ps) = All P m × HitsOver P ps

abbrev pub Cut : (ℕ → Type 0) → List Piece → Text → Type 0
Cut P ps s = (raw ps ≡ s) × HitsOver P ps

module _ (P : ℕ → Type 0) where
  Cut-lit : (c : ℕ) (ps : List Piece) (s : Text) → Cut P ps s → Cut P (lit c ∷ ps) (c ∷ s)
  Cut-lit c ps s (e, h) = (rw e, h)

  Cut-hit :
      (c d : ℕ) (m s : Text) (ps : List Piece)
      → Split P (c ∷ s) (d ∷ m)
      → Cut P ps (drop (length m) s)
      → Cut P (hit (d ∷ m) ∷ ps) (c ∷ s)
  Cut-hit c d m s ps f (e, h) = (rw (e, rest) (sym f.whole), (f.over, h))
    where
      rest : drop (length m) s ≡ f.tail
      rest = ap (drop (suc (length m))) f.whole ∙ drop-length_append m f.tail

  Cut-end : (m : Text) → Split P [] m → Cut P (hit m ∷ []) []
  Cut-end [] f = (refl, (tt, tt))
  Cut-end (c ∷ m) f = absurd (cc (f.whole))

  Cut-match :
      (c : ℕ) (m s : Text) (next : ℕ → List Piece)
      → Split P (c ∷ s) m
      → ((k : ℕ) → Cut P (next k) (drop k s))
      → Cut P (after_match c m next) (c ∷ s)
  Cut-match c [] s next f h = let (e, k) = h 0 in (rw e, (tt, k))
  Cut-match c (d ∷ m) s next f h = Cut-hit c d m s (next (length m)) f (h (length m))

  -- The pieces of a scan make up the input that it has not skipped, and the matches lie over `P`.
  pub scan-Cut :
      (r : Regex) → Over P r → (skip : ℕ) (b s : Text) → Cut P (scan r skip b s) (drop skip s)
  unfolding scan
  scan-Cut r h (suc k) b [] = (refl, tt)
  scan-Cut r h zero b [] = elim (Option-cases (match_here r b [])) [
    | inl e ↦ rw (e, scan) (refl, tt)
    | inr (m, e) ↦ rw (e, scan) (Cut-end m (match_here-Split P r b [] m h e))
  ]
  scan-Cut r h (suc k) b (c ∷ s) = scan-Cut r h k (c ∷ b) s
  scan-Cut r h zero b (c ∷ s) = elim (Option-cases (match_here r b (c ∷ s))) [
    | inl e ↦ rw (e, scan) (Cut-lit c (scan r 0 (c ∷ b) s) s (scan-Cut r h zero (c ∷ b) s))
    | inr (m, e) ↦
        rw (e, scan)
          (Cut-match c m s (λ k. scan r k (c ∷ b) s) (match_here-Split P r b (c ∷ s) m h e)
            (λ k. scan-Cut r h k (c ∷ b) s))
  ]
