-- ===== src/Links/Markup.antt =====
-- The tags and the text of HTML that `urlify` of static/chatroomwidget.js writes.
use websockethub.Base.{
  ℕ, ◌≡◌, refl, ap, ◌∙◌, ◌≢◌, true, false, Option, none, some, List, [], ◌∷◌, ◌++◌, map, ◌==◌, All,
  All-append, All-drop, Bool-cases, inl, inr, arith, append_assoc, append-nil,
}
use websockethub.Text.{Text, text, fold}
use websockethub.Text.Laws.{Lacks}
use websockethub.Regex.{Piece, lit, hit, listed, scan}
use websockethub.Regex.Laws.{covers, covers-Over}
use websockethub.Regex.Replace.{raw, HitsOver, Cut, scan-Cut}
use websockethub.Links.{htmlrex, has_scheme, href_of, anchor, render}

-- A unit of text, or a tag with what stands between its angle brackets.
pub data Token : Type 0 where
  unit : ℕ → Token
  tag : Text → Token

-- Outside a tag, or inside one that begins with the given text.
unfoldable pub lex : Option Text → Text → List Token
lex none [] = []
lex (some t) [] = tag t ∷ []
lex none (c ∷ s) = elim (c == b'<') [ true ↦ lex (some []) s | false ↦ unit c ∷ lex none s ]
lex (some t) (c ∷ s) = elim (c == b'>') [
  | true ↦ tag t ∷ lex none s
  | false ↦ lex (some (t ++ c ∷ [])) s
]

abbrev pub tokens : Text → List Token
tokens = lex none

pub lex-units : (m s : Text) → Lacks b'<' m → lex none (m ++ s) ≡ map unit m ++ lex none s
unfolding lex
lex-units [] s h = refl
lex-units (c ∷ m) s (h, hs) = ground (arith, lex-units m s hs)

pub lex-tag :
    (t m s : Text) → Lacks b'>' m → lex (some t) (m ++ b'>' ∷ s) ≡ tag (t ++ m) ∷ lex none s
unfolding lex
lex-tag t [] s h = rw append-nil
lex-tag t (c ∷ m) s (h, hs) =
    ground (arith, lex-tag (t ++ c ∷ []) m s hs, append_assoc t (c ∷ []) m)

-- The units of which every match of `htmlrex` is made, in lower case.
abbrev pub url_units : Text
url_units = text "abcdefghijklmnopqrstuvwxyz0123456789;/?:@&=#~-.+!*'(),_$%"

abbrev pub IsUrlUnit : ℕ → Type 0
IsUrlUnit a = listed url_units (fold a) ≡ true

htmlrex-covers : covers (listed url_units) htmlrex ≡ true
unfolding covers listed htmlrex
htmlrex-covers = refl

pub urlify-Cut : (s : Text) → Cut IsUrlUnit (scan htmlrex 0 [] s) s
urlify-Cut s =
    scan-Cut IsUrlUnit htmlrex (covers-Over (listed url_units) htmlrex htmlrex-covers) 0 [] s

no_open : listed url_units (fold b'<') ≡ false
unfolding listed fold
no_open = refl

no_close : listed url_units (fold b'>') ≡ false
unfolding listed fold
no_close = refl

pub no_quote : listed url_units (fold b'"') ≡ false
unfolding listed fold
no_quote = refl

-- A URL holds none of the units that markup is made of.
module _ (c : ℕ) (bad : listed url_units (fold c) ≡ false) where
  pub Lacks-url : (m : Text) → All IsUrlUnit m → Lacks c m
  Lacks-url [] h = tt
  Lacks-url (a ∷ m) (h, hs) =
      ((λ e. cc (bad, h, ap (λ x. listed url_units (fold x)) e)), Lacks-url m hs)

  pub Lacks-href : (m : Text) → Lacks c (text "http://") → All IsUrlUnit m → Lacks c (href_of m)
  unfolding href_of
  Lacks-href m k h = elim (Bool-cases (has_scheme m)) [
    | inl e ↦ rw e (Lacks-url m h)
    | inr e ↦ rw e (All-append (λ a. a ≢ c) (text "http://") m k (Lacks-url m h))
  ]

-- What the tag of a link to `m` holds.
abbrev pub open_tag : Text → Text
open_tag m = text "a target=_blank href=\"" ++ (href_of m ++ text "\"")

open_tag-Lacks : (m : Text) → All IsUrlUnit m → Lacks b'>' (open_tag m)
open_tag-Lacks m h =
    All-append (λ a. a ≢ b'>') (text "a target=_blank href=\"") (href_of m ++ text "\"")
      (omega arith)
      (All-append (λ a. a ≢ b'>') (href_of m) (text "\"")
        (Lacks-href b'>' no_close m (omega arith) h) (omega arith))

anchor-split :
    (m s : Text)
    → anchor m ++ s ≡ b'<' ∷ (open_tag m ++ b'>' ∷ (m ++ b'<' ∷ (text "/a" ++ b'>' ∷ s)))
unfolding anchor
anchor-split m s = simp append_assoc

tokens-anchor :
    (m s : Text)
    → All IsUrlUnit m
    → tokens (anchor m ++ s) ≡ tag (open_tag m) ∷ (map unit m ++ tag (text "/a") ∷ tokens s)
unfolding lex
tokens-anchor m s h =
    ap tokens (anchor-split m s)
    ∙ (lex-tag [] (open_tag m) (m ++ (text "</a>" ++ s)) (open_tag-Lacks m h)
        ∙ ap (tag (open_tag m) ∷◌) (lex-units m (text "</a>" ++ s) (Lacks-url b'<' no_open m h)))

-- The tokens that the pieces of a scan turn into.
unfoldable pub linked : List Piece → List Token
linked [] = []
linked (lit c ∷ ps) = unit c ∷ linked ps
linked (hit m ∷ ps) = tag (open_tag m) ∷ (map unit m ++ tag (text "/a") ∷ linked ps)

pub tokens-render :
    (ps : List Piece) → Lacks b'<' (raw ps) → HitsOver IsUrlUnit ps → tokens (render ps) ≡ linked ps
unfolding render linked lex
tokens-render [] h k = refl
tokens-render (lit c ∷ ps) (h, hs) k = ground (arith, tokens-render ps hs k)
tokens-render (hit m ∷ ps) h (k, ks) =
    rw (tokens-anchor m (render ps) k, tokens-render ps (All-drop (λ a. a ≢ b'<') m (raw ps) h) ks)
      refl
