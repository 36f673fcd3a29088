-- ===== src/Links/Scheme.antt =====
-- How the matches of `htmlrex` of static/chatroomwidget.js begin.
pub mod Href
use websockethub.Base.{
  ℕ, ◌≡◌, refl, sym, ap, ◌∙◌, ◌⊎◌, inl, inr, Bool, true, [], ◌∷◌, ◌++◌, map, ◌==◌, not, All,
  All-append, arith, append_assoc, append-nil,
}
use mathlib.Core.Path.{subst}
use websockethub.Text.{Text, text, fold}
use websockethub.Regex.{Regex, one, seq, alt, star, listed, scan, run}
use websockethub.Regex.Laws.{covers, covers-Over}
use websockethub.Regex.Consumes.{
  Always, Always-weaken, Always-Over, Always-Unit, Always-seq, Always-alt, Always-option,
  Always-one, HitsAre, scan-HitsAre,
}
use websockethub.Links.Pattern.{
  word, option, some_of, scheme, login, label, tld, dot, first_octet, address, host,
}
use websockethub.Links.{htmlrex}

-- The schemes of the addresses that the chat room links.
abbrev pub IsWebScheme : Text → Type 0
IsWebScheme t = (t ≡ text "http") ⊎ ((t ≡ text "https") ⊎ (t ≡ text "rtsp"))

abbrev pub not_colon : ℕ → Bool
not_colon c = not (c == b':')

abbrev pub NoColon : ℕ → Type 0
NoColon a = not_colon (fold a) ≡ true

-- A dot before any colon.
abbrev pub DotFirst : Text → Type 0
DotFirst m = (w : Text) × (rest : Text) × (m ≡ w ++ b'.' ∷ rest) × All NoColon w

-- One of the schemes, in letters of either case.
abbrev pub SchemeFirst : Text → Type 0
SchemeFirst m =
    (w : Text) × (rest : Text) × (t : Text) × (m ≡ w ++ rest)
    × (map fold w ≡ t ++ text "://")
    × IsWebScheme t

DotFirst-before : (m n : Text) → All NoColon m → DotFirst n → DotFirst (m ++ n)
DotFirst-before m n h (w, rest, e, k) =
    (m ++ w, rest, ap (m ++◌) e ∙ sym (append_assoc m w (b'.' ∷ rest)), All-append NoColon m w h k)

DotFirst-after : (m n : Text) → DotFirst m → Unit {0} → DotFirst (m ++ n)
DotFirst-after m n (w, rest, e, k) u =
    (w, rest ++ n, ap (◌++ n) e ∙ append_assoc w (b'.' ∷ rest) n, k)

folded_dot : (a : ℕ) → listed (text ".") (fold a) ≡ true → a ≡ b'.'
unfolding listed fold
folded_dot a e = ground arith

dot-DotFirst : Always DotFirst dot
dot-DotFirst =
    Always-weaken _ DotFirst dot
      (λ m (a, e, h). ([], [], e ∙ ap (λ c. c ∷ []) (folded_dot a h), tt)) (Always-one (text "."))

without_colon : (r : Regex) → covers not_colon r ≡ true → Always (All NoColon) r
without_colon r h = Always-Over NoColon r (covers-Over not_colon r h)

-- A dot behind units without a colon, and anything behind a dot.
before_dot :
    (r s : Regex) → covers not_colon r ≡ true → Always DotFirst s → Always DotFirst (seq r s)
before_dot r s h k =
    Always-seq (All NoColon) DotFirst DotFirst DotFirst-before r s (without_colon r h) k

after_dot : (r s : Regex) → Always DotFirst r → Always DotFirst (seq r s)
after_dot r s h = Always-seq DotFirst (λ m. Unit {0}) DotFirst DotFirst-after r s h (Always-Unit s)

label-DotFirst : Always DotFirst label
unfolding covers
label-DotFirst = before_dot _ _ refl (before_dot _ _ refl dot-DotFirst)

host-DotFirst : Always DotFirst host
unfolding covers
host-DotFirst =
    Always-alt DotFirst (seq (some_of label) tld) address
      (after_dot (some_of label) tld (after_dot label (star label) label-DotFirst))
      (before_dot first_octet _ refl (after_dot dot _ dot-DotFirst))

folded_one : (c a : ℕ) → listed (c ∷ []) (fold a) ≡ true → fold a ≡ c
unfolding listed
folded_one c a e = ground arith

one-fold : (c : ℕ) → Always (λ m. map fold m ≡ c ∷ []) (one (c ∷ []))
one-fold c =
    Always-weaken _ (λ m. map fold m ≡ c ∷ []) (one (c ∷ []))
      (λ m (a, e, h). ap (map fold) e ∙ ap (λ x. x ∷ []) (folded_one c a h)) (Always-one (c ∷ []))

map-append : (f : ℕ → ℕ) (m n : Text) → map f (m ++ n) ≡ map f m ++ map f n
map-append f [] n = refl
map-append f (c ∷ m) n = ap (f c ∷◌) (map-append f m n)

-- A literal text in letters of either case.
word-fold : (t : Text) → Always (λ m. map fold m ≡ t) (word t)
unfolding run
word-fold [] = λ p. (record { consumed = []; rest_eq = refl; holds = refl }, tt)
word-fold (c ∷ []) = one-fold c
word-fold (c ∷ d ∷ t) =
    Always-seq (λ m. map fold m ≡ c ∷ []) (λ m. map fold m ≡ d ∷ t) (λ m. map fold m ≡ c ∷ d ∷ t)
      (λ m n h k. map-append fold m n ∙ rw (h, k) refl) (one (c ∷ [])) (word (d ∷ t)) (one-fold c)
      (word-fold (d ∷ t))

scheme-SchemeFirst : Always SchemeFirst scheme
scheme-SchemeFirst =
    Always-seq (λ m. IsWebScheme (map fold m)) (λ m. map fold m ≡ text "://") SchemeFirst
      (λ m n h k. (
        m ++ n,
        [],
        map fold m,
        sym (append-nil (m ++ n)),
        map-append fold m n ∙ ap (map fold m ++◌) k,
        h,
      ))
      (alt http (alt https rtsp)) (word (text "://"))
      (Always-alt Named http (alt https rtsp)
        (Always-weaken _ Named http (λ m e. inl e) (word-fold (text "http")))
        (Always-alt Named https rtsp
          (Always-weaken _ Named https (λ m e. inr (inl e)) (word-fold (text "https")))
          (Always-weaken _ Named rtsp (λ m e. inr (inr e)) (word-fold (text "rtsp")))))
      (word-fold (text "://"))
  where
    Named : Text → Type 0
    Named m = IsWebScheme (map fold m)

    http : Regex
    http = word (text "http")

    https : Regex
    https = word (text "https")

    rtsp : Regex
    rtsp = word (text "rtsp")

SchemeFirst-after : (m n : Text) → SchemeFirst m → Unit {0} → SchemeFirst (m ++ n)
SchemeFirst-after m n (w, rest, t, e, f, h) u =
    (w, rest ++ n, t, ap (◌++ n) e ∙ append_assoc w rest n, f, h)

abbrev pub IsLink : Text → Type 0
IsLink m = SchemeFirst m ⊎ DotFirst m

option-IsLink : (m n : Text) → (m ≡ []) ⊎ SchemeFirst m → DotFirst n → IsLink (m ++ n)
option-IsLink m n (inl e) d = inr (subst DotFirst (ap (◌++ n) (sym e)) d)
option-IsLink m n (inr h) d = inl (SchemeFirst-after m n h tt)

pub htmlrex-IsLink : Always IsLink htmlrex
unfolding htmlrex
htmlrex-IsLink =
    Always-seq (λ m. (m ≡ []) ⊎ SchemeFirst m) DotFirst IsLink option-IsLink _ _
      (Always-option SchemeFirst (seq scheme (option login)) (
        Always-seq SchemeFirst (λ m. Unit {0}) SchemeFirst SchemeFirst-after scheme (option login)
          scheme-SchemeFirst (Always-Unit (option login))))
      (after_dot host _ host-DotFirst)

pub urlify-HitsAre : (s : Text) → HitsAre IsLink (scan htmlrex 0 [] s)
urlify-HitsAre s = scan-HitsAre IsLink htmlrex htmlrex-IsLink 0 [] s
