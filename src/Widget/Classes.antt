-- ===== src/Widget/Classes.antt =====
-- The classes of the widget's node in static/chatroomwidget.js, and what they decide.
use websockethub.Base.{
  ◌≡◌, refl, ap, ◌∙◌, sym, inl, inr, Bool, true, false, ◌||◌, List, [], ◌∷◌, ◌++◌, arith,
  Bool-cases,
}
use mathlib.Core.Path.{subst}
use websockethub.Text.{Text, text, text_eq}
use websockethub.Text.Laws.{text_eq→eq, text_eq_refl, Lacks}
use websockethub.Scroll.{is_scrolled_to_bottom}
use websockethub.Host.{Host}
use websockethub.Widget.State.{
  Widget, mini, cleanslate, has_class, add_class, remove_class, class_name,
}
use websockethub.Widget.Log.{layout_of, must_scroll_to_bottom}

has_class-append :
    (c : Text) (ds es : List Text) → has_class c (ds ++ es) ≡ (has_class c ds || has_class c es)
unfolding has_class
has_class-append c [] es = refl
has_class-append c (d ∷ ds) es = ground (arith, has_class-append c ds es)

pub has_class-add_class :
    (c d : Text) (ds : List Text) → has_class c ds ≡ true → has_class c (add_class d ds) ≡ true
unfolding add_class
has_class-add_class c d ds h = ground (arith, has_class-append c ds (d ∷ []))

text_eq-ne : (c d e : Text) → text_eq d c ≡ false → text_eq d e ≡ true → text_eq c e ≡ false
text_eq-ne c d e n same = elim (Bool-cases (text_eq c e)) [
  | inr other ↦ other
  | inl both ↦
      let d_e : d ≡ e = text_eq→eq d e same in
      let c_e : c ≡ e = text_eq→eq c e both in
      absurd (cc (n, text_eq_refl d, ap (text_eq d) (d_e ∙ sym c_e)))
]

pub has_class-remove_class :
    (c d : Text) (ds : List Text)
    → text_eq d c ≡ false
    → has_class c (remove_class d ds) ≡ has_class c ds
unfolding has_class remove_class
has_class-remove_class c d [] n = refl
has_class-remove_class c d (e ∷ ds) n = elim (Bool-cases (text_eq d e)) [
  | inl same ↦ rw same (has_class-remove_class c d ds n ∙ rw (text_eq-ne c d e n same))
  | inr other ↦ rw (other, has_class) (ap (text_eq c e ||◌) (has_class-remove_class c d ds n))
]

-- A name of two classes or more has a space in it.
not-Lacks-space : (c : Text) (s : Text) → Lacks 32 (c ++ (text " " ++ s)) → ⊥
not-Lacks-space [] s h = h.0 refl
not-Lacks-space (a ∷ c) s h = not-Lacks-space c s h.1

mini-Lacks : Lacks 32 mini
mini-Lacks = omega arith

or_false : (b : Bool) → (b || false) ≡ true → b ≡ true
or_false b h = ground arith

class_name-ne-mini :
    (cs : List Text) → has_class cleanslate cs ≡ true → text_eq (class_name cs) mini ≡ false
unfolding has_class class_name
class_name-ne-mini [] h = cc
class_name-ne-mini (c ∷ []) h =
    let e : cleanslate ≡ c = text_eq→eq cleanslate c (or_false (text_eq cleanslate c) h) in
    subst (λ x. text_eq x mini ≡ false) e refl
class_name-ne-mini (c ∷ d ∷ cs) h = elim (Bool-cases (text_eq (class_name (c ∷ d ∷ cs)) mini)) [
  | inr n ↦ n
  | inl e ↦ absurd (
      not-Lacks-space c (class_name (d ∷ cs))
        (subst (Lacks 32) (sym (text_eq→eq (class_name (c ∷ d ∷ cs)) mini e)) mini-Lacks))
]

-- The reset of all styles, which the widget's node has from the start, as a class.
abbrev pub IsStyled : Widget → Type 0
IsStyled w = has_class cleanslate w.classes ≡ true

-- In `showMessage` the test for the minimised widget compares with the name of one class alone, and
-- fails for every widget that has its styles, minimised or not.
pub must_scroll-IsStyled :
    (host : Host) (w : Widget)
    → IsStyled w
    → must_scroll_to_bottom host w ≡ is_scrolled_to_bottom (layout_of host w) w.scroll_top
must_scroll-IsStyled host w h = ground (arith, class_name-ne-mini w.classes h)

pub has_class-remove_self : (c : Text) (ds : List Text) → has_class c (remove_class c ds) ≡ false
unfolding has_class remove_class
has_class-remove_self c [] = refl
has_class-remove_self c (d ∷ ds) = elim (Bool-cases (text_eq c d)) [
  | inl same ↦ rw same (has_class-remove_self c ds)
  | inr other ↦ rw other (rw (other, has_class) (has_class-remove_self c ds))
]

has_class-append_self : (c : Text) (ds : List Text) → has_class c (ds ++ c ∷ []) ≡ true
unfolding has_class
has_class-append_self c [] = ground (arith, text_eq_refl c)
has_class-append_self c (d ∷ ds) = ground (arith, has_class-append_self c ds)

pub has_class-add_self : (c : Text) (ds : List Text) → has_class c (add_class c ds) ≡ true
unfolding add_class
has_class-add_self c ds = ground (arith, has_class-append_self c ds)

pub has_class-add_other :
    (c d : Text) (ds : List Text)
    → text_eq c d ≡ false
    → has_class c (add_class d ds) ≡ has_class c ds
unfolding add_class
has_class-add_other c d ds n = ground (arith, has_class-append c ds (d ∷ []))
