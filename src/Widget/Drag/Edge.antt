-- ===== src/Widget/Drag/Edge.antt =====
-- The right edge of the widget of static/chatroomwidget.js under clicks.
use websockethub.Base.{
  ℕ, zero, suc, ◌≡◌, refl, ap, Bool, true, false, Option, some, List, [], ◌∷◌, arith, inl, inr, ◌⊎◌,
}
use websockethub.Base.Int.{ℤ, pos, ◌+ℤ◌, ◌-ℤ◌, times, int_laws}
use websockethub.Host.{Host}
use websockethub.Widget.State.{Widget, Outcome, ok}
use websockethub.Widget.Forms.{click_minifier}
use websockethub.Widget.Main
use websockethub.Widget.Drag.{Geometry, Clicked, Tab, widget, offset_left, click, step}

-- `offset().left + outerWidth()`
abbrev pub right_edge_of : Geometry → Tab → ℤ
right_edge_of g t = offset_left g t.widget t.left +ℤ pos (g.outer_width t.widget)

-- Functions that have seen no drag since the last click.
unfoldable pub undragged : ℕ → List Bool
undragged zero = []
undragged (suc n) = false ∷ undragged n

+ℤ_zero : (x : ℤ) → x ≡ x +ℤ pos 0
unfolding ◌+ℤ◌
+ℤ_zero x = ground arith

-- One move more.
move_again : (x t : ℤ) (a b : ℕ) → x +ℤ t +ℤ pos a -ℤ pos b ≡ x +ℤ (pos a -ℤ pos b +ℤ t)
move_again x t a b = omega int_laws

-- With one function the right edge stays.
right_edge : (x : ℤ) (a b : ℕ) → x +ℤ (pos a -ℤ pos b +ℤ pos 0) +ℤ pos b ≡ x +ℤ pos a
right_edge x a b = omega int_laws

module _ (host : Host) (g : Geometry) (w : Widget)
    (clicks : (click_minifier host w).0 ≡ ok tt) where
  abbrev after : Widget
  after = (click_minifier host w).1

  -- How much narrower the node is after the click.
  abbrev pub shrinks : ℤ
  shrinks = pos (g.outer_width w) -ℤ pos (g.outer_width after)

  -- Each function moves the node by what it has become narrower.
  click-undragged :
      (n : ℕ) (x : ℤ)
      → click host g (undragged n) w (some x) ≡ record {
        outcome = ok tt;
        widget = after;
        left = some (x +ℤ times n shrinks);
        wrappers = undragged n;
      }
  unfolding click undragged times
  click-undragged zero x =
      ap
        (λ (p : Outcome (Unit {0}) × ℤ). record {
          outcome = p.0;
          widget = after;
          left = some p.1;
          wrappers = [];
        })
        (λ i. (clicks i, +ℤ_zero x i))
  click-undragged (suc n) x = rw (click-undragged n x) (
      ap
        (λ (y : ℤ). record {
          outcome = ok tt;
          widget = after;
          left = some y;
          wrappers = undragged (suc n);
        })
        (move_again x (times n shrinks) (g.outer_width w) (g.outer_width after)))

  -- A click on a widget that was made draggable so many times, and was not dragged since the last
  -- click, does what it does without the plugin, and moves the left edge to the right by what the
  -- node has become narrower, once for each time that the widget was made draggable.
  pub click-left :
      (n : ℕ) (left : Option ℤ)
      → ((click host g (undragged (suc n)) w left).widget ≡ (click_minifier host w).1)
        × ((click host g (undragged (suc n)) w left).left
            ≡ some (offset_left g w left +ℤ times (suc n) shrinks))
        × ((click host g (undragged (suc n)) w left).wrappers ≡ undragged (suc n))
  unfolding undragged click
  click-left n left =
      let p = click-undragged (suc n) (offset_left g w left) in
      (
        ap (λ (c : Clicked). c.widget) p,
        ap (λ (c : Clicked). c.left) p,
        ap (λ (c : Clicked). c.wrappers) p,
      )

  click-right_edge :
      (left : Option ℤ)
      → offset_left g
            (click host g (false ∷ []) w left).widget
            (click host g (false ∷ []) w left).left
          +ℤ pos (g.outer_width (click host g (false ∷ []) w left).widget)
        ≡ offset_left g w left +ℤ pos (g.outer_width w)
  unfolding undragged times
  click-right_edge left =
      let (a, b, _) = click-left zero left in
      rw (a, b) (right_edge (offset_left g w left) (g.outer_width w) (g.outer_width after))

-- A widget that was made draggable once: a click right after a drag leaves it as it is, where it was
-- dropped; any other click, if the handler of clicks does not throw, does what it does without the
-- plugin and keeps the right edge where it was. After both the next click is an ordinary one.
pub step-right_edge :
    (host : Host) (g : Geometry) (t : Tab) (dragged : Bool)
    → t.wrappers ≡ dragged ∷ []
    → (click_minifier host t.widget).0 ≡ ok tt
    → ((step host g t (widget Main.click)).wrappers ≡ false ∷ [])
      × (((dragged ≡ true)
            × ((step host g t (widget Main.click)).widget ≡ t.widget)
            × ((step host g t (widget Main.click)).left ≡ t.left))
          ⊎ ((dragged ≡ false)
              × ((step host g t (widget Main.click)).widget ≡ (click_minifier host t.widget).1)
              × (right_edge_of g (step host g t (widget Main.click)) ≡ right_edge_of g t)))
unfolding step click
step-right_edge host g t true e clicks = (ground arith, inl (refl, ground arith, ground arith))
step-right_edge host g t false e clicks =
    (ground arith, inr (refl, ground arith, rw e (click-right_edge host g t.widget clicks t.left)))
