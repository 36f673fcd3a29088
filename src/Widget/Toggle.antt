-- ===== src/Widget/Toggle.antt =====
-- A click on the minifier of static/chatroomwidget.js: small and large in turns.
use websockethub.Base.{
  ◌≡◌, ◌⊎◌, inl, inr, true, false, ◌||◌, some, arith, Bool-cases, if◌then◌else◌,
}
use websockethub.Host.{Host}
use websockethub.Scroll.{scroll_to_bottom}
use websockethub.Widget.State.{Widget, mini, has_class, name_input, mesg_input}
use websockethub.Widget.Log.{layout_of}
use websockethub.Widget.Forms.{click_minifier}
use websockethub.Widget.SameLook.{IsLook}
use websockethub.Widget.Classes.{has_class-remove_self, has_class-add_self}

-- A click makes a large widget small, and a small one that stands in the page large. Then the list
-- of messages is at its end, and the focus is on an input: on that for the nickname if it is
-- marked, and otherwise on that for messages.
pub click_minifier-toggles :
    (host : Host) (w : Widget)
    → IsLook w
    → w.attached ≡ true
    → ((has_class mini w.classes ≡ false)
        × (has_class mini (click_minifier host w).1.classes ≡ true))
      ⊎ ((has_class mini w.classes ≡ true)
          × (has_class mini (click_minifier host w).1.classes ≡ false)
          × ((click_minifier host w).1.scroll_top
              ≡ scroll_to_bottom (layout_of host (click_minifier host w).1))
          × ((click_minifier host w).1.focus
              ≡ some (if w.name_marked then name_input else mesg_input)))
unfolding click_minifier
click_minifier-toggles host w l a = elim (Bool-cases (has_class mini w.classes)) [
  | inr large ↦ inl (large, ground (arith, has_class-add_self mini w.classes))
  | inl small ↦
      let can : (w.name_marked || w.mesg_marked) ≡ true = l.focusable a in
      inr (small, ground (arith, has_class-remove_self mini w.classes), ground arith, ground arith)
]
