-- ===== src/Scroll.antt =====
-- Scrolling the list of messages: `isScrolledToBottom` and `scrollToBottom` of
-- static/chatroomwidget.js over the heights that the browser computes.
use Prim.Native.Nat.{min}
use websockethub.Base.{ℕ, ◌+◌, ◌-◌, ◌≤◌, ◌≡◌, Bool, true, arith, ltb}

pub record Layout : Type 0 where
  pub scroll_height : ℕ
  pub offset_height : ℕ
  pub client_height : ℕ

-- The border is part of the offset height, and the content is at least as high as its window.
pub record IsLayout (l : Layout) : Type 0 where
  pub window : l.client_height ≤ l.offset_height
  pub content : l.client_height ≤ l.scroll_height

-- What an element's `scrollTop` becomes when it is set: the browser keeps it within the content.
abbrev pub set_scroll_top : Layout → ℕ → ℕ
set_scroll_top l top = min top (l.scroll_height - l.client_height)

unfoldable pub is_scrolled_to_bottom : Layout → ℕ → Bool
is_scrolled_to_bottom l top = ltb l.scroll_height (l.offset_height + top + 3)

unfoldable pub scroll_to_bottom : Layout → ℕ
scroll_to_bottom l = set_scroll_top l l.scroll_height

-- After a scroll to the bottom the test for the bottom passes, whatever the heights are, so the
-- list goes on following new messages.
is_scrolled_to_bottom-scroll_to_bottom :
    (l : Layout) → IsLayout l → is_scrolled_to_bottom l (scroll_to_bottom l) ≡ true
unfolding is_scrolled_to_bottom scroll_to_bottom
is_scrolled_to_bottom-scroll_to_bottom l h = ground arith
