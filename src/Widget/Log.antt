-- ===== src/Widget/Log.antt =====
-- Elements in the list of messages: `logToUser`, `about` and `showMessage` of
-- static/chatroomwidget.js.
use websockethub.Base.{ℕ, zero, suc, Bool, ◌||◌, List, [], ◌∷◌, ◌++◌, map, length, if◌then◌else◌}
use websockethub.Text.{Text, text, text_eq}
use websockethub.Scroll.{is_scrolled_to_bottom, scroll_to_bottom, Layout}
use websockethub.Host.{Host}
use websockethub.Links.{escape_html, urlify}
use websockethub.Widget.State.{
  Widget, Entry, chat, log, Level, info, M, Do, change, Thrown, message, native, ok, thrown, mini,
  class_name, ◌>>=◌,
}

abbrev pub html_of : Entry → Text
html_of (chat name html highlighted) = html
html_of (log lvl html) = html

-- The heights of the list of messages as it is now.
abbrev pub layout_of : Host → Widget → Layout
layout_of host w = host.layout w.classes (map html_of w.entries)

abbrev pub append_entry : Entry → Widget → Widget
append_entry e w = record w { entries = w.entries ++ e ∷ [] }

abbrev pub to_bottom : Host → Widget → Widget
to_bottom host w = record w { scroll_top = scroll_to_bottom (layout_of host w) }

-- The place of the new element; without a list of messages in the document, an error.
unfoldable pub log_to_user : Host → Text → Level → M ℕ
log_to_user host msg lvl w =
    if w.attached
    then (ok (length w.entries), to_bottom host (append_entry (log lvl (escape_html msg)) w))
    else (thrown native, w)

abbrev pub show_log : Host → Text → Level → Do
show_log host msg lvl = log_to_user host msg lvl >>= λ _ w. (ok tt, w)

-- The text of what was thrown.
abbrev pub thrown_text : Host → Thrown → Text
thrown_text host (message msg) = msg
thrown_text host native = host.native_error

set_html : (Text → Text) → Entry → Entry
set_html f (chat name html highlighted) = chat name (f html) highlighted
set_html f (log lvl html) = log lvl (f html)

-- A new `innerHTML` for the element at a place.
unfoldable pub update_entry : (Text → Text) → ℕ → List Entry → List Entry
unfolding set_html
update_entry f i [] = []
update_entry f zero (e ∷ es) = set_html f e ∷ es
update_entry f (suc i) (e ∷ es) = e ∷ update_entry f i es

abbrev pub set_entry : (Text → Text) → ℕ → Do
set_entry f i = change λ w. record w { entries = update_entry f i w.entries }

unfoldable pub about : Host → Do
unfolding log_to_user update_entry
about host =
    log_to_user host (text "websockethub.com groupchat. It's crazy, but it works.") info >>= λ el.
    set_entry urlify el

-- Whether `showMessage` scrolls.
abbrev pub must_scroll_to_bottom : Host → Widget → Bool
must_scroll_to_bottom host w =
    is_scrolled_to_bottom (layout_of host w) w.scroll_top || text_eq (class_name w.classes) mini

unfoldable pub show_message : Host → Entry → Do
show_message host e w =
    if w.attached
    then (
      ok tt,
      if must_scroll_to_bottom host w then to_bottom host (append_entry e w) else append_entry e w,
    )
    else (thrown native, w)
