-- ===== src/Widget/Nickname.antt =====
-- The nickname from one page to the next (static/chatroomwidget.js).
use websockethub.Base.{
  ℕ, ◌≡◌, refl, if◌then◌else◌, Bool-cases, ◌∙◌, ap, inl, inr, true, Option, ◌∷◌, arith,
  Option-cases,
}
use websockethub.Text.{Text, text_eq}
use websockethub.Host.{Host}
use websockethub.Names.{initial_name, set_cached_name_safe}
use websockethub.Names.Laws.{initial_name-set_cached_name_safe}
use websockethub.Url.{Config, Page, get_websocket_url}
use websockethub.Widget.State.{Widget}
use websockethub.Widget.Log.{log_to_user}
use websockethub.Widget.Connection.{onclose, onerror}
use websockethub.Widget.Forms.{submit_name}
use websockethub.Widget.Main.{start}

-- However the start ends, the form for the nickname has been filled in.
pub start-name_value :
    (host : Host) (config : Option Config) (page : Page) (title : Text) (stored : Option Text)
    → (start host config page title stored).name_value ≡ initial_name host stored
unfolding start onerror onclose log_to_user
start-name_value host config page title stored =
    elim (Option-cases (get_websocket_url config page)) [
      | inl n ↦ rw (n, start) (ground arith)
      | inr (url, e) ↦ elim (Option-cases (host.refusal url)) [
        | inl n ↦ rw (e, start) (rw (n, start) (ground arith))
        | inr (msg, r) ↦ rw (e, start) (rw (r, start) (ground arith))
      ]
    ]

submit_name-stored :
    (host : Host) (w : Widget)
    → (submit_name host w).1.stored ≡ set_cached_name_safe host w.name_value w.stored
unfolding submit_name
submit_name-stored host w = ground arith

-- The entries of `localStorage`, of which each origin has its own.
abbrev pub Storage : Type 0
Storage = Text → Option Text

-- What is stored after the form was submitted on a page.
abbrev pub storage_after : Host → Widget → Page → Storage → Storage
storage_after host w page storage origin =
    if text_eq origin page.origin then (submit_name host w).1.stored else storage origin

-- The nickname that was entered in the form on a page, if it is not empty, is what the form starts
-- with on the next page of the same origin, if the browser lets the script write its storage on the
-- first page and read it on the second. On a page of another origin the form starts with what was
-- stored there, or with a suggestion. It does not matter how the widget is configured and whether it
-- connects.
pub submit_name-start :
    (host next_host : Host) (w : Widget) (c : ℕ) (name : Text) (config : Option Config)
    (page next_page : Page) (title : Text) (storage : Storage)
    → host.writes ≡ true
    → next_host.reads ≡ true
    → w.name_value ≡ c ∷ name
    → (start next_host config next_page title
        (storage_after host w page storage next_page.origin)).name_value
      ≡ (if text_eq next_page.origin page.origin
          then c ∷ name
          else initial_name next_host (storage next_page.origin))
submit_name-start host next_host w c name config page next_page title storage writes reads e =
    start-name_value next_host config next_page title
      (storage_after host w page storage next_page.origin)
    ∙ (elim (Bool-cases (text_eq next_page.origin page.origin)) [
      | inl same ↦ rw same (
          ap (initial_name next_host) (submit_name-stored host w)
          ∙ (ap (λ t. initial_name next_host (set_cached_name_safe host t w.stored)) e
              ∙ initial_name-set_cached_name_safe host next_host c name w.stored writes reads))
      | inr other ↦ rw other refl
    ])
