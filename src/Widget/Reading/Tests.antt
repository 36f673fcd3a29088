-- ===== src/Widget/Reading/Tests.antt =====
-- Lines between widgets, and nicknames between pages (static/chatroomwidget.js), on concrete inputs.
use websockethub.Base.{
  any, ◌&&◌, not, ◌==◌, ◌≡◌, refl, false, Option, none, some, List, [], ◌∷◌, map, if◌then◌else◌,
}
use websockethub.Url.{Page}
use websockethub.Text.{Text, text, text_eq}
use websockethub.Regex.{Regex}
use websockethub.Links.{urlify, escape_html}
use websockethub.Host.{Host}
use websockethub.Tests.{browser, page, bob, alice}
use websockethub.Widget.State.{Widget, chat}
use websockethub.Widget.Main.{receives, run, start}
use websockethub.Widget.Nickname.{Storage, storage_after, submit_name-start}
use websockethub.Widget.Reading.{IsReading, own_entries, run-receives}
use websockethub.Widget.Tests.{socket, typed}

-- An engine that refuses expressions with a parenthesis that is not closed.
abbrev careful : Text → Option Regex
careful source =
    if any (λ c. c == b'(') source && not (any (λ c. c == b')') source)
    then none
    else browser.compile source

abbrev strict_browser : Host
strict_browser = record browser { compile = careful }

abbrev entered : Widget
entered = record (typed []) { name_value = alice; stored = some bob }

-- What this origin and another one have stored.
abbrev storage : Storage
storage origin = if text_eq origin page.origin then some bob else some (text "carol")

abbrev other_page : Page
other_page = record page { origin = text "https://example.org" }

submit_name-start_example :
    (start strict_browser none page
      (text "Blog")
      (storage_after browser entered page storage page.origin)).name_value
    ≡ alice
submit_name-start_example =
    submit_name-start browser strict_browser entered b'a' (text "lice") none page page (text "Blog")
      storage refl refl refl

other_origin_test :
    (start browser none other_page
      (text "Blog")
      (storage_after browser entered page storage other_page.origin)).name_value
    ≡ text "carol"
unfolding websockethub.Names.initial_name
other_origin_test =
    submit_name-start browser browser entered b'a' (text "lice") none page other_page (text "Blog")
      storage refl refl refl

-- The user is called `a(`.
abbrev unlucky : Widget
unlucky = record (typed []) { myname = some (text "a(") }

unlucky-IsReading : IsReading unlucky
unlucky-IsReading = record { attached = refl; open_socket = (socket, refl, refl) }

abbrev talk : List Text
talk = text "alice: hi" ∷ text "a(: ho" ∷ text "bob: hey a(" ∷ []

lost_test : own_entries (some (text "a(")) talk ≡ chat (text "a(:") (text " ho") false ∷ []
unfolding own_entries urlify websockethub.Message.split_line escape_html websockethub.Text.fold
lost_test = refl

run-receives_example :
    (run strict_browser unlucky (map receives talk)).entries ≡ own_entries (some (text "a(")) talk
run-receives_example = run-receives strict_browser talk unlucky unlucky-IsReading refl
