-- ===== src/Tests.antt =====
-- Runs of the parts of static/chatroomwidget.js that need no widget, on concrete inputs.
use websockethub.Base.{
  ℕ, ◌/◌, ◌-◌, ◌%◌, ◌==◌, if◌then◌else◌, ◌^◌, ◌*◌, ◌≡◌, refl, ◌↔◌, true, false, Option, none, some,
  List, [], ◌∷◌, ◌++◌, arith, All,
}
use websockethub.Text.{Text, text, fold, is_word}
use mathlib.Core.Bool.{xor}
use websockethub.Regex.{Regex, test_from}
use websockethub.Text.Laws.{Lacks}
use websockethub.Scroll.{Layout}
use websockethub.Links.{urlify, escape_html}
use websockethub.Links.Markup.{tokens}
use websockethub.Links.Safety.{visible, tags, IsLinkTag, visible-urlify, tags-urlify}
use websockethub.Title.{load, become_visible}
use websockethub.Title.Laws
use websockethub.Title.Laws.{run, seconds, become_visible-run, shown-hidden}
use websockethub.Host.{Host}
use websockethub.Host.Numbers.{odd}
use websockethub.Url.{Config, Page, room_of, given, hub_address, get_websocket_url}
use websockethub.Url.Encoding.{encode_uri_component}
use websockethub.Url.Decoding.{decode_query}
use websockethub.Url.Room.{IsQueryUnit, room-get_websocket_url, get_websocket_url-total}
use websockethub.Message.{message_line, split_line, highlight, is_me}
use websockethub.Message.Laws.{split_line-colon_name}
use websockethub.Message.Mentions.{name_regex, IsMention, highlight_iff}
use websockethub.Names.{suggest_name}
use websockethub.Names.Product.{product}
use websockethub.Names.Words.{adjectives, nouns}
use websockethub.Names.Laws.{IsItem, suggest_name-words}

abbrev pub bob : Text
bob = text "bob"

abbrev pub alice : Text
alice = text "alice"

abbrev bob_pattern : Text → Option Regex
bob_pattern source = some (name_regex bob)

abbrev not_refused : Text → Option (Text × ℕ)
not_refused url = none

abbrev two_pages : List Text → List Text → Layout
two_pages classes htmls = record { scroll_height = 200; offset_height = 102; client_height = 100 }

-- A browser in which the user is called bob.
abbrev pub browser : Host
browser = record {
  compile = bob_pattern;
  odd_number = λ s. odd 0;
  odd_minus_one = odd;
  odd_text = λ k. text "NaN";
  native_error = text "TypeError";
  refusal = not_refused;
  reads = true;
  writes = true;
  layout = two_pages;
  random_adjective = 12345;
  random_noun = 2 ^ 52;
}

abbrev pub page : Page
page = record {
  canonical = none;
  origin = text "http://blog.example";
  pathname = text "/caf" ++ 0xe9 ∷ [];
  protocol = text "http:";
}

abbrev link_message : Text
link_message = text "see <b> www.x.co/a?b=\"c\" & more"

scheme_test : urlify (text "see x.co") ≡ text "see <a target=_blank href=\"http://x.co\">x.co</a>"
unfolding urlify fold xor is_word
scheme_test = refl

entity_test :
    urlify (escape_html (text "x.co/a& b"))
    ≡ text "<a target=_blank href=\"http://x.co/a&amp\">x.co/a&amp</a>; b"
unfolding urlify escape_html fold xor is_word
entity_test = refl

upper_scheme_test :
    urlify (text "HTTP://x.co")
    ≡ text "<a target=_blank href=\"http://HTTP://x.co\">HTTP://x.co</a>"
unfolding urlify fold xor is_word
upper_scheme_test = refl

encode_test : encode_uri_component (text "/caf" ++ 0xe9 ∷ []) ≡ some (text "%2Fcaf%C3%A9")
unfolding encode_uri_component
encode_test = refl

no_colon_test : split_line (text "hello") ≡ (text "hell", text "hello")
unfolding split_line
no_colon_test = refl

visible-urlify_example :
    visible (tokens (urlify (escape_html link_message))) ≡ escape_html link_message
visible-urlify_example = visible-urlify link_message

tags-urlify_example : All IsLinkTag (tags (tokens (urlify (escape_html link_message))))
tags-urlify_example = tags-urlify link_message

abbrev visits : List Laws.Event
visits = Laws.message ∷ Laws.second ∷ Laws.visible ∷ Laws.message ∷ Laws.second ∷ []

become_visible-run_example :
    ((become_visible (run (load bob) visits)).shown ≡ bob)
    × ((become_visible (run (load bob) visits)).interval ≡ none)
become_visible-run_example = become_visible-run bob visits

abbrev hidden_events : List Laws.Event
hidden_events =
    Laws.second ∷ Laws.message ∷ Laws.second ∷ Laws.message ∷ Laws.message ∷ Laws.second ∷ []

shown-hidden_example :
    (run (become_visible (run (load bob) visits)) (Laws.message ∷ hidden_events)).shown
    ≡ (if seconds hidden_events % 2 == 1 then text "new messages - " ++ bob else bob)
shown-hidden_example = shown-hidden bob visits hidden_events (ground arith)

abbrev config : Config
config = record {
  use_tls = some true;
  websockethost = none;
  room = some (text "a/b");
  websocketpath = none;
}

room-get_websocket_url_example :
    (query : Text) × (text "wss://hub.websockethub.com/hub?room=a%2Fb"
      ≡ hub_address (given (some config)) page ++ query)
    × (decode_query query ≡ some (room_of (given (some config)) page))
    × All IsQueryUnit query
room-get_websocket_url_example =
    room-get_websocket_url (some config) page (text "wss://hub.websockethub.com/hub?room=a%2Fb")
      (ground arith) (unfold get_websocket_url in unfold encode_uri_component in refl)

get_websocket_url-total_example : (url : Text) × (get_websocket_url (some config) page ≡ some url)
get_websocket_url-total_example = get_websocket_url-total (some config) page (ground arith)

abbrev hello : Text
hello = text "hi: there"

bob_plain : Lacks b':' bob
bob_plain = ground arith

split_line-colon_name_example :
    split_line (message_line (some (bob ++ b':' ∷ alice)) hello)
    ≡ (bob, alice ++ (text ": " ++ hello))
split_line-colon_name_example = split_line-colon_name bob alice hello bob_plain

mention_test : highlight browser (some bob) alice (text " hi Bob!") ≡ some true
unfolding highlight fold xor is_word test_from
mention_test = refl

no_mention_test : highlight browser (some bob) alice (text " hi Bobby!") ≡ some false
unfolding highlight fold xor is_word test_from
no_mention_test = refl

highlight_iff_example :
    (highlight browser (some bob) alice (text " hi Bob!") ≡ some true)
    ↔ ((is_me (some bob) alice ≡ false) × IsMention bob (text " hi Bob!"))
highlight_iff_example = highlight_iff browser (some bob) alice (text " hi Bob!") refl

-- Just below 31, but the product is 31; a product in the middle is rounded to the even neighbour.
product_test :
    (1116892707587883 * 250 / 2 ^ 53 ≡ 30)
    × (product 1116892707587883 250 / 2 ^ 53 ≡ 31)
    × (product 4215369251218784 250 / 2 ^ 53 ≡ 117)
    × (product (2 ^ 53 - 1) 250 / 2 ^ 53 ≡ 249)
unfolding product
product_test = (refl, refl, refl, refl)

suggest_name-words_example :
    (a n : Text) × IsItem a adjectives
    × IsItem n nouns
    × (suggest_name 1116892707587883 (2 ^ 53 - 1) ≡ a ++ (text " " ++ n))
suggest_name-words_example =
    suggest_name-words 1116892707587883 (2 ^ 53 - 1) (omega arith) (omega arith)
