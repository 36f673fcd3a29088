-- ===== src/Bookmarklet/Laws.antt =====
-- The nickname that the widget starts with when the bookmarklet (static/chatroombookmarklet.js) has
-- loaded it.
use websockethub.Base.{◌≡◌, refl, ◌∙◌, ap, true, Option, none, some, [], ◌∷◌}
use websockethub.Text.{Text}
use websockethub.Host.{Host}
use websockethub.Names.{name_or, initial_name, suggest_name}
use websockethub.Url.{Config, Page}
use websockethub.Widget.Main.{start}
use websockethub.Widget.Nickname.{start-name_value}
use websockethub.Bookmarklet.{
  or_undefined, Read, throws, gives, Globals, set_default_name, take_name,
}

-- The name that the site has for the user, if there is one: that of Imgur, or else that of Reddit.
abbrev pub site_name : Globals → Option Text
site_name site = elim site.imgur [
  | some throws ↦ none
  | some (gives name) ↦ name
  | none ↦ elim site.r [ some (gives name) ↦ name | _ ↦ none ]
]

module _ (host : Host) (r : host.reads ≡ true) (w : host.writes ≡ true) where
  abbrev suggestion : Text
  suggestion = suggest_name host.random_adjective host.random_noun

  initial_name-stored :
      (stored : Option Text) → initial_name host stored ≡ name_or stored suggestion
  unfolding initial_name
  initial_name-stored stored = rw r refl

  initial_name-set_default_name :
      (name stored : Option Text)
      → initial_name host (set_default_name host name stored)
        ≡ name_or stored (name_or name suggestion)
  unfolding initial_name set_default_name
  initial_name-set_default_name name (some (c ∷ s)) = rw (r, w) refl
  initial_name-set_default_name (some (d ∷ t)) (some []) = rw (r, w) refl
  initial_name-set_default_name (some []) (some []) = rw r refl
  initial_name-set_default_name none (some []) = rw r refl
  initial_name-set_default_name (some (d ∷ t)) none = rw (r, w) refl
  initial_name-set_default_name (some []) none = rw r refl
  initial_name-set_default_name none none = rw r refl

  or_undefined-name :
      (name : Option Text) (d : Text) → name_or (or_undefined name) d ≡ name_or name d
  or_undefined-name none d = refl
  or_undefined-name (some []) d = refl
  or_undefined-name (some (c ∷ s)) d = refl

  initial_name-take_name :
      (imgur reddit : Option Read) (stored : Option Text)
      → initial_name host (take_name host (record { imgur = imgur; r = reddit }) stored)
        ≡ name_or stored (name_or (site_name (record { imgur = imgur; r = reddit })) suggestion)
  unfolding take_name
  initial_name-take_name none none stored = initial_name-stored stored
  initial_name-take_name none (some throws) stored = initial_name-stored stored
  initial_name-take_name none (some (gives name)) stored =
      initial_name-set_default_name (or_undefined name) stored
      ∙ ap (name_or stored) (or_undefined-name name suggestion)
  initial_name-take_name (some throws) reddit stored = initial_name-stored stored
  initial_name-take_name (some (gives name)) reddit stored =
      initial_name-set_default_name name stored

-- If the browser lets both scripts read and write its storage, the form of a widget that the
-- bookmarklet has loaded starts with the nickname that was stored before, or else with the name
-- that the site has for the user, or else with a suggestion; an empty name counts as none, and so
-- does one that cannot be read. It does so whether the widget connects or not.
pub take_name-start :
    (host : Host) (site : Globals) (stored : Option Text) (config : Option Config) (page : Page)
    (title : Text)
    → host.reads ≡ true
    → host.writes ≡ true
    → (start host config page title (take_name host site stored)).name_value
      ≡ name_or stored
          (name_or (site_name site) (suggest_name host.random_adjective host.random_noun))
take_name-start host site stored config page title r w =
    start-name_value host config page title (take_name host site stored)
    ∙ initial_name-take_name host r w site.imgur site.r stored
