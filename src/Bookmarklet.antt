-- ===== src/Bookmarklet.antt =====
-- static/chatroombookmarklet.js: a nickname that is taken over from the site, before the widget is
-- loaded into its page.
pub mod Laws
pub mod Tests
use websockethub.Base.{Option, none, some, [], ◌∷◌, if◌then◌else◌}
use websockethub.Text.{Text}
use websockethub.Host.{Host}

-- A property of a global that the site may have: reading it can throw, or give a text or nothing.
pub data Read : Type 0 where
  throws : Read
  gives : Option Text → Read

-- `Imgur.Environment.auth.url` and `r.config.logged`, if there is such a global.
pub record Globals : Type 0 where
  pub imgur : Option Read
  pub r : Option Read

-- `stored || name`
abbrev pub either : Option Text → Option Text → Option Text
either (some (c ∷ s)) other = some (c ∷ s)
either (some []) other = other
either none other = other

-- `setDefaultName`: the entry of the storage afterwards. An error leaves it as it was.
unfoldable pub set_default_name : Host → Option Text → Option Text → Option Text
set_default_name host name stored =
    if host.reads
    then (elim (either stored name) [
      | none ↦ stored
      | some [] ↦ stored
      | some (c ∷ s) ↦ if host.writes then some (c ∷ s) else stored
    ])
    else stored

-- `value || undefined`
abbrev pub or_undefined : Option Text → Option Text
or_undefined (some (c ∷ s)) = some (c ∷ s)
or_undefined _ = none

abbrev pub set_from : Host → (Option Text → Option Text) → Read → Option Text → Option Text
set_from host convert throws stored = stored
set_from host convert (gives name) stored = set_default_name host (convert name) stored

-- What the script leaves in the storage. Its handler drops every error.
unfoldable pub take_name : Host → Globals → Option Text → Option Text
unfolding set_default_name
take_name host site stored = elim site.imgur [
  | some read ↦ set_from host (λ name. name) read stored
  | none ↦ elim site.r [ some read ↦ set_from host or_undefined read stored | none ↦ stored ]
]
