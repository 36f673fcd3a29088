-- ===== src/Bookmarklet/Tests.antt =====
-- The bookmarklet (static/chatroombookmarklet.js) on a concrete site.
use websockethub.Base.{◌^◌, ◌≡◌, refl, none, some}
use websockethub.Text.{text}
use websockethub.Names.{name_or, suggest_name}
use websockethub.Tests.{browser, page, alice}
use websockethub.Widget.Main.{start}
use websockethub.Bookmarklet.{Globals, gives, take_name}
use websockethub.Bookmarklet.Laws.{site_name, take_name-start}

-- A site that knows its user as alice.
abbrev gallery : Globals
gallery = record { imgur = some (gives (some alice)); r = none }

take_name-start_example :
    (start browser none page (text "Blog") (take_name browser gallery none)).name_value
    ≡ name_or none (name_or (site_name gallery) (suggest_name 12345 (2 ^ 52)))
take_name-start_example = take_name-start browser gallery none none page (text "Blog") refl refl
