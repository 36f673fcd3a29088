-- ===== src/Links.antt =====
-- `urlify` of static/chatroomwidget.js: the text of an element, as HTML, with its URLs made links.
mod Pattern
pub mod Markup
pub mod Safety
pub mod Scheme
unfoldable pub use Pattern.{htmlrex}
use websockethub.Base.{ℕ, Bool, false, ◌&&◌, List, [], ◌∷◌, ◌++◌, ◌==◌, if◌then◌else◌, not}
use websockethub.Text.{Text, text, is_lower, starts_with}
use websockethub.Regex.{Piece, lit, hit, scan}

-- `/^[a-z]+:\/\//.test(href)`, behind its first letter.
unfoldable pub scheme_rest : Text → Bool
scheme_rest [] = false
scheme_rest (c ∷ s) = if is_lower c then scheme_rest s else starts_with (text "://") (c ∷ s)

unfoldable pub has_scheme : Text → Bool
unfolding scheme_rest starts_with
has_scheme [] = false
has_scheme (c ∷ s) = is_lower c && scheme_rest s

pub href_of : Text → Text
unfolding has_scheme
href_of url = if not (has_scheme url) then text "http://" ++ url else url

-- The string that the replacement function returns for a match.
pub anchor : Text → Text
unfolding href_of
anchor url =
    text "<a target=_blank href=\"" ++ (href_of url ++ (text "\">" ++ (url ++ text "</a>")))

pub render : List Piece → Text
render [] = []
render (lit c ∷ ps) = c ∷ render ps
render (hit m ∷ ps) = anchor m ++ render ps

-- The new `innerHTML` for an old one.
unfoldable pub urlify : Text → Text
unfolding render anchor htmlrex scan
urlify html = render (scan htmlrex 0 [] html)

-- `innerHTML` of an element that was given a `textContent`: the serialisation of one text node.
pub escape_unit : ℕ → Text
escape_unit c =
    if c == b'&'
    then text "&amp;"
    else if c == b'<'
    then text "&lt;"
    else if c == b'>'
    then text "&gt;"
    else if c == 0xa0
    then text "&nbsp;"
    else c ∷ []

unfoldable pub escape_html : Text → Text
unfolding escape_unit
escape_html [] = []
escape_html (c ∷ s) = escape_unit c ++ escape_html s
