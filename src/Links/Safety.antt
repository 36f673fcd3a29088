-- ===== src/Links/Safety.antt =====
-- What a reader of a message that `urlify` of static/chatroomwidget.js has linked can come to see.
use websockethub.Base.{
  ℕ, ◌≡◌, refl, ap, ◌∙◌, ◌≢◌, ◌⊎◌, inl, inr, List, [], ◌∷◌, ◌++◌, map, All, All-append, arith,
}
use websockethub.Text.{Text, text}
use websockethub.Text.Laws.{Lacks}
use websockethub.Regex.{Piece, lit, hit, scan}
use websockethub.Regex.Replace.{raw, HitsOver}
use websockethub.Links.{htmlrex, href_of, urlify, escape_unit, escape_html}
use websockethub.Regex.Consumes.{HitsAre}
use websockethub.Links.Scheme.{IsLink, urlify-HitsAre}
use websockethub.Links.Scheme.Href.{HasWebScheme, IsLink-href_of}
use websockethub.Links.Markup.{
  Token, unit, tag, tokens, IsUrlUnit, urlify-Cut, no_quote, Lacks-href, linked, tokens-render,
}

-- The text between the tags, and the tags.
unfoldable pub visible : List Token → Text
visible [] = []
visible (unit c ∷ ts) = c ∷ visible ts
visible (tag t ∷ ts) = visible ts

unfoldable pub tags : List Token → List Text
tags [] = []
tags (unit c ∷ ts) = tags ts
tags (tag t ∷ ts) = t ∷ tags ts

-- The end of a link, or its start with a quoted address that begins with `http://`, `https://` or
-- `rtsp://`.
abbrev pub IsLinkTag : Text → Type 0
IsLinkTag t =
    (t ≡ text "/a")
    ⊎ ((href : Text) × (t ≡ text "a target=_blank href=\"" ++ (href ++ text "\""))
        × Lacks b'"' href
        × HasWebScheme href)

escape_unit-Lacks : (c : ℕ) → Lacks b'<' (escape_unit c)
unfolding escape_unit
escape_unit-Lacks c = ground arith

escape_html-Lacks : (s : Text) → Lacks b'<' (escape_html s)
unfolding escape_html
escape_html-Lacks [] = tt
escape_html-Lacks (c ∷ s) =
    All-append (λ a. a ≢ b'<') (escape_unit c) (escape_html s) (escape_unit-Lacks c)
      (escape_html-Lacks s)

visible-units : (m : Text) (ts : List Token) → visible (map unit m ++ ts) ≡ m ++ visible ts
unfolding visible
visible-units [] ts = refl
visible-units (c ∷ m) ts = rw (visible-units m ts)

tags-units : (m : Text) (ts : List Token) → tags (map unit m ++ ts) ≡ tags ts
unfolding tags
tags-units [] ts = refl
tags-units (c ∷ m) ts = tags-units m ts

visible-linked : (ps : List Piece) → visible (linked ps) ≡ raw ps
unfolding visible linked
visible-linked [] = refl
visible-linked (lit c ∷ ps) = rw (visible-linked ps)
visible-linked (hit m ∷ ps) =
    visible-units m (tag (text "/a") ∷ linked ps) ∙ ap (m ++◌) (visible-linked ps)

tags-linked :
    (ps : List Piece) → HitsOver IsUrlUnit ps → HitsAre IsLink ps → All IsLinkTag (tags (linked ps))
unfolding tags linked
tags-linked [] h k = tt
tags-linked (lit c ∷ ps) h k = tags-linked ps h k
tags-linked (hit m ∷ ps) (h, hs) (k, ks) = (
  inr (href_of m, refl, Lacks-href b'"' no_quote m (omega arith) h, IsLink-href_of m k),
  rw tags-units (inl refl, tags-linked ps hs ks),
)

tokens-urlify :
    (s : Text) → tokens (urlify (escape_html s)) ≡ linked (scan htmlrex 0 [] (escape_html s))
unfolding urlify
tokens-urlify s =
    let (e, h) = urlify-Cut (escape_html s) in
    tokens-render (scan htmlrex 0 [] (escape_html s)) (rw e (escape_html-Lacks s)) h

-- Making the links of a message puts tags into its HTML and does nothing else: without them, what
-- stands between them is the HTML that was there before, unit for unit. This is about the units of
-- the HTML, not about how its character references are read once there are tags between them.
pub visible-urlify :
    (message : Text) → visible (tokens (urlify (escape_html message))) ≡ escape_html message
visible-urlify message =
    ap visible (tokens-urlify message)
    ∙ (visible-linked (scan htmlrex 0 [] (escape_html message))
        ∙ (urlify-Cut (escape_html message)).0)

-- Whatever the message, the only tags in the new HTML are ends of links and starts of links whose
-- quoted address has no quote inside and begins with `http://`, `https://` or `rtsp://`.
pub tags-urlify : (message : Text) → All IsLinkTag (tags (tokens (urlify (escape_html message))))
tags-urlify message = rw (tokens-urlify message) (
    tags-linked (scan htmlrex 0 [] (escape_html message)) (urlify-Cut (escape_html message)).1
      (urlify-HitsAre (escape_html message)))
