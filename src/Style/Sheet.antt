-- ===== src/Style/Sheet.antt =====
-- The rules of the widget's own in `makeCSStext` of static/chatroomwidget.js.
use Prim.Native.String.{String}
use websockethub.Base.{List, [], ◌∷◌, ◌++◌}
use websockethub.Text.{Text, text}
use websockethub.Widget.State.{id}
use websockethub.Style.{
  tag_is, id_is, class_is, attribute_is, hover, but_not, Selector, only, child, inside, Rule,
}

abbrev pub named : String → Text
named s = id ++ text s

abbrev pub rule : List Selector → List (Text × Text) → Rule
rule ss ds = record { selectors = ss; declarations = ds }

abbrev pub sheet : List Rule
sheet =
    rule ((only (id_is id ∷ [])) ∷ []) (
      (text "position", text "absolute")
      ∷ (text "right", text "50px")
      ∷ (text "top", text "50px")
      ∷ (text "border", text "solid thin black")
      ∷ (text "background-color", text "white")
      ∷ (text "z-index", text "1000")
      ∷ (text "display", text "flex")
      ∷ (text "flex-direction", text "column")
      ∷ (text "justify-content", text "flex-end")
      ∷ (text "width", text "300px")
      ∷ (text "height", text "500px")
      ∷ (text "font-size", text "12pt")
      ∷ [])
    ∷ rule
        ((only (id_is id ∷ class_is (named "mini") ∷ []))
          ∷ (inside (only (id_is id ∷ [])) (class_is (named "minifier") ∷ []))
          ∷ [])
        ((text "width", text "100px")
          ∷ (text "height", text "100px")
          ∷ (text "font-size", text "6pt")
          ∷ [])
    ∷ rule ((inside (only (id_is id ∷ [])) (class_is (named "minifier") ∷ [])) ∷ []) (
        (text "top", text "0") ∷ (text "right", text "0") ∷ (text "position", text "absolute") ∷ [])
    ∷ rule
        ((inside (only (id_is id ∷ attribute_is (text "data-conn-state") (text "connected") ∷ []))
            (class_is (text "connMsg") ∷ []))
          ∷ [])
        ((text "display", text "none") ∷ [])
    ∷ rule ((inside (only (id_is id ∷ [])) (id_is (named "messages") ∷ [])) ∷ [])
        ((text "overflow-x", text "hidden") ∷ (text "overflow-y", text "auto") ∷ [])
    ∷ rule
        ((inside (only (id_is id ∷ class_is (named "mini") ∷ [])) (id_is (named "messages") ∷ []))
          ∷ [])
        ((text "overflow-y", text "hidden") ∷ [])
    ∷ rule
        ((child (only (id_is id ∷ class_is (named "mini") ∷ [])) (
            but_not (id_is (named "messages"))
            ∷ but_not (class_is (text "connMsg"))
            ∷ but_not (class_is (named "minifier"))
            ∷ []))
          ∷ [])
        ((text "display", text "none") ∷ [])
    ∷ rule
        ((inside (only (id_is id ∷ but_not (class_is (named "mini")) ∷ hover ∷ []))
            (class_is (named "minifier") ∷ []))
          ∷ [])
        ((text "background-color", text "rgba(151, 190, 151, 0.64)") ∷ [])
    ∷ rule ((inside (only (id_is id ∷ [])) (class_is (named "name") ∷ [])) ∷ [])
        ((text "font-weight", text "bold") ∷ [])
    ∷ rule ((inside (only (id_is id ∷ [])) (id_is (named "nameForm") ∷ [])) ∷ [])
        ((text "margin-top", text "100px") ∷ [])
    ∷ rule
        ((inside (only (id_is id ∷ but_not (class_is (named "configMode")) ∷ []))
            (id_is (named "config") ∷ []))
          ∷ [])
        ((text "display", text "none") ∷ [])
    ∷ rule
        ((inside (inside (only (id_is id ∷ [])) (id_is (named "nameForm") ∷ []))
            (tag_is (text "input") ∷ []))
          ∷ [])
        ((text "text-align", text "left") ∷ [])
    ∷ rule ((inside (only (id_is id ∷ [])) (class_is (named "advancedConfig") ∷ [])) ∷ []) (
        (text "width", text "75%")
        ∷ (text "text-align", text "left")
        ∷ (text "margin-left", text "auto")
        ∷ (text "margin-right", text "auto")
        ∷ [])
    ∷ rule
        ((inside (only (id_is id ∷ class_is (named "initConfig") ∷ []))
            (class_is (named "advancedConfig") ∷ []))
          ∷ [])
        ((text "display", text "none") ∷ [])
    ∷ rule
        ((inside (only (id_is id ∷ [])) (id_is (named "config") ∷ []))
          ∷ (inside (only (id_is id ∷ [])) (class_is (text "connMsg") ∷ []))
          ∷ [])
        ((text "background", text "white")
          ∷ (text "text-align", text "center")
          ∷ (text "top", text "0")
          ∷ (text "height", text "100%")
          ∷ (text "position", text "absolute")
          ∷ (text "width", text "100%")
          ∷ [])
    ∷ rule ((inside (only (id_is id ∷ [])) (class_is (text "connMsg") ∷ [])) ∷ []) (
        (text "z-index", text "1002")
        ∷ (text "height", text "2em")
        ∷ (text "color", text "red")
        ∷ (text "padding-top", text "1em")
        ∷ (text "margin-top", text "1em")
        ∷ (text "background-color", text "rgba(255, 255, 255, 0.9)")
        ∷ [])
    ∷ rule ((inside (only (id_is id ∷ [])) (id_is (named "messages") ∷ [])) ∷ []) (
        (text "white-space", text "pre-wrap")
        ∷ (text "font-family", text "sans-serif")
        ∷ (text "word-wrap", text "break-word")
        ∷ [])
    ∷ rule ((inside (only (id_is id ∷ [])) (class_is (named "highlight") ∷ [])) ∷ [])
        ((text "color", text "rgb(165, 0, 0)") ∷ (text "font-weight", text "bold") ∷ [])
    ∷ rule ((inside (only (id_is id ∷ [])) (id_is (named "input") ∷ [])) ∷ [])
        ((text "width", text "100%") ∷ [])
    ∷ rule ((inside (only (id_is id ∷ [])) (tag_is (text "form") ∷ [])) ∷ [])
        ((text "flex-shrink", text "0") ∷ [])
    ∷ rule ((inside (only (id_is id ∷ [])) (class_is (named "log") ∷ [])) ∷ [])
        ((text "font-style", text "italic") ∷ [])
    ∷ rule ((inside (only (id_is id ∷ [])) (class_is (named "log-error") ∷ [])) ∷ [])
        ((text "color", text "red") ∷ [])
    ∷ []
