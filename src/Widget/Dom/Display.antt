-- ===== src/Widget/Dom/Display.antt =====
-- Which elements of the widget the rules of `makeCSStext` of static/chatroomwidget.js hide.
use websockethub.Base.{
  ◌≡◌, refl, ◌∙◌, Bool, true, false, ◌&&◌, ◌||◌, not, List, [], ◌∷◌, All, arith, all,
}
use websockethub.Text.{Text, text, text_eq}
use websockethub.Style.{
  Element, Simple, id_is, class_is, attribute_is, but_not, only, child, inside, Rule, Screen,
  satisfies, matches, selector_weight, is_hidden, candidates,
}
use websockethub.Style.Sheet.{named, rule, sheet}
use websockethub.Style.Cascade.{
  IsPolite, relevant, concerns, hiding, HidesOnly, any_matched, is_hidden-any_matched,
  is_hidden-shown,
}
use websockethub.Widget.State.{ConnState, id, mini, config_mode, init_config, has_class}
use websockethub.Widget.Dom.{
  root, conn_state_text, connection_msg_node, config_element, messages_element, form, minifier,
  advanced_element,
}

abbrev is_chat : List Simple → List Simple
is_chat ss = id_is id ∷ ss

abbrev hiding_rules : List Rule
hiding_rules =
    rule
      ((inside (only (is_chat (attribute_is (text "data-conn-state") (text "connected") ∷ [])))
          (class_is (text "connMsg") ∷ []))
        ∷ [])
      hiding
    ∷ rule
        (child (only (is_chat (class_is mini ∷ []))) (
            but_not (id_is (named "messages"))
            ∷ but_not (class_is (text "connMsg"))
            ∷ but_not (class_is (named "minifier"))
            ∷ [])
          ∷ [])
        hiding
    ∷ rule
        (inside (only (is_chat (but_not (class_is config_mode) ∷ []))) (id_is (named "config") ∷ [])
          ∷ [])
        hiding
    ∷ rule
        (inside (only (is_chat (class_is init_config ∷ [])))
            (class_is (named "advancedConfig") ∷ [])
          ∷ [])
        hiding
    ∷ []

abbrev first_rule : Rule
first_rule = elim sheet [ [] ↦ rule [] [] | r ∷ rs ↦ r ]

sheet-relevant : relevant (text "display") sheet ≡ first_rule ∷ hiding_rules
unfolding concerns
sheet-relevant = refl

hiding_rules-HidesOnly :
    (scr : Screen) (e : Element) (above : List Element) → All (HidesOnly scr e above) hiding_rules
unfolding selector_weight
hiding_rules-HidesOnly scr e above = (
  (refl, (omega arith, tt)),
  ((refl, (omega arith, tt)), ((refl, (omega arith, tt)), ((refl, (omega arith, tt)), tt))),
)

-- An element of the kinds of which the widget is made.
abbrev pub is_ordinary : Element → Bool
is_ordinary e =
    has_class e.tag
      (text "div" ∷ text "form" ∷ text "p" ∷ text "input" ∷ text "button" ∷ text "span" ∷ [])
    && all (λ (a : Text × Text). text_eq a.0 (text "data-conn-state")) e.attributes

-- The other style sheets of the page, the browser's and the reset among them, name no ids for such
-- elements and do not hide them.
abbrev pub IsPoliteScreen : Screen → Type 0
IsPoliteScreen scr =
    (e : Element) (above : List Element) → is_ordinary e ≡ true → All IsPolite (scr.others e above)

module _ (scr : Screen) (polite : IsPoliteScreen scr) where
  pub root-shown : (cs : List Text) (st : ConnState) → is_hidden scr sheet (root cs st) [] ≡ false
  unfolding matches has_class candidates
  root-shown cs st =
      is_hidden-shown scr (root cs st) [] sheet (first_rule ∷ hiding_rules)
        (polite (root cs st) [] refl) sheet-relevant (ground arith)

  is_hidden-matched :
      (e : Element) (above : List Element)
      → is_ordinary e ≡ true
      → text_eq id e.id ≡ false
      → is_hidden scr sheet e above ≡ any_matched scr e above hiding_rules
  unfolding matches
  is_hidden-matched e above o n =
      is_hidden-any_matched scr e above sheet first_rule hiding_rules (polite e above o)
        sheet-relevant (ground (arith)) (hiding_rules-HidesOnly scr e above)

  -- The elements below the widget's node, each by itself.
  module _ (cs : List Text) (st : ConnState) where
    abbrev top : List Element
    top = root cs st ∷ []

    pub notice-hidden :
        (msg : Text)
        → is_hidden scr sheet (connection_msg_node msg) top
          ≡ text_eq (text "connected") (conn_state_text st)
    unfolding matches has_class
    notice-hidden msg = is_hidden-matched (connection_msg_node msg) top refl refl ∙ ground arith

    pub config-hidden :
        is_hidden scr sheet config_element top
        ≡ (has_class mini cs || not (has_class config_mode cs))
    unfolding matches has_class
    config-hidden = is_hidden-matched config_element top refl refl ∙ ground arith

    pub messages-shown : is_hidden scr sheet messages_element top ≡ false
    unfolding matches has_class
    messages-shown = is_hidden-matched messages_element top refl refl ∙ ground arith

    pub form-hidden : is_hidden scr sheet form top ≡ has_class mini cs
    unfolding matches has_class
    form-hidden = is_hidden-matched form top refl refl ∙ ground arith

    pub minifier-shown : is_hidden scr sheet minifier top ≡ false
    unfolding matches has_class
    minifier-shown = is_hidden-matched minifier top refl refl ∙ ground arith

    pub advanced-hidden :
        is_hidden scr sheet advanced_element (config_element ∷ top) ≡ has_class init_config cs
    unfolding matches has_class
    advanced-hidden =
        is_hidden-matched advanced_element (config_element ∷ top) refl refl ∙ ground arith

  -- An element deeper inside that is none of those.
  pub inner-shown :
      (e p : Element) (above : List Element)
      → is_ordinary e ≡ true
      → text_eq id e.id ≡ false
      → text_eq id p.id ≡ false
      → text_eq (named "config") e.id ≡ false
      → has_class (text "connMsg") e.classes ≡ false
      → has_class (named "advancedConfig") e.classes ≡ false
      → is_hidden scr sheet e (p ∷ above) ≡ false
  unfolding matches satisfies
  inner-shown e p above o a b c d f = is_hidden-matched e (p ∷ above) o a ∙ ground arith
