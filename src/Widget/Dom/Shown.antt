-- ===== src/Widget/Dom/Shown.antt =====
-- What of the widget of static/chatroomwidget.js is rendered, by the whole style sheet.
use websockethub.Base.{
  ◌≡◌, refl, ap, ◌∙◌, if◌then◌else◌, Bool, true, false, ◌||◌, not, List, [], ◌∷◌, ◌++◌, map,
  append-nil,
}
use websockethub.Text.{Text, text, text_eq}
use websockethub.Style.{
  Element, node, Forest, nil, Screen, is_hidden, rendered, rendered_forest, elements,
  forest_elements,
}
use websockethub.Style.Sheet.{named, sheet}
use websockethub.Widget.State.{
  Widget, ConnState, connected, connecting, error, closed, Entry, mini, config_mode, init_config,
  has_class,
}
use websockethub.Widget.Drag.Loader.{Label}
use websockethub.Widget.Dom.{
  root, connection_msg_node, config_element, advanced_element, advanced_config, name_form,
  config_screen, messages_element, messages_node, conn_state_text, drag_control, entry_node,
  message_form, form, input, minifier, widget_node, forest, leaf,
}
use websockethub.Widget.Dom.Display.{
  IsPoliteScreen, root-shown, notice-hidden, config-hidden, messages-shown, form-hidden,
  minifier-shown, advanced-hidden,
}
use websockethub.Widget.Dom.Plain.{
  rendered-plain, rendered_forest-plain, name_form-plain, advanced-plain, input-plain,
  entries-plain,
}

abbrev pub is_connected : ConnState → Bool
is_connected connected = true
is_connected connecting = false
is_connected error = false
is_connected closed = false

-- Some parts are rendered only under a condition.
abbrev pub unless : Bool → List Element → List Element
unless true es = []
unless false es = es

abbrev pub view_for : Bool → Widget → Label → List Element
view_for is_new w label =
    root w.classes w.conn_state
      ∷ unless (is_connected w.conn_state) (connection_msg_node w.conn_msg ∷ [])
    ++ (unless (has_class mini w.classes || not (has_class config_mode w.classes)) (
          config_element ∷ elements (name_form w.name_value w.name_marked)
          ++ unless is_new (elements (advanced_config label)))
        ++ (elements (messages_node w.entries)
            ++ (unless (has_class mini w.classes)
                  (elements (message_form w.mesg_value w.mesg_marked))
                ++ minifier ∷ [])))

abbrev pub view : Widget → Label → List Element
view w = view_for (has_class init_config w.classes) w

is_connected-text :
    (st : ConnState) → text_eq (text "connected") (conn_state_text st) ≡ is_connected st
is_connected-text connected = refl
is_connected-text connecting = refl
is_connected-text error = refl
is_connected-text closed = refl

rendered-node :
    (scr : Screen) (e : Element) (inner : Forest) (above : List Element) (b : Bool)
    (es : List Element)
    → is_hidden scr sheet e above ≡ b
    → rendered_forest scr sheet inner (e ∷ above) ≡ es
    → rendered scr sheet (node e inner) above ≡ unless b (e ∷ es)
unfolding rendered
rendered-node scr e inner above true es h k = rw h refl
rendered-node scr e inner above false es h k = rw (h, k) refl

-- The parts of the widget, each inside its node.
module _ (scr : Screen) (polite : IsPoliteScreen scr) (cs : List Text) (st : ConnState) where
  abbrev top : List Element
  top = root cs st ∷ []

  rendered-leaf :
      (e : Element) (b : Bool)
      → is_hidden scr sheet e top ≡ b
      → rendered scr sheet (leaf e) top ≡ unless b (e ∷ [])
  unfolding rendered
  rendered-leaf e b h = rendered-node scr e nil top b [] h refl

  rendered-notice :
      (msg : Text)
      → rendered scr sheet (leaf (connection_msg_node msg)) top
        ≡ unless (is_connected st) (connection_msg_node msg ∷ [])
  rendered-notice msg =
      rendered-leaf (connection_msg_node msg) (is_connected st)
        (notice-hidden scr polite cs st msg ∙ is_connected-text st)

  rendered-minifier : rendered scr sheet (leaf minifier) top ≡ minifier ∷ []
  rendered-minifier = rendered-leaf minifier false (minifier-shown scr polite cs st)

  rendered-messages :
      (es : List Entry) → rendered scr sheet (messages_node es) top ≡ elements (messages_node es)
  unfolding rendered elements
  rendered-messages es =
      rw
        (
          messages-shown scr polite cs st,
          rendered_forest-plain scr polite (forest (map entry_node es)) messages_element top refl
              (entries-plain es),
        )
        refl

  rendered-form :
      (txt : Text) (marked : Bool)
      → rendered scr sheet (message_form txt marked) top
        ≡ unless (has_class mini cs) (elements (message_form txt marked))
  unfolding elements
  rendered-form txt marked =
      let inner = forest (leaf (input (named "input") marked txt) ∷ []) in
      rendered-node scr form inner top (has_class mini cs) (forest_elements inner)
        (form-hidden scr polite cs st)
        (rendered_forest-plain scr polite inner form top refl (input-plain txt marked))

  rendered-advanced :
      (label : Label)
      → rendered scr sheet (advanced_config label) (config_element ∷ top)
        ≡ unless (has_class init_config cs) (elements (advanced_config label))
  unfolding elements
  rendered-advanced label =
      let inner = forest (leaf (drag_control label) ∷ []) in
      rendered-node scr advanced_element inner (config_element ∷ top) (has_class init_config cs)
        (forest_elements inner) (advanced-hidden scr polite cs st)
        (rendered_forest-plain scr polite inner advanced_element (config_element ∷ top) refl
          (advanced-plain label))

  both :
      (name : Text) (marked : Bool) (label : Label)
      → rendered_forest scr sheet
          (forest (name_form name marked ∷ advanced_config label ∷ []))
          (config_element ∷ top)
        ≡ elements (name_form name marked)
          ++ unless (has_class init_config cs) (elements (advanced_config label))
  unfolding rendered
  both name marked label =
      rw
        (
          rendered-plain scr polite (name_form name marked) config_element top refl
              (name_form-plain name marked),
          rendered-advanced label,
          append-nil,
        )
        refl

  rendered-config :
      (name : Text) (marked : Bool) (label : Label)
      → rendered scr sheet (config_screen name marked label) top
        ≡ unless (has_class mini cs || not (has_class config_mode cs)) (
            config_element ∷ elements (name_form name marked)
            ++ unless (has_class init_config cs) (elements (advanced_config label)))
  rendered-config name marked label =
      rendered-node scr config_element (forest (name_form name marked ∷ advanced_config label ∷ []))
        top (has_class mini cs || not (has_class config_mode cs)) _ (config-hidden scr polite cs st)
        (both name marked label)

rendered-view :
    (scr : Screen)
    → IsPoliteScreen scr
    → (w : Widget) (label : Label) → rendered scr sheet (widget_node w label) [] ≡ view w label
unfolding rendered
rendered-view scr polite w label =
    rw
      (
        root-shown scr polite w.classes w.conn_state,
        rendered-notice scr polite w.classes w.conn_state w.conn_msg,
        rendered-config scr polite w.classes w.conn_state w.name_value w.name_marked label,
        rendered-messages scr polite w.classes w.conn_state w.entries,
        rendered-form scr polite w.classes w.conn_state w.mesg_value w.mesg_marked,
        rendered-minifier scr polite w.classes w.conn_state,
      )
      refl

-- The elements of the widget that are rendered, if it stands in the page.
abbrev pub rendered_widget : Screen → Widget → Label → List Element
rendered_widget scr w label = if w.attached then rendered scr sheet (widget_node w label) [] else []

-- In a page whose other style sheets name no ids for the elements of the widget, do not hide them
-- and mark no declaration of `display` as important: of a widget that is not in the page no element
-- is rendered. Of one that is, these are rendered, in this order, and no others, that is, all that no
-- `display: none` hides: its node; the notice about the connection, unless it is connected; the form
-- for the nickname, if the widget is in configuration mode and not minimised, and below it the button
-- for dragging, unless that is the initial configuration; the whole list of messages; the form for
-- messages, unless the widget is minimised; and the minifier. Where they lie and what covers them is
-- left open.
pub rendered-widget_node :
    (scr : Screen)
    → IsPoliteScreen scr
    → (w : Widget) (label : Label)
    → rendered_widget scr w label ≡ (if w.attached then view w label else [])
rendered-widget_node scr polite w label =
    ap (λ es. if w.attached then es else []) (rendered-view scr polite w label)
