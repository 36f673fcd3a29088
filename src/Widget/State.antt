-- ===== src/Widget/State.antt =====
-- The state of static/chatroomwidget.js, its variables and the elements that it builds, and
-- programs over it that can throw.
use websockethub.Base.{ℕ, Bool, false, Option, List, [], ◌∷◌, ◌++◌, if◌then◌else◌, ◌||◌}
use websockethub.Text.{Text, text, text_eq}
use websockethub.Host.Numbers.{Num}
use websockethub.Title.{Title}

-- `data-conn-state`
pub data ConnState : Type 0 where
  connecting connected error closed : ConnState

-- The `readyState` of the socket, and what it was given to send.
pub data Ready : Type 0 where
  starting opened closing gone : Ready

pub record Socket : Type 0 where
  pub ready : Ready
  pub sent : List Text

pub data Level : Type 0 where
  info error : Level

-- An element in the list of messages, its content as HTML.
pub data Entry : Type 0 where
  chat : (name html : Text) → (highlighted : Bool) → Entry
  log : Level → (html : Text) → Entry

-- The interval of `quitDelay`: `seconds`, `msg`, and the place of `el` in the list of messages.
pub record Countdown : Type 0 where
  pub seconds : Num
  pub msg : Text
  pub el : ℕ

-- The one handler that `chatroomwidget_main_aux` pushes.
pub data QuitHandler : Type 0 where
  close_widget : QuitHandler

pub data Input : Type 0 where
  name_input mesg_input : Input

pub record Widget : Type 0 where
  pub myname : Option Text
  -- the entry of `localStorage`
  pub stored : Option Text
  -- the widget's node: whether it is in the document, its classes, `data-conn-state`, its text
  pub attached : Bool
  pub classes : List Text
  pub conn_state : ConnState
  pub conn_msg : Text
  -- the values of the two inputs, whether each has the class `focusMeOnMaximize`, the focus
  pub name_value : Text
  pub mesg_value : Text
  pub name_marked : Bool
  pub mesg_marked : Bool
  pub focus : Option Input
  -- the list of messages and its `scrollTop`
  pub entries : List Entry
  pub scroll_top : ℕ
  -- whether `sendMessage` was replaced; the variable `ws`; the socket that was opened
  pub can_send : Bool
  pub ws : Bool
  pub socket : Option Socket
  -- `onquitHandlers`, `widgetNode` and the intervals of `quitDelay`; a cleared one is `none`
  pub onquit : Option (List QuitHandler)
  pub widget_node : Bool
  pub countdowns : List (Option Countdown)
  -- `document.title`, `document.hidden`, and whether `visibilitychange` is listened to
  pub title : Title
  pub hidden : Bool
  pub listens : Bool

-- A text that the script throws, or an error that the engine throws.
pub data Thrown : Type 0 where
  message : Text → Thrown
  native : Thrown

pub data Outcome (A : Type 0) : Type 0 where
  ok : A → Outcome A
  thrown : Thrown → Outcome A

-- What was done before an error stays done.
abbrev pub M : Type 0 → Type 0
M A = Widget → Outcome A × Widget

module _ {A B : Type 0} where
  abbrev pub next : Outcome A × Widget → (A → M B) → Outcome B × Widget
  next (ok a, w) f = f a w
  next (thrown e, w) f = (thrown e, w)

  infixl 5 ◌>>=◌
  abbrev pub ◌>>=◌ : M A → (A → M B) → M B
  ◌>>=◌ m f w = next (m w) f

module _ {B : Type 0} where
  infixl 5 ◌>>◌
  abbrev pub ◌>>◌ : M (Unit {0}) → M B → M B
  m >> k = m >>= λ _. k

abbrev pub Do : Type 0
Do = M (Unit {0})

abbrev pub done : Do
done w = (ok tt, w)

abbrev pub raise : {A : Type 0} → Thrown → M A
raise e w = (thrown e, w)

abbrev pub change : (Widget → Widget) → Do
change f w = (ok tt, f w)

-- `try { body } catch (e) { handler(e) }`
abbrev caught : Outcome (Unit {0}) × Widget → (Thrown → Do) → Outcome (Unit {0}) × Widget
caught (ok a, w) handler = (ok a, w)
caught (thrown e, w) handler = handler e w

abbrev pub attempt : Do → (Thrown → Do) → Do
attempt body handler w = caught (body w) handler

-- The prefix of all names, and the class names of the widget's node.
abbrev pub id : Text
id = text "websockethub_chatroom_"

abbrev pub mini : Text
mini = id ++ text "mini"

abbrev pub config_mode : Text
config_mode = id ++ text "configMode"

abbrev pub init_config : Text
init_config = id ++ text "initConfig"

abbrev pub cleanslate : Text
cleanslate = id ++ text "cleanslate"

-- `classList` and `className`
unfoldable pub has_class : Text → List Text → Bool
has_class c [] = false
has_class c (d ∷ ds) = text_eq c d || has_class c ds

unfoldable pub add_class : Text → List Text → List Text
unfolding has_class
add_class c ds = if has_class c ds then ds else ds ++ c ∷ []

unfoldable pub remove_class : Text → List Text → List Text
remove_class c [] = []
remove_class c (d ∷ ds) = if text_eq c d then remove_class c ds else d ∷ remove_class c ds

unfoldable pub class_name : List Text → Text
class_name [] = []
class_name (c ∷ []) = c
class_name (c ∷ d ∷ ds) = c ++ (text " " ++ class_name (d ∷ ds))
