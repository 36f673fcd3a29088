-- ===== src/Host.antt =====
-- What static/chatroomwidget.js takes from the browser and its JavaScript engine, as far as no
-- definition here computes it, and the numbers to which it converts text.
pub mod Numbers
use websockethub.Base.{ℕ, Bool, Option, List}
use websockethub.Text.{Text}
use websockethub.Regex.{Regex}
use websockethub.Scroll.{Layout}
use Numbers.{Num}

-- The parameters of the model.
pub record Host : Type 0 where
  -- `new RegExp(source, "i")`; `none` is a `SyntaxError`.
  pub compile : Text → Option Regex
  -- `Number(s)`, where `s` is not plain digits.
  pub odd_number : Text → Num
  -- `x - 1` and `String(x)` of a number that is no safe integer.
  pub odd_minus_one : ℕ → Num
  pub odd_text : ℕ → Text
  -- The text of an error that the engine throws.
  pub native_error : Text
  -- The message and the code of the error that `new WebSocket(url)` throws, if it does.
  pub refusal : Text → Option (Text × ℕ)
  -- Whether `localStorage` can be read and written.
  pub reads : Bool
  pub writes : Bool
  -- The heights of the list of messages, from the classes of the widget and the HTML of the list.
  pub layout : List Text → List Text → Layout
  -- Two results of `Math.random()`, as multiples of 2^-53.
  pub random_adjective : ℕ
  pub random_noun : ℕ
