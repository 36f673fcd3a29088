-- ===== src/Title.antt =====
-- The page's title in static/chatroomwidget.js: `callAlternating`, and what `handleIncomingMessage`
-- and the listener of `visibilitychange` do with `oldTitle` and `titleInterval`.
pub mod Alternating
pub mod Laws
use websockethub.Base.{◌+◌, Option, none, some, [], ◌∷◌, ◌++◌}
use websockethub.Text.{Text, text}
use Alternating.{Interval, start, fire}

-- The two functions that the interval runs.
pub data Show : Type 0 where
  announce restore : Show

pub record Title : Type 0 where
  -- `document.title`
  pub shown : Text
  -- `oldTitle`
  pub old : Text
  -- `titleInterval`, with the state of the interval's closure
  pub interval : Option (Interval Show)

-- At load time.
unfoldable pub load : Text → Title
load page = record { shown = page; old = page; interval = none }

show : Show → Title → Title
show announce t = record t { shown = text "new messages - " ++ t.old }
show restore t = record t { shown = t.old }

-- An incoming message while the page is hidden.
unfoldable pub announce_message : Title → Title
unfolding start
announce_message t = elim t.interval [
  | none ↦ record t { old = t.shown; interval = start (announce ∷ restore ∷ []) }
  | some running ↦ t
]

tick_with : Option (Show × Interval Show) → Title → Title
unfolding show
tick_with none t = t
tick_with (some (f, next)) t = show f (record t { interval = some next })

-- One second later.
unfoldable pub tick : Title → Title
unfolding tick_with fire
tick t = elim t.interval [ none ↦ t | some running ↦ tick_with (fire running) t ]

-- The page has become visible.
unfoldable pub become_visible : Title → Title
become_visible t = elim t.interval [
  | none ↦ t
  | some running ↦ record t { interval = none; shown = t.old }
]
