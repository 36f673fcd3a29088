-- ===== src/Title/Laws.antt =====
-- The title while messages arrive, seconds pass and the page is shown and hidden.
use websockethub.Base.{
  ℕ, zero, suc, ◌%◌, ◌==◌, ◌≡◌, ◌∙◌, refl, sym, ap, ◌<◌, ◌⊎◌, none, some, List, [], ◌∷◌, ◌++◌,
  arith, All, if◌then◌else◌,
}
use mathlib.Core.List.{foldl}
use websockethub.Text.{Text, text}
use websockethub.Title.Alternating.{Interval, start}
use websockethub.Title.{
  Show, announce, restore, Title, load, announce_message, tick, become_visible,
}

pub data Event : Type 0 where
  message second visible : Event

-- One event; messages count here only while the page is hidden.
pub step : Title → Event → Title
step t message = announce_message t
step t second = tick t
step t visible = become_visible t

abbrev pub run : Title → List Event → Title
run = foldl step

abbrev alternating : ℕ → Interval Show
alternating i = record { funcs = announce ∷ restore ∷ []; i = i }

-- The page's own title is on show, or it is kept while the two titles take turns.
pub data Keeps (page : Text) (t : Title) : Type 0 where
  quiet : t.interval ≡ none → t.shown ≡ page → Keeps page t
  blinks :
      (i : ℕ)
      → i < 2
      → t.interval ≡ some (alternating i)
      → t.old ≡ page
      → (t.shown ≡ page) ⊎ (t.shown ≡ text "new messages - " ++ page)
      → Keeps page t

announce_message-Keeps : {page : Text} (t : Title) → Keeps page t → Keeps page (announce_message t)
unfolding announce_message start
announce_message-Keeps t (quiet e s) =
    blinks 0 (omega arith) (ground arith) (ground arith) (ground arith)
announce_message-Keeps t (blinks i lt e o s) =
    blinks i lt (ground arith) (ground arith) (ground arith)

become_visible-Keeps : {page : Text} (t : Title) → Keeps page t → Keeps page (become_visible t)
unfolding become_visible
become_visible-Keeps t (quiet e s) = quiet (ground arith) (ground arith)
become_visible-Keeps t (blinks i lt e o s) = quiet (ground arith) (ground arith)

tick-Keeps : {page : Text} (t : Title) → Keeps page t → Keeps page (tick t)
unfolding tick
tick-Keeps t (quiet e s) = quiet (ground arith) (ground arith)
tick-Keeps t (blinks zero lt e o s) =
    blinks 1 (omega arith) (ground arith) (ground arith) (ground arith)
tick-Keeps t (blinks (suc zero) lt e o s) =
    blinks 0 (omega arith) (ground arith) (ground arith) (ground arith)
tick-Keeps t (blinks (suc (suc i)) lt e o s) = absurd (omega arith)

pub step-Keeps : {page : Text} (t : Title) (e : Event) → Keeps page t → Keeps page (step t e)
unfolding step
step-Keeps t message k = announce_message-Keeps t k
step-Keeps t second k = tick-Keeps t k
step-Keeps t visible k = become_visible-Keeps t k

pub run-Keeps : {page : Text} (es : List Event) (t : Title) → Keeps page t → Keeps page (run t es)
run-Keeps [] t k = k
run-Keeps (e ∷ es) t k = run-Keeps es (step t e) (step-Keeps t e k)

-- However messages, seconds and visits of the page follow one another, when the page becomes
-- visible it shows the title that it was loaded with, and no interval is left running.
pub become_visible-run :
    (page : Text) (es : List Event)
    → ((become_visible (run (load page) es)).shown ≡ page)
      × ((become_visible (run (load page) es)).interval ≡ none)
unfolding become_visible load
become_visible-run page es = elim (run-Keeps es (load page) (quiet refl refl)) [
  | quiet e s ↦ (ground arith, ground arith)
  | blinks i lt e o s ↦ (ground arith, ground arith)
]

pub after_seconds : ℕ → Title → Title
after_seconds zero t = t
after_seconds (suc n) t = after_seconds n (tick t)

abbrev blinking : Text → Title
blinking page = record { shown = page; old = page; interval = some (alternating 0) }

announcing : Text → Title
announcing page = record {
  shown = text "new messages - " ++ page;
  old = page;
  interval = some (alternating 1);
}

after-parity :
    (page : Text) (n : ℕ)
    → (after_seconds n (blinking page)).shown
      ≡ (if n % 2 == 1 then text "new messages - " ++ page else page)
unfolding after_seconds tick
after-parity page zero = refl
after-parity page (suc zero) = refl
after-parity page (suc (suc n)) =
    let two : suc (suc n) % 2 ≡ n % 2 = omega arith in
    after-parity page n
    ∙ ap (λ k. if k == 1 then text "new messages - " ++ page else page) (sym two)

-- How many of the events are seconds.
unfoldable pub seconds : List Event → ℕ
seconds [] = 0
seconds (second ∷ es) = suc (seconds es)
seconds (e ∷ es) = seconds es

-- The page is not made visible.
abbrev pub IsHidden : Event → Type 0
IsHidden message = Unit
IsHidden second = Unit
IsHidden visible = ⊥

-- More messages change nothing of the turns.
run-after_seconds :
    (page : Text) (es : List Event)
    → All IsHidden es
    → (run (blinking page) es ≡ after_seconds (seconds es) (blinking page))
      × (run (announcing page) es ≡ after_seconds (seconds es) (announcing page))
unfolding step announce_message tick after_seconds seconds announcing
run-after_seconds page [] h = (refl, refl)
run-after_seconds page (message ∷ es) (h, hs) = run-after_seconds page es hs
run-after_seconds page (second ∷ es) (h, hs) = let (a, b) = run-after_seconds page es hs in (b, a)
run-after_seconds page (visible ∷ es) (h, hs) = absurd h

announce_message-quiet :
    (page : Text) (t : Title)
    → t.shown ≡ page
    → t.interval ≡ none
    → announce_message t ≡ blinking page
unfolding announce_message start
announce_message-quiet page t s e = ground arith

-- Whatever has happened before, once the page has been visible and is hidden again: from the first
-- message on, and however many more come while it stays hidden, the seconds announce them and
-- restore the title in turns. After an odd number of seconds since that message the announcement is
-- on show, after an even number the title that the page was loaded with.
pub shown-hidden :
    (page : Text) (past es : List Event)
    → All IsHidden es
    → (run (become_visible (run (load page) past)) (message ∷ es)).shown
      ≡ (if seconds es % 2 == 1 then text "new messages - " ++ page else page)
unfolding step
shown-hidden page past es h =
    let (s, e) = become_visible-run page past in
    ap (λ (t : Title). (run t es).shown)
      (announce_message-quiet page (become_visible (run (load page) past)) s e)
    ∙ (ap (λ (t : Title). t.shown) (run-after_seconds page es h).0 ∙ after-parity page (seconds es))
