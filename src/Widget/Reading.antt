-- ===== src/Widget/Reading.antt =====
-- What a reader sees of the lines of a room (static/chatroomwidget.js), from the sender's form on.
pub mod Tests
use websockethub.Base.{
  Option, List, map, sym, append-nil, append_assoc, Bool-cases, inl, inr, if◌then◌else◌, ◌≡◌, refl,
  ◌∙◌, ap, true, false, none, some, [], ◌∷◌, ◌++◌, arith,
}
use websockethub.Text.{Text, text}
use websockethub.Host.{Host}
use websockethub.Links.{escape_html, urlify}
use websockethub.Message.{split_line, highlight, is_me, name_pattern}
use websockethub.Widget.State.{Widget, Socket, opened, Outcome, Entry, chat, thrown, native}
use websockethub.Widget.Incoming.{handle_incoming_message}
use websockethub.Widget.Main.{receives, line_at, step, run}
use websockethub.Widget.Core.{handle_incoming_message-SameCore}

-- While the user's nickname makes no valid expression, the handler of a line of anybody else ends in
-- an error.
handle_incoming-invalid_name :
    (host : Host) (w : Widget) (line : Text)
    → host.compile (name_pattern w.myname) ≡ none
    → is_me w.myname (split_line line).0 ≡ false
    → handle_incoming_message host line w ≡ (thrown native, w)
unfolding handle_incoming_message
handle_incoming-invalid_name host w line c m =
    let invalid : highlight host w.myname (split_line line).0 (split_line line).1 ≡ none =
      unfold highlight in rw (m, c) refl in
    ground arith

-- What a list of lines leaves in the list of messages if only the user's own ones are shown.
unfoldable pub own_entries : Option Text → List Text → List Entry
own_entries me [] = []
own_entries me (line ∷ lines) =
    let rest = own_entries me lines in
    let (name, message) = split_line line in
    if is_me me name
    then chat (name ++ text ":") (urlify (escape_html message)) false ∷ rest
    else rest

handle_incoming-own :
    (host : Host) (w : Widget) (line : Text)
    → w.attached ≡ true
    → is_me w.myname (split_line line).0 ≡ true
    → ((handle_incoming_message host line w).1.entries
        ≡ w.entries
          ++ chat ((split_line line).0 ++ text ":") (urlify (escape_html (split_line line).1)) false
            ∷ [])
      × ((handle_incoming_message host line w).1.myname ≡ w.myname)
unfolding handle_incoming_message
handle_incoming-own host w line a m =
    let own : highlight host w.myname (split_line line).0 (split_line line).1 ≡ some false =
      unfold highlight in rw m refl in
    (ground arith, ground arith)

-- The widget stands in the page, and its socket is open.
pub record IsReading (w : Widget) : Type 0 where
  pub attached : w.attached ≡ true
  pub open_socket : (s : Socket) × (w.socket ≡ some s) × (s.ready ≡ opened)

step-receives :
    (host : Host) (w : Widget) (line : Text)
    → IsReading w
    → step host w (receives line) ≡ (handle_incoming_message host line w).1
unfolding step
step-receives host w line r =
    let (s, e, o) = r.open_socket in
    ap (λ t. (line_at t (handle_incoming_message host line) w).1) e ∙ rw o refl

IsReading-incoming :
    (host : Host) (w : Widget) (line : Text)
    → IsReading w
    → IsReading (handle_incoming_message host line w).1
IsReading-incoming host w line r =
    let c = handle_incoming_message-SameCore host line w in
    let (s, e, o) = r.open_socket in
    record { attached = c.attached ∙ r.attached; open_socket = (s, c.socket ∙ e, o) }

-- One line, and what the others leave.
incoming-own_entries :
    (host : Host) (w : Widget) (line : Text) (lines : List Text)
    → w.attached ≡ true
    → host.compile (name_pattern w.myname) ≡ none
    → ((handle_incoming_message host line w).1.myname ≡ w.myname)
      × ((handle_incoming_message host line w).1.entries ++ own_entries w.myname lines
          ≡ w.entries ++ own_entries w.myname (line ∷ lines))
unfolding own_entries
incoming-own_entries host w line lines a c =
    let rest = own_entries w.myname lines in
    elim (Bool-cases (is_me w.myname (split_line line).0)) [
      | inl own ↦
          let (e, n) = handle_incoming-own host w line a own in
          (n, rw own (ap (λ es. es ++ rest) e ∙ append_assoc w.entries _ rest))
      | inr other ↦
          let e =
            ap (λ (r : Outcome (Unit {0}) × Widget). r.1)
              (handle_incoming-invalid_name host w line c other) in
          (ap (λ (v : Widget). v.myname) e, rw other (ap (λ (v : Widget). v.entries ++ rest) e))
    ]

-- A nickname that makes no valid expression loses messages: while the user has it, and the widget
-- stands in the page with its socket open, of all the lines that come from the room one after the
-- other exactly the user's own ones are put into the list of messages, in their order.
pub run-receives :
    (host : Host) (lines : List Text) (w : Widget)
    → IsReading w
    → host.compile (name_pattern w.myname) ≡ none
    → (run host w (map receives lines)).entries ≡ w.entries ++ own_entries w.myname lines
run-receives host [] w r c = unfold own_entries in sym (append-nil w.entries)
run-receives host (line ∷ lines) w r c =
    let v = (handle_incoming_message host line w).1 in
    let (n, e) = incoming-own_entries host w line lines r.attached c in
    ap (λ u. (run host u (map receives lines)).entries) (step-receives host w line r)
    ∙ (run-receives host lines v (IsReading-incoming host w line r)
          (ap (λ m. host.compile (name_pattern m)) n ∙ c)
        ∙ (ap (λ m. v.entries ++ own_entries m lines) n ∙ e))
