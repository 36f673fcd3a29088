-- ===== src/Widget/Quit.antt =====
-- Leaving the room: `quitDelay`, one round of its interval, and `quitImmediately` of
-- static/chatroomwidget.js.
use websockethub.Base.{
  ℕ, zero, suc, false, Option, none, some, List, [], ◌∷◌, ◌++◌, get_elem?, if◌then◌else◌,
}
use websockethub.Base.Int.{pos}
use websockethub.Text.{Text, text, replace_first, replace_digits}
use websockethub.Host.{Host}
use websockethub.Host.Numbers.{Num, int, minus_one, is_num, num_text, to_number}
use websockethub.Links.{escape_html}
use websockethub.Widget.State.{
  Widget, Countdown, QuitHandler, close_widget, Socket, closing, gone, info, Do, done, change,
  native, ok, thrown, ◌>>=◌, ◌>>◌,
}
use websockethub.Widget.Log.{log_to_user, set_entry}

-- `ws.close()`
abbrev pub close_socket : Socket → Socket
close_socket s = record s { ready = elim s.ready [ gone ↦ gone | _ ↦ closing ] }

abbrev pub close_option : Option Socket → Option Socket
close_option none = none
close_option (some s) = some (close_socket s)

-- `ws.close(); ws = undefined;`
unfoldable pub close_ws : Do
close_ws w =
    if w.ws
    then (ok tt, record w { ws = false; socket = close_option w.socket })
    else (thrown native, w)

-- `widgetNode.remove(); widgetNode = undefined;`
unfoldable pub remove_node : Do
remove_node w =
    if w.widget_node
    then (ok tt, record w { widget_node = false; attached = false })
    else (thrown native, w)

unfoldable pub run_handlers : List QuitHandler → Do
unfolding close_ws remove_node
run_handlers [] = done
run_handlers (close_widget ∷ hs) = close_ws >> (remove_node >> run_handlers hs)

unfoldable pub quit_immediately : Do
unfolding run_handlers
quit_immediately w = elim w.onquit [
  | none ↦ (thrown native, w)
  | some hs ↦ (run_handlers hs >> change (λ v. record v { onquit = none })) w
]

-- The argument of `/quit` as it stands in the text, and the number that it is for `seconds`.
abbrev pub seconds_text : Option Text → Text
seconds_text none = text "3"
seconds_text (some s) = s

abbrev pub seconds_value : Host → Option Text → Num
seconds_value host none = int (pos 3)
seconds_value host (some s) = to_number host.odd_number s

abbrev pub quit_message : Host → Option Text → Text
quit_message host seconds =
    text "Closing groupchat in "
    ++ (seconds_text seconds
        ++ (text " second"
            ++ ((if is_num 1 (seconds_value host seconds) then [] else text "s") ++ text ".")))

unfoldable pub quit_delay : Host → Option Text → Do
unfolding log_to_user to_number
quit_delay host seconds =
    let msg = quit_message host seconds in
    log_to_user host msg info >>= λ el. change λ w. record w {
      countdowns =
          w.countdowns
          ++ some (record { seconds = seconds_value host seconds; msg = msg; el = el }) ∷ [];
    }

unfoldable pub set_countdown :
    ℕ → Option Countdown → List (Option Countdown) → List (Option Countdown)
set_countdown i c [] = []
set_countdown zero c (d ∷ ds) = c ∷ ds
set_countdown (suc i) c (d ∷ ds) = d ∷ set_countdown i c ds

abbrev pub countdown_at : ℕ → Widget → Option (Option Countdown)
countdown_at i w = get_elem? w.countdowns i

-- `msg` after one more second.
abbrev pub next_msg : Host → Num → Text → Text
next_msg host left msg =
    replace_digits (num_text host.odd_text left)
      (if is_num 1 left then replace_first (text "seconds") (text "second") msg else msg)

count_down : Host → ℕ → Countdown → Do
unfolding quit_immediately set_countdown
count_down host i c =
    let left = minus_one host.odd_minus_one c.seconds in
    let msg = next_msg host left c.msg in
    let stop = change (λ w. record w { countdowns = set_countdown i none w.countdowns }) in
    let go_on = change (λ w. record w {
      countdowns =
          set_countdown i (some (record { seconds = left; msg = msg; el = c.el })) w.countdowns;
    }) in
    if is_num 0 left
    then stop >> quit_immediately
    else go_on >> set_entry (λ _. escape_html msg) c.el

fire : Host → ℕ → Option (Option Countdown) → Do
unfolding count_down
fire host i (some (some c)) = count_down host i c
fire host i _ = done

-- One round of the interval with the number `i`; nothing if it is cleared or was never started.
unfoldable pub tick : Host → ℕ → Do
unfolding fire
tick host i w = fire host i (countdown_at i w) w
