-- ===== src/Widget/Forms.antt =====
-- The listeners of the two forms and of the minifier, which `createConfigScreen` and
-- `createWidget` of static/chatroomwidget.js set, on a page without jQuery.
use websockethub.Base.{true, false, Option, none, some, [], if◌then◌else◌}
use websockethub.Host.{Host}
use websockethub.Widget.State.{
  Widget, Input, name_input, mesg_input, Level, Do, change, attempt, Thrown, native, ok, thrown,
  mini, config_mode, init_config, has_class, add_class, remove_class, ◌>>◌,
}
use websockethub.Widget.Log.{show_log, thrown_text, to_bottom}
use websockethub.Widget.Commands.{set_name, handle_message_input}

-- The form for the nickname. Its listener finds the other input in the document.
unfoldable pub submit_name : Host → Do
unfolding set_name
submit_name host w =
    (set_name host w.name_value
        >> (change (λ v. record v {
          classes = remove_class init_config (remove_class config_mode v.classes);
          name_marked = false;
        })
            >> mark_message_input))
      w
  where
    mark_message_input : Do
    mark_message_input v =
        if v.attached
        then (ok tt, record v { mesg_marked = true; focus = some mesg_input })
        else (thrown native, v)

abbrev clear_input : Do
clear_input = change λ w. record w { mesg_value = [] }

abbrev log_error : Host → Thrown → Do
log_error host e = show_log host (thrown_text host e) Level.error

-- The form for a message: the input is emptied unless there was an error, which is shown.
unfoldable pub submit_message : Host → Do
unfolding handle_message_input
submit_message host w =
    attempt (handle_message_input host w.mesg_value >> clear_input) (log_error host) w

unfoldable pub to_mini : Do
to_mini = change λ w. record w { classes = add_class mini w.classes }

-- The list of messages is looked up in the document, so outside of it the scroll fails.
unfoldable pub to_maxi : Host → Do
to_maxi host = change (λ w. record w { classes = remove_class mini w.classes }) >> λ w.
    if w.attached then (ok tt, to_bottom host w) else (thrown native, w)

-- `$('input.focusMeOnMaximize', node).focus()`: the first marked input.
abbrev pub marked_input : Widget → Option Input
marked_input w =
    if w.name_marked then some name_input else if w.mesg_marked then some mesg_input else none

unfoldable pub focus_marked : Do
focus_marked w = elim (marked_input w) [
  | none ↦ (thrown native, w)
  | some i ↦ (ok tt, record w { focus = some i })
]

unfoldable pub click_minifier : Host → Do
unfolding to_mini to_maxi focus_marked
click_minifier host w =
    if has_class mini w.classes then (to_maxi host >> focus_marked) w else to_mini w
