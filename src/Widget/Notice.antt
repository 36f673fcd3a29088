-- ===== src/Widget/Notice.antt =====
-- What the countdown of `/quit` (static/chatroomwidget.js) shows.
use websockethub.Base.{
  ℕ, zero, suc, ◌+◌, ◌≡◌, refl, ◌∙◌, ap, Bool, true, false, Option, none, some, List, [], ◌∷◌, ◌++◌,
  arith, length, ◌==◌, if◌then◌else◌, all,
}
use mathlib.Core.Path.{subst}
use websockethub.Base.Int.{pos}
use websockethub.Text.{Text, text, decimal, replace_first, replace_digits, is_digit, starts_with}
use websockethub.Text.Digits.{
  IsNumeral, replace_digits-numeral, replace_first-numeral, decimal-IsNumeral,
}
use websockethub.Host.{Host}
use websockethub.Host.Numbers.{int, int_text, is_plain, is_num}
use websockethub.Links.{escape_html}
use websockethub.Widget.State.{Widget, Countdown, Entry, log, info}
use websockethub.Widget.Log.{log_to_user, update_entry}
use websockethub.Widget.Quit.{
  quit_delay, tick, countdown_at, next_msg, seconds_value, seconds_text, quit_message,
}
use websockethub.Widget.Countdown.{
  ticks, quit_after, get_elem?-set_countdown, get_elem?-append_length,
}

-- The sentence with a number in it, written as such a text, of one second or of more.
abbrev pub sentence : Text → Bool → Text
sentence number one =
    text "Closing groupchat in "
    ++ (number ++ (text " second" ++ ((if one then [] else text "s") ++ text ".")))

abbrev pub closing_in : ℕ → Text
closing_in n = sentence (decimal n) (n == 1)

sentence-digits :
    (r s : Text) (one : Bool) → IsNumeral s → replace_digits r (sentence s one) ≡ sentence r one
unfolding replace_digits
sentence-digits r s one h =
    ap (text "Closing groupchat in " ++◌)
      (replace_digits-numeral r s (text "second" ++ ((if one then [] else text "s") ++ text ".")) h)

IsNumeral-all : (s : Text) → IsNumeral s → all is_digit s ≡ true
IsNumeral-all [] h = refl
IsNumeral-all (c ∷ s) h = h

sentence-singular :
    (s : Text)
    → IsNumeral s
    → replace_first (text "seconds") (text "second") (sentence s false) ≡ sentence s true
unfolding replace_first starts_with
sentence-singular s h =
    ap (text "Closing groupchat in " ++◌)
      (replace_first-numeral (text "second") s (text " seconds.") (IsNumeral-all s h))

-- One more second, while more than one is left.
next_msg-sentence :
    (host : Host) (n : ℕ) (s : Text)
    → IsNumeral s
    → next_msg host (int (pos (suc n))) (sentence s false) ≡ closing_in (suc n)
unfolding int_text
next_msg-sentence host zero s h =
    ap (replace_digits (decimal 1)) (sentence-singular s h) ∙ sentence-digits (decimal 1) s true h
next_msg-sentence host (suc n) s h =
    let e : (suc (suc n) == 1) ≡ false = ground arith in
    rw e (sentence-digits (decimal (suc (suc n))) s false h)

-- The interval `i` has so many seconds left, and the last element of the list shows its sentence.
record Shows (i left : ℕ) (msg : Text) (es : List Entry) (w : Widget) : Type 0 where
  at :
      countdown_at i w
      ≡ some (some (record { seconds = int (pos left); msg = msg; el = length es }))
  entries : w.entries ≡ es ++ log info (escape_html msg) ∷ []

update_entry-last :
    (f : Text → Text) (es : List Entry) (html : Text)
    → update_entry f (length es) (es ++ log info html ∷ []) ≡ es ++ log info (f html) ∷ []
unfolding update_entry
update_entry-last f [] html = refl
update_entry-last f (e ∷ es) html = ap (e ∷◌) (update_entry-last f es html)

tick-Shows :
    (host : Host) (i l : ℕ) (msg : Text) (es : List Entry) (w : Widget)
    → Shows i (suc (suc l)) msg es w
    → Shows i (suc l) (next_msg host (int (pos (suc l))) msg) es (tick host i w).1
unfolding tick
tick-Shows host i l msg es w s =
    let next = next_msg host (int (pos (suc l))) msg in
    let more : is_num 0 (int (pos (suc l))) ≡ false = ground arith in
    record {
      at = rw (s.at, tick) (rw (more, tick) (get_elem?-set_countdown i _ w.countdowns s.at));
      entries =
          rw (s.at, tick)
            (rw (more, tick)
              (ap (update_entry (λ _. escape_html next) (length es)) s.entries
                ∙ update_entry-last (λ _. escape_html next) es (escape_html msg)));
    }

ticks-Shows :
    (host : Host) (i j m left : ℕ) (number : Text) (es : List Entry) (w : Widget)
    → IsNumeral number
    → left ≡ suc (j + suc m)
    → Shows i left (sentence number false) es w
    → (ticks (suc j) host i w).entries ≡ es ++ log info (escape_html (closing_in (suc m))) ∷ []
unfolding ticks
ticks-Shows host i zero m left number es w h e s =
    let now =
      tick-Shows host i m (sentence number false) es w
        (subst (λ l. Shows i l (sentence number false) es w) (omega (arith, e)) s) in
    now.entries ∙ ap (λ t. es ++ log info (escape_html t) ∷ []) (next_msg-sentence host m number h)
ticks-Shows host i (suc j) m left number es w h e s =
    let l = j + suc m in
    let many : (suc l == 1) ≡ false = ground arith in
    let now =
      tick-Shows host i l (sentence number false) es w
        (subst (λ n. Shows i n (sentence number false) es w) (omega (arith, e)) s) in
    let msg : next_msg host (int (pos (suc l))) (sentence number false)
        ≡ sentence (decimal (suc l)) false =
      next_msg-sentence host l number h ∙ ap (sentence (decimal (suc l))) many in
    ticks-Shows host i j m (suc l) (decimal (suc l)) es (tick host i w).1
      (decimal-IsNumeral (suc l)) refl (subst (λ t. Shows i (suc l) t es (tick host i w).1) msg now)

-- No number at all, or one of one to fifteen digits.
abbrev pub IsPlain : Option Text → Type 0
IsPlain none = Unit
IsPlain (some s) = is_plain s ≡ true

IsPlain-IsNumeral : (seconds : Option Text) → IsPlain seconds → IsNumeral (seconds_text seconds)
IsPlain-IsNumeral none h = refl
IsPlain-IsNumeral (some []) h = cc
IsPlain-IsNumeral (some (c ∷ s)) h = ground arith

quit_delay-Shows :
    (host : Host) (seconds : Option Text) (w : Widget) (left : ℕ)
    → w.attached ≡ true
    → seconds_value host seconds ≡ int (pos (suc (suc left)))
    → Shows
        (length w.countdowns)
        (suc (suc left))
        (sentence (seconds_text seconds) false)
        w.entries
        (quit_delay host seconds w).1
unfolding quit_delay log_to_user
quit_delay-Shows host seconds w left a e =
    let many : is_num 1 (seconds_value host seconds) ≡ false = rw e (ground arith) in
    let msg : quit_message host seconds ≡ sentence (seconds_text seconds) false =
      ap (sentence (seconds_text seconds)) many in
    let c : Countdown = record {
      seconds = seconds_value host seconds;
      msg = quit_message host seconds;
      el = length w.entries;
    } in
    record {
      at =
          rw (a, quit_delay) (get_elem?-append_length w.countdowns (some c))
          ∙ ap (λ (t : Text). some (some (record c { msg = t }))) msg
          ∙ ap
              (λ n.
                some (some (record c { seconds = n; msg = sentence (seconds_text seconds) false })))
              e;
      entries = rw (a, quit_delay) (ap (λ t. w.entries ++ log info (escape_html t) ∷ []) msg);
    }

-- `/quit` with a number of seconds in plain digits, or with none: after each of the following
-- seconds but the last one, if nothing else happens, the list of messages is as it was before, with
-- one more element that tells how many seconds are left, in the singular if it is one.
pub quit_delay-shows :
    (host : Host) (seconds : Option Text) (w : Widget) (passed left : ℕ)
    → w.attached ≡ true
    → IsPlain seconds
    → seconds_value host seconds ≡ int (pos (suc passed + suc left))
    → (quit_after (suc passed) host seconds w).entries
      ≡ w.entries ++ log info (escape_html (closing_in (suc left))) ∷ []
quit_delay-shows host seconds w passed left a p e =
    ticks-Shows host (length w.countdowns) passed left (suc (suc (passed + left)))
      (seconds_text seconds) w.entries (quit_delay host seconds w).1 (IsPlain-IsNumeral seconds p)
      (omega arith)
      (quit_delay-Shows host seconds w (passed + left) a (e ∙ ap (λ n. int (pos n)) (omega arith)))
