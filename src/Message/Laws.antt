-- ===== src/Message/Laws.antt =====
-- From the sender to the reader of a line.
use websockethub.Base.{
  ℕ, suc, ◌≡◌, refl, ap, ◌∙◌, false, some, [], ◌∷◌, ◌++◌, length, drop, take-length_append, arith,
  append_assoc,
}
use websockethub.Text.{Text, text}
use websockethub.Text.Laws.{Lacks, index_of-append, text_eq_refl}
use websockethub.Host.{Host}
use websockethub.Message.{message_line, split_line, highlight}

drop_behind : (s t : Text) (c : ℕ) → drop (suc (length s)) (s ++ c ∷ t) ≡ t
drop_behind [] t c = refl
drop_behind (a ∷ s) t c = drop_behind s t c

split_line-colon :
    (head rest : Text) → Lacks b':' head → split_line (head ++ b':' ∷ rest) ≡ (head, rest)
unfolding split_line
split_line-colon head rest h =
    rw (index_of-append b':' head rest h, split_line)
      (ground (arith, take-length_append head (b':' ∷ rest), drop_behind head rest b':'))

-- A line gives back the nickname and the message, behind a space, if the nickname has no colon.
pub split_line-message_line :
    (name msg : Text)
    → Lacks b':' name
    → split_line (message_line (some name) msg) ≡ (name, text " " ++ msg)
unfolding message_line
split_line-message_line name msg h = split_line-colon name (text " " ++ msg) h

-- Of a nickname with a colon readers see only what stands before its first colon, as if that were
-- the sender's name; the rest of the nickname is read as the beginning of the message.
pub split_line-colon_name :
    (head tail msg : Text)
    → Lacks b':' head
    → split_line (message_line (some (head ++ b':' ∷ tail)) msg)
      ≡ (head, tail ++ (text ": " ++ msg))
unfolding message_line
split_line-colon_name head tail msg h =
    ap split_line (append_assoc head (b':' ∷ tail) (text ": " ++ msg))
    ∙ split_line-colon head (tail ++ (text ": " ++ msg)) h

-- Whoever has a nickname without a colon never sees an own message highlighted, and such a message
-- never runs into an error, whatever pattern the nickname makes.
highlight-own :
    (host : Host) (name msg : Text)
    → Lacks b':' name
    → highlight host
        (some name)
        (split_line (message_line (some name) msg)).0
        (split_line (message_line (some name) msg)).1
      ≡ some false
unfolding highlight
highlight-own host name msg h = rw (split_line-message_line name msg h, text_eq_refl name) refl
