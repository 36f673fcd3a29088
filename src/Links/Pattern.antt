-- ===== src/Links/Pattern.antt =====
-- The literal `htmlrex` of static/chatroomwidget.js, part by part. Its flag `i` is in the matcher,
-- so the classes list lower-case letters only.
use websockethub.Base.{ℕ, List, [], ◌∷◌, ◌++◌}
use websockethub.Text.{Text, text}
use websockethub.Regex.{Regex, one, empty, seq, alt, star, upto, boundary, finish}

abbrev letters : Text
letters = text "abcdefghijklmnopqrstuvwxyz"

abbrev numbers : Text
numbers = text "0123456789"

-- A literal text, a choice of such, `r?`, `r+` and `r{n}`.
abbrev pub word : Text → Regex
word [] = empty
word (c ∷ []) = one (c ∷ [])
word (c ∷ s) = seq (one (c ∷ [])) (word s)

abbrev pub option : Regex → Regex
option = upto 1

abbrev pub some_of : Regex → Regex
some_of r = seq r (star r)

-- `r{1,n + 1}`
abbrev up_to : ℕ → Regex → Regex
up_to n r = seq r (upto n r)

-- A top-level domain of two letters, from its first letter.
abbrev land : Text → Text → Regex
land c cs = seq (word c) (one cs)

abbrev escaped : Regex
escaped = seq (word (text "%")) (seq hex hex)
  where
    hex : Regex
    hex = one (text "abcdef" ++ numbers)

abbrev user_unit : Regex
user_unit = alt (one (letters ++ numbers ++ text "$-_.+!*'(),;?&=")) escaped

abbrev pub scheme : Regex
scheme =
    seq (alt (word (text "http")) (alt (word (text "https")) (word (text "rtsp"))))
      (word (text "://"))

-- `user:password@`
abbrev pub login : Regex
login =
    seq (up_to 63 user_unit)
      (seq (option (seq (word (text ":")) (up_to 24 user_unit))) (word (text "@")))

abbrev pub label : Regex
label =
    seq (one (letters ++ numbers))
      (seq (upto 64 (one (letters ++ numbers ++ text "-"))) (word (text ".")))

abbrev choice : List Regex → Regex → Regex
choice [] r = r
choice (s ∷ ss) r = alt s (choice ss r)

abbrev pub tld : Regex
tld =
    choice
      (word (text "aero")
        ∷ word (text "arpa")
        ∷ word (text "asia")
        ∷ land (text "a") (text "cdefgilmnoqrstuwxz")
        ∷ word (text "biz")
        ∷ land (text "b") (text "abdefghijmnorstvwyz")
        ∷ word (text "cat")
        ∷ word (text "com")
        ∷ word (text "coop")
        ∷ land (text "c") (text "acdfghiklmnoruvxyz")
        ∷ land (text "d") (text "ejkmoz")
        ∷ word (text "edu")
        ∷ land (text "e") (text "cegrstu")
        ∷ land (text "f") (text "ijkmor")
        ∷ word (text "gov")
        ∷ land (text "g") (text "abdefghilmnpqrstuwy")
        ∷ land (text "h") (text "kmnrtu")
        ∷ word (text "info")
        ∷ word (text "int")
        ∷ land (text "i") (text "delmnoqrst")
        ∷ word (text "jobs")
        ∷ land (text "j") (text "emop")
        ∷ land (text "k") (text "eghimnrwyz")
        ∷ land (text "l") (text "abcikrstuvy")
        ∷ word (text "mil")
        ∷ word (text "mobi")
        ∷ word (text "museum")
        ∷ land (text "m") (text "acdghklmnopqrstuvwxyz")
        ∷ word (text "name")
        ∷ word (text "net")
        ∷ land (text "n") (text "acefgilopruz")
        ∷ word (text "org")
        ∷ word (text "om")
        ∷ word (text "pro")
        ∷ land (text "p") (text "aefghklmnrstwy")
        ∷ word (text "qa")
        ∷ land (text "r") (text "eouw")
        ∷ land (text "s") (text "abcdeghijklmnortuvyz")
        ∷ word (text "tel")
        ∷ word (text "travel")
        ∷ land (text "t") (text "cdfghjklmnoprtvwz")
        ∷ land (text "u") (text "agkmsyz")
        ∷ land (text "v") (text "aceginu")
        ∷ land (text "w") (text "fs")
        ∷ land (text "y") (text "etu")
        ∷ [])
      (land (text "z") (text "amw"))

-- The first three alternatives of each part of an address.
abbrev octet : List Regex → Regex → Regex
octet rest last =
    choice
      (seq (word (text "25")) (one (text "012345"))
        ∷ seq (word (text "2")) (seq (one (text "01234")) (one numbers))
        ∷ seq (one (text "01")) (seq (one numbers) (one numbers))
        ∷ seq (one (text "123456789")) (one numbers)
        ∷ rest)
      last

abbrev pub dot : Regex
dot = word (text ".")

abbrev pub first_octet : Regex
first_octet = octet [] (one (text "123456789"))

abbrev octet_between : Regex
octet_between = octet (one (text "123456789") ∷ []) (word (text "0"))

abbrev last_octet : Regex
last_octet = octet [] (one numbers)

abbrev pub address : Regex
address =
    seq first_octet (seq dot (seq octet_between (seq dot (seq octet_between (seq dot last_octet)))))

abbrev pub host : Regex
host = alt (seq (some_of label) tld) address

abbrev port : Regex
port = seq (word (text ":")) (up_to 4 (one numbers))

abbrev path : Regex
path =
    seq (word (text "/"))
      (star (alt (one (letters ++ numbers ++ text ";/?:@&=#~-.+!*'(),_")) escaped))

unfoldable pub htmlrex : Regex
htmlrex =
    seq (option (seq scheme (option login)))
      (seq host (seq (option port) (seq (option path) (alt boundary finish))))
