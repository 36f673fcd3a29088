-- ===== src/Widget/Countdown.antt =====
-- The countdown of `/quit` (static/chatroomwidget.js): when it ends, and when it never does.
use websockethub.Base.{
  ℕ, zero, suc, ◌≡◌, refl, ◌∙◌, ap, inl, inr, true, false, Option, some, List, [], ◌∷◌, ◌++◌, arith,
  Bool-cases, length, get_elem?, ltb, ◌^◌,
}
use mathlib.Core.Path.{subst}
use websockethub.Base.Int.{ℤ, pos, negsuc}
use websockethub.Text.{Text}
use websockethub.Host.{Host}
use websockethub.Host.Numbers.{Num, int, minus_one, is_num}
use websockethub.Widget.State.{Widget, Countdown, close_widget}
use websockethub.Widget.Log.{log_to_user}
use websockethub.Widget.Quit.{
  quit_delay, tick, countdown_at, set_countdown, next_msg, close_option, seconds_value,
  quit_message,
}
use websockethub.Widget.Core.{SameCore, quit_delay-SameCore}

-- Rounds of the interval with the number `i`, and of no other.
unfoldable pub ticks : ℕ → Host → ℕ → Widget → Widget
ticks zero host i w = w
ticks (suc n) host i w = ticks n host i (tick host i w).1

-- Connected, with the handler that leaves the room.
pub record IsRunning (w : Widget) : Type 0 where
  pub ws : w.ws ≡ true
  pub onquit : w.onquit ≡ some (close_widget ∷ [])
  pub widget_node : w.widget_node ≡ true
  pub attached : w.attached ≡ true

-- The interval `i` of the widget has so many seconds left.
pub record Counts (i : ℕ) (left : Num) (w : Widget) : Type 0 where
  pub countdown : Countdown
  pub at : countdown_at i w ≡ some (some countdown)
  pub seconds : countdown.seconds ≡ left

pub get_elem?-set_countdown :
    (i : ℕ) (c : Option Countdown) (ds : List (Option Countdown)) {d : Option Countdown}
    → get_elem? ds i ≡ some d
    → get_elem? (set_countdown i c ds) i ≡ some c
unfolding set_countdown
get_elem?-set_countdown i c [] e = cc
get_elem?-set_countdown zero c (d ∷ ds) e = refl
get_elem?-set_countdown (suc i) c (d ∷ ds) e = get_elem?-set_countdown i c ds e

abbrev counted : Host → Countdown → Countdown
counted host c =
    let left = minus_one host.odd_minus_one c.seconds in
    record { seconds = left; msg = next_msg host left c.msg; el = c.el }

-- A round that does not reach 0.
tick-waits :
    (host : Host) (i : ℕ) (w : Widget) (left : Num)
    → Counts i left w
    → is_num 0 (minus_one host.odd_minus_one left) ≡ false
    → SameCore w (tick host i w).1 × Counts i (minus_one host.odd_minus_one left) (tick host i w).1
unfolding tick
tick-waits host i w left k n =
    let m : is_num 0 (minus_one host.odd_minus_one k.countdown.seconds) ≡ false =
      rw (k.seconds) n in
    (
      rw (k.at, tick) (rw (m, tick) (ground arith)),
      record {
        countdown = counted host k.countdown;
        at =
            rw (k.at, tick)
              (rw (m, tick)
                (get_elem?-set_countdown i (some (counted host k.countdown)) w.countdowns k.at));
        seconds = ap (minus_one host.odd_minus_one) k.seconds;
      },
    )

-- The round that reaches 0, in a widget that is connected.
tick-leaves :
    (host : Host) (i : ℕ) (w : Widget)
    → IsRunning w
    → Counts i (int (pos 1)) w
    → ((tick host i w).1.attached ≡ false) × ((tick host i w).1.socket ≡ close_option w.socket)
unfolding tick
tick-leaves host i w r k =
    let z : is_num 0 (minus_one host.odd_minus_one k.countdown.seconds) ≡ true =
      rw (k.seconds) refl in
    (rw (k.at, tick) (rw (z, tick) (ground arith)), rw (k.at, tick) (rw (z, tick) (ground arith)))

IsRunning-SameCore : (w v : Widget) → SameCore w v → IsRunning w → IsRunning v
IsRunning-SameCore w v s r = record {
  ws = cc (s.ws, r.ws);
  onquit = cc (s.onquit, r.onquit);
  widget_node = cc (s.widget_node, r.widget_node);
  attached = cc (s.attached, r.attached);
}

-- The widget is still connected, with the same socket, or it has left and closed that socket.
abbrev pub Stays : Widget → Widget → Type 0
Stays w v = (v.attached ≡ true) × (v.socket ≡ w.socket)

abbrev pub Leaves : Widget → Widget → Type 0
Leaves w v = (v.attached ≡ false) × (v.socket ≡ close_option w.socket)

ticks-Leaves :
    (n : ℕ) (host : Host) (i : ℕ) (w : Widget)
    → IsRunning w
    → Counts i (int (pos (suc n))) w
    → Stays w (ticks n host i w) × Leaves w (ticks (suc n) host i w)
unfolding ticks
ticks-Leaves zero host i w r k = ((r.attached, refl), tick-leaves host i w r k)
ticks-Leaves (suc n) host i w r k =
    let (s, k') = tick-waits host i w (int (pos (suc (suc n)))) k (ground arith) in
    let (stay, leave) =
      ticks-Leaves n host i (tick host i w).1 (IsRunning-SameCore w (tick host i w).1 s r) k' in
    ((stay.0, stay.1 ∙ s.socket), (leave.0, leave.1 ∙ ap close_option s.socket))

-- A number from which no row of steps by one comes to 0.
abbrev pub NeverZero : ℤ → Type 0
NeverZero (pos zero) = Unit
NeverZero (pos (suc n)) = ⊥
NeverZero (negsuc n) = Unit

NeverZero-minus_one :
    (host : Host) (z : ℤ)
    → NeverZero z
    → (y : ℤ) × (minus_one host.odd_minus_one (int z) ≡ int y)
      × NeverZero y
      × (is_num 0 (minus_one host.odd_minus_one (int z)) ≡ false)
NeverZero-minus_one host (pos zero) h = (negsuc 0, refl, tt, refl)
NeverZero-minus_one host (pos (suc n)) h = absurd h
NeverZero-minus_one host (negsuc n) h = elim (Bool-cases (ltb (suc n) (2 ^ 53))) [
  | inl a ↦ (negsuc (suc n), rw a refl, tt, rw a refl)
  | inr b ↦ (negsuc n, rw b refl, tt, rw b refl)
]

ticks-Stays :
    (n : ℕ) (host : Host) (i : ℕ) (w : Widget) (z : ℤ)
    → IsRunning w
    → NeverZero z
    → Counts i (int z) w
    → Stays w (ticks n host i w)
unfolding ticks
ticks-Stays zero host i w z r h k = (r.attached, refl)
ticks-Stays (suc n) host i w z r h k =
    let (y, e, h', m) = NeverZero-minus_one host z h in
    let (s, k') = tick-waits host i w (int z) k m in
    let (a, b) =
      ticks-Stays n host i (tick host i w).1 y (IsRunning-SameCore w (tick host i w).1 s r) h'
        (subst (λ t. Counts i t (tick host i w).1) e k') in
    (a, b ∙ s.socket)

pub get_elem?-append_length :
    (ds : List (Option Countdown)) (d : Option Countdown)
    → get_elem? (ds ++ d ∷ []) (length ds) ≡ some d
get_elem?-append_length [] d = refl
get_elem?-append_length (e ∷ ds) d = get_elem?-append_length ds d

-- What `/quit` leaves: the same widget but for its log, and a new interval.
quit_delay-Counts :
    (host : Host) (seconds : Option Text) (w : Widget)
    → w.attached ≡ true
    → Counts (length w.countdowns) (seconds_value host seconds) (quit_delay host seconds w).1
unfolding quit_delay log_to_user
quit_delay-Counts host seconds w a =
    let c : Countdown = record {
      seconds = seconds_value host seconds;
      msg = quit_message host seconds;
      el = length w.entries;
    } in
    record {
      countdown = c;
      at = rw (a, quit_delay) (get_elem?-append_length w.countdowns (some c));
      seconds = refl;
    }

-- The widget after `/quit` and so many rounds of the interval that it starts.
abbrev pub quit_after : ℕ → Host → Option Text → Widget → Widget
quit_after n host seconds w = ticks n host (length w.countdowns) (quit_delay host seconds w).1

-- In a connected widget, `/quit` with a number of seconds that is a whole number from 1 on keeps
-- the widget in the page, with the socket as it is, until the interval has fired one time less
-- than that number; when it fires once more, the socket is closed and the widget is taken away.
pub quit_delay-Leaves :
    (host : Host) (seconds : Option Text) (w : Widget) (n : ℕ)
    → IsRunning w
    → seconds_value host seconds ≡ int (pos (suc n))
    → Stays w (quit_after n host seconds w) × Leaves w (quit_after (suc n) host seconds w)
quit_delay-Leaves host seconds w n r e =
    let v = (quit_delay host seconds w).1 in
    let same = quit_delay-SameCore host seconds w in
    let counts =
      subst (λ t. Counts (length w.countdowns) t v) e
        (quit_delay-Counts host seconds w r.attached) in
    let (stay, leave) =
      ticks-Leaves n host (length w.countdowns) v (IsRunning-SameCore w v same r) counts in
    ((stay.0, stay.1 ∙ same.socket), (leave.0, leave.1 ∙ ap close_option same.socket))

-- In a connected widget, `/quit` with a number of seconds that is a whole number but not above 0
-- never leaves: however often the interval fires, the widget stays, with its socket open.
pub quit_delay-Stays :
    (host : Host) (seconds : Option Text) (w : Widget) (z : ℤ) (n : ℕ)
    → IsRunning w
    → NeverZero z
    → seconds_value host seconds ≡ int z
    → Stays w (quit_after n host seconds w)
quit_delay-Stays host seconds w z n r h e =
    let v = (quit_delay host seconds w).1 in
    let same = quit_delay-SameCore host seconds w in
    let counts =
      subst (λ t. Counts (length w.countdowns) t v) e
        (quit_delay-Counts host seconds w r.attached) in
    let (a, b) =
      ticks-Stays n host (length w.countdowns) v z (IsRunning-SameCore w v same r) h counts in
    (a, b ∙ same.socket)
