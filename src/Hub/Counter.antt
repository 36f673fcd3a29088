-- ===== src/Hub/Counter.antt =====
-- The counters `safeUint32` of hub/safevals.go.
use websockethub.Base.{ℕ, ◌+◌, ◌-◌, ◌%◌, ◌<◌, ◌≡◌, arith}

-- 2^32
abbrev pub range : ℕ
range = 4294967296

-- `atomic.AddUint32`: the new value.
unfoldable pub add : ℕ → ℕ → ℕ
add i x = (i + x) % range

-- `^x`
abbrev complement : ℕ → ℕ
complement x = range - 1 - x

-- `x - 1` wraps around at 0.
unfoldable pub sub : ℕ → ℕ → ℕ
unfolding add
sub i x = add i (complement ((x + range - 1) % range))

unfoldable pub inc : ℕ → ℕ
unfolding add
inc i = add i 1

unfoldable pub dec : ℕ → ℕ
unfolding sub
dec i = sub i 1

-- `sub` adds a complement: that is the difference, modulo the range of the counter.
pub sub_lem : (i x : ℕ) → i < range → x < range → sub i x ≡ (i + range - x) % range
unfolding sub
sub_lem i x h k = omega arith

-- So it takes back what `add` has added, also across the end of the range.
pub sub-add : (i x : ℕ) → i < range → x < range → sub (add i x) x ≡ i
unfolding sub add
sub-add i x h k = omega arith
