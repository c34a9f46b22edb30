-- ===== src/Base/Words.antt =====
-- Go's fixed-width and signed numbers, and the times and durations made of them.
use Prim.Native.Nat.{ℕ, ◌+◌, ◌-◌, ◌*◌, ◌%◌, ◌^◌, min}
use mathlib.Core.Bool.{Bool, true, ◌&&◌}
use mathlib.Core.List.{◌∷◌}
use git_change_operator.Base.Tests.{leb, ltb, if◌then◌else◌}
use git_change_operator.Base.Texts.{Text, decimal}

-- An `int64` is its bit pattern, below 2 ^ 64.
abbrev pub int64_mod : ℕ
int64_mod = 2 ^ 64

abbrev pub int64_limit : ℕ
int64_limit = 2 ^ 63

unfoldable pub increment : ℕ → ℕ
increment n = (n + 1) % int64_mod

-- `n >= k` at a constant `k` that is not negative.
unfoldable pub at_least : ℕ → ℕ → Bool
at_least n k = ltb n int64_limit && leb k n

-- `%d` at an `int64`.
unfoldable pub signed_decimal : ℕ → Text
signed_decimal n = if ltb n int64_limit then decimal n else b'-' ∷ decimal (int64_mod - n)

-- The product of two `int64` values.
unfoldable pub multiply : ℕ → ℕ → ℕ
multiply a b = (a * b) % int64_mod

-- `negsuc n` is -(n + 1).
pub data ℤ : Type 0 where
  pos : ℕ → ℤ
  negsuc : ℕ → ℤ

-- A `time.Time` counts nanoseconds from the zero time.
abbrev pub Time : Type 0
Time = ℕ

abbrev pub second : ℕ
second = 1000000000

abbrev pub minute : ℕ
minute = 60000000000

-- `t.Add(d)`, where `d` is the pattern of an `int64`. The sums that the code makes stay above the
-- zero time or count as it.
unfoldable pub add_duration : Time → ℕ → Time
add_duration t d = if ltb d int64_limit then t + d else t - (int64_mod - d)

-- `t.Sub(now)`, which keeps to the range of an `int64`.
unfoldable pub time_until : Time → Time → ℤ
time_until t now =
    if leb now t
    then pos (min (t - now) (int64_limit - 1))
    else negsuc (min (now - t - 1) (int64_limit - 1))

-- `d < time.Minute`
abbrev pub below_minute : ℤ → Bool
below_minute (pos n) = ltb n minute
below_minute (negsuc n) = true
