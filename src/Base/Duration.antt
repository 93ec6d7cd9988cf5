-- ===== src/Base/Duration.antt =====
-- Go's time.Duration: an int64 of nanoseconds, and its String method.
use Prim.Native.Nat.{ℕ, zero, suc, ◌+◌, ◌/◌, ◌%◌}
use Prim.Native.String.{String, ◌++◌ as ◌<>◌}
use mathlib.Core.Path.{◌≡◌, refl}
use mathlib.Core.Bool.{Bool, false, not, ◌||◌}
use cassandra_operator.Base.Tests.{ltb, eqb, if◌then◌else◌}
use cassandra_operator.Base.Int.{ℤ, pos, negsuc}
use cassandra_operator.Base.Text.{show_ℕ}

abbrev pub second : ℤ
second = pos 1_000_000_000

abbrev pub hour : ℤ
hour = pos 3_600_000_000_000

-- fmtFrac: the last `digits` digits of v without trailing zeros, behind a point if any is left, put in
-- front of acc; and what stands before them.
fraction : ℕ → ℕ → Bool → String → String × ℕ
fraction zero v print acc = ((if print then "." <> acc else acc), v)
fraction (suc digits) v print acc =
    let print' = print || not (eqb (v % 10) 0) in
    fraction digits (v / 10) print' (if print' then show_ℕ (v % 10) <> acc else acc)

minutes_and_hours : ℕ → String → String
minutes_and_hours minutes rest =
    if eqb minutes 0
    then rest
    else (let text = show_ℕ (minutes % 60) <> ("m" <> rest) in
        if eqb (minutes / 60) 0 then text else show_ℕ (minutes / 60) <> ("h" <> text))

below_second : ℕ → String
below_second u =
    if eqb u 0
    then "0s"
    else if ltb u 1_000
    then show_ℕ u <> "ns"
    else if ltb u 1_000_000
    then (let (frac, n) = fraction 3 u false "µs" in show_ℕ n <> frac)
    else (let (frac, n) = fraction 6 u false "ms" in show_ℕ n <> frac)

magnitude : ℕ → String
magnitude u =
    if ltb u 1_000_000_000
    then below_second u
    else (let (frac, seconds) = fraction 9 u false "s" in
        minutes_and_hours (seconds / 60) (show_ℕ (seconds % 60) <> frac))

unfoldable pub duration_string : ℤ → String
unfolding magnitude below_second minutes_and_hours fraction show_ℕ
duration_string (pos n) = magnitude n
duration_string (negsuc n) = "-" <> magnitude (n + 1)

week : duration_string (pos 604_800_000_000_000) ≡ "168h0m0s"
unfolding duration_string
week = refl

odd_length : duration_string (negsuc 62_050_000_000) ≡ "-1m2.050000001s"
unfolding duration_string
odd_length = refl
