-- ===== src/Common/Text/Decimal.antt =====
-- `%d` and `strconv.Itoa`: integers in decimal.
use Prim.Native.Char.{Char}
use Prim.Native.String.{String, [], ◌∷◌}
use Prim.Native.Nat.{ℕ, zero, suc, ◌/◌, ◌%◌}
use portkeeper.Common.Tests.{ltb, ◌==◌, nat_equal, if◌then◌else◌}
use portkeeper.Common.Int.{ℤ, pos, negsuc}

unfoldable pub digit : ℕ → Char
digit d =
    if d == 0
    then "0"
    else if d == 1
    then "1"
    else if d == 2
    then "2"
    else if d == 3
    then "3"
    else if d == 4
    then "4"
    else if d == 5
    then "5"
    else if d == 6
    then "6"
    else if d == 7
    then "7"
    else if d == 8
    then "8"
    else "9"

-- The digits in front of those already written. A number has at most as many digits as it counts,
-- and one for zero, so that `suc n` rounds are enough for `n`.
unfoldable pub digits : ℕ → ℕ → String → String
unfolding digit
digits zero n written = written
digits (suc fuel) n written =
    let all = digit (n % 10) ∷ written in
    let rest = digits fuel (n / 10) (digit (n % 10) ∷ written) in if ltb n 10 then all else rest

unfoldable pub show_ℕ : ℕ → String
unfolding digits
show_ℕ n = digits (suc n) n []

unfoldable pub show_ℤ : ℤ → String
unfolding show_ℕ
show_ℤ (pos n) = show_ℕ n
show_ℤ (negsuc n) = "-" ∷ show_ℕ (suc n)
