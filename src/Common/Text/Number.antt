-- ===== src/Common/Text/Number.antt =====
-- `strconv.Atoi`, for an int of 64 bits: integers from decimal. `none` is an error, of the syntax or of
-- the range.
pub mod RoundTrip
use Prim.Native.Char.{Char, code}
use Prim.Native.String.{String, [], ◌∷◌}
use Prim.Native.Nat.{ℕ, ◌+◌, ◌-◌, ◌*◌, ◌^◌, suc}
use mathlib.Core.Bool.{Bool, ◌&&◌}
use mathlib.Core.Option.{Option, none, some}
use portkeeper.Common.Tests.{leb, ltb, ◌==◌, nat_equal, if◌then◌else◌}
use portkeeper.Common.Int.{ℤ, pos, negsuc, sub_ℕ}

abbrev pub is_digit : Char → Bool
is_digit c = leb b'0' (code c) && leb (code c) b'9'

-- The digits after those that are worth `n`.
unfoldable pub digits_from : ℕ → String → Option ℕ
digits_from n [] = some n
digits_from n (c ∷ s) =
    let rest = digits_from (n * 10 + (code c - b'0')) s in if is_digit c then rest else none

unfoldable pub parse_ℕ : String → Option ℕ
unfolding digits_from
parse_ℕ [] = none
parse_ℕ (c ∷ s) = digits_from 0 (c ∷ s)

-- 2 ^ 63
abbrev pub int_limit : ℕ
int_limit = 9_223_372_036_854_775_808

positive : Option ℕ → Option ℤ
positive none = none
positive (some n) = if ltb n int_limit then some (pos n) else none

negative : Option ℕ → Option ℤ
negative none = none
negative (some n) = if leb n int_limit then some (sub_ℕ 0 n) else none

unfoldable pub atoi : String → Option ℤ
unfolding parse_ℕ positive negative
atoi [] = none
atoi (c ∷ s) =
    if code c == b'-'
    then negative (parse_ℕ s)
    else if code c == b'+'
    then positive (parse_ℕ s)
    else positive (parse_ℕ (c ∷ s))
