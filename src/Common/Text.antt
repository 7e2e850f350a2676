-- ===== src/Common/Text.antt =====
-- The operations of Go's `strings` package that the program calls, over native strings. The
-- separators of the program are ASCII, so walking characters and walking bytes give the same pieces.
pub mod Split
pub mod Trim
pub mod Decimal
pub mod Number
pub mod Fields
use Prim.Native.Char.{Char, code}
use Prim.Native.String
use Prim.Native.String.{String, [], ◌∷◌}
use mathlib.Core.Bool.{Bool, true, false, ◌&&◌, ◌||◌}
use mathlib.Core.List
use mathlib.Core.List.{List}
use portkeeper.Common.Tests.{if◌then◌else◌, ◌==◌, leb, string_equal, nat_equal}
use Prim.Native.Nat.{ℕ, ◌+◌}

-- `s + t`
abbrev pub append : String → String → String
append s t = String.◌++◌ s t

abbrev pub is_char : Char → Char → Bool
is_char sep c = code c == code sep

-- A character in front of the first piece.
pub onto : Char → List String → List String
onto c List.[] = List.◌∷◌ (c ∷ []) List.[]
onto c (List.◌∷◌ p ps) = List.◌∷◌ (c ∷ p) ps

-- `strings.Split(s, sep)`, for a separator of one character
unfoldable pub split : Char → String → List String
unfolding onto
split sep [] = List.◌∷◌ "" List.[]
split sep (c ∷ s) = if is_char sep c then List.◌∷◌ "" (split sep s) else onto c (split sep s)

unfoldable pub trim_left : (Char → Bool) → String → String
trim_left out [] = []
trim_left out (c ∷ s) = if out c then trim_left out s else c ∷ s

unfoldable pub trim_right : (Char → Bool) → String → String
trim_right out [] = []
trim_right out (c ∷ s) = let rest = trim_right out s in if out c && rest == "" then [] else c ∷ rest

-- `strings.Trim(s, sep)` with the test of the cutset
unfoldable pub trim : (Char → Bool) → String → String
unfolding trim_left trim_right
trim out s = trim_right out (trim_left out s)

-- `unicode.IsSpace`
unfoldable pub is_space : Char → Bool
is_space c =
    let n = code c in
    (leb 9 n && leb n 13)
    || n == 32
    || n == 0x85
    || n == 0xa0
    || n == 0x1680
    || (leb 0x2000 n && leb n 0x200a)
    || n == 0x2028
    || n == 0x2029
    || n == 0x202f
    || n == 0x205f
    || n == 0x3000

-- The pieces that are not empty.
pub nonempty : List String → List String
nonempty List.[] = List.[]
nonempty (List.◌∷◌ p ps) = if p == "" then nonempty ps else List.◌∷◌ p (nonempty ps)

pub split_where : (Char → Bool) → String → List String
unfolding onto
split_where out [] = List.◌∷◌ "" List.[]
split_where out (c ∷ s) =
    if out c then List.◌∷◌ "" (split_where out s) else onto c (split_where out s)

-- `strings.Fields(s)`: the runs of characters that are no space
unfoldable pub fields : String → List String
unfolding nonempty split_where is_space
fields s = nonempty (split_where is_space s)

pub lower_code : ℕ → ℕ
lower_code n = if leb 65 n && leb n 90 then n + 32 else n

-- `strings.EqualFold(s, t)` for a text `t` of ASCII letters other than k and s, which alone have
-- foldings outside ASCII
unfoldable pub equal_fold : String → String → Bool
unfolding lower_code
equal_fold [] [] = true
equal_fold [] (d ∷ t) = false
equal_fold (c ∷ s) [] = false
equal_fold (c ∷ s) (d ∷ t) = lower_code (code c) == lower_code (code d) && equal_fold s t
