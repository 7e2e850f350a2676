-- ===== src/Common/Text/Number/RoundTrip.antt =====
-- `strconv.Atoi` reads what `strconv.Itoa` writes.
use Prim.Native.Char.{code}
use Prim.Native.String.{String, [], ◌∷◌}
use Prim.Native.Nat.{ℕ, zero, suc, ◌+◌, ◌*◌, ◌/◌, ◌%◌, ◌<◌, ◌≤◌}
use mathlib.Core.Path.{◌≡◌, refl, ap, ◌∙◌}
use mathlib.Core.Logic.{inl, inr}
use mathlib.Core.Bool.{Bool, true, false}
use mathlib.Core.Option.{some}
use native.Mathlib.Omega.{arith}
use portkeeper.Common.Tests.{ltb, nat_equal, Bool-cases}
use portkeeper.Common.Int.{ℤ, pos, negsuc, pos_part, neg_part}
use portkeeper.Common.Text.Decimal.{digit, digits, show_ℕ, show_ℤ}
use portkeeper.Common.Text.Number.{
  is_digit, digits_from, parse_ℕ, int_limit, positive, negative, atoi,
}

digit_lem : (d : ℕ) → d < 10 → code (digit d) ≡ b'0' + d
unfolding digit
digit_lem zero h = refl
digit_lem (suc zero) h = refl
digit_lem (suc (suc zero)) h = refl
digit_lem (suc (suc (suc zero))) h = refl
digit_lem (suc (suc (suc (suc zero)))) h = refl
digit_lem (suc (suc (suc (suc (suc zero))))) h = refl
digit_lem (suc (suc (suc (suc (suc (suc zero)))))) h = refl
digit_lem (suc (suc (suc (suc (suc (suc (suc zero))))))) h = refl
digit_lem (suc (suc (suc (suc (suc (suc (suc (suc zero)))))))) h = refl
digit_lem (suc (suc (suc (suc (suc (suc (suc (suc (suc zero))))))))) h = refl
digit_lem (suc (suc (suc (suc (suc (suc (suc (suc (suc (suc d)))))))))) h = absurd (omega arith)

pub is_digit_lem : (d : ℕ) → d < 10 → is_digit (digit d) ≡ true
is_digit_lem d h = ground (arith, digit_lem d h)

digits_from-digit :
    (n d : ℕ) (s : String) → d < 10 → digits_from n (digit d ∷ s) ≡ digits_from (n * 10 + d) s
unfolding digits_from
digits_from-digit n d s h =
    rw (is_digit_lem d h, digit_lem d h) (ap (λ k. digits_from k s) (omega arith))

digits_from-digits :
    (fuel n : ℕ) (s : String) → n < fuel → digits_from 0 (digits fuel n s) ≡ digits_from n s
unfolding digits
digits_from-digits zero n s h = elim h [ ]
digits_from-digits (suc fuel) n s h = elim (Bool-cases (ltb n 10)) [
  | inl small ↦
      rw small
        (digits_from-digit 0 (n % 10) s (omega arith) ∙ ap (λ k. digits_from k s) (ground arith))
  | inr large ↦ rw large (
      digits_from-digits fuel (n / 10) (digit (n % 10) ∷ s) (ground arith)
      ∙ digits_from-digit (n / 10) (n % 10) s (omega arith)
      ∙ ap (λ k. digits_from k s) (omega arith))
]

starts : String → Bool
starts [] = false
starts (c ∷ s) = is_digit c

digits-starts : (fuel n : ℕ) (s : String) → starts s ≡ true → starts (digits fuel n s) ≡ true
unfolding digits starts
digits-starts zero n s h = h
digits-starts (suc fuel) n s h = elim (Bool-cases (ltb n 10)) [
  | inl small ↦ rw small (is_digit_lem (n % 10) (omega arith))
  | inr large ↦
      rw large
        (digits-starts fuel (n / 10) (digit (n % 10) ∷ s) (is_digit_lem (n % 10) (omega arith)))
]

show_ℕ-starts : (n : ℕ) → starts (show_ℕ n) ≡ true
unfolding show_ℕ digits starts
show_ℕ-starts n = elim (Bool-cases (ltb n 10)) [
  | inl small ↦ rw small (is_digit_lem (n % 10) (omega arith))
  | inr large ↦
      rw large
        (digits-starts n (n / 10) (digit (n % 10) ∷ "") (is_digit_lem (n % 10) (omega arith)))
]

parse_ℕ-starts : (s : String) → starts s ≡ true → parse_ℕ s ≡ digits_from 0 s
unfolding parse_ℕ starts
parse_ℕ-starts [] h = cc
parse_ℕ-starts (c ∷ s) h = refl

parse_ℕ-show_ℕ : (n : ℕ) → parse_ℕ (show_ℕ n) ≡ some n
unfolding show_ℕ digits_from
parse_ℕ-show_ℕ n =
    parse_ℕ-starts (show_ℕ n) (show_ℕ-starts n) ∙ digits_from-digits (suc n) n "" (omega arith)

atoi-starts : (s : String) → starts s ≡ true → atoi s ≡ positive (parse_ℕ s)
unfolding atoi starts
atoi-starts [] h = cc
atoi-starts (c ∷ s) h = ground arith

-- Every int is read back from its decimal.
pub atoi-show_ℤ :
    (z : ℤ) → pos_part z < int_limit → neg_part z ≤ int_limit → atoi (show_ℤ z) ≡ some z
unfolding show_ℤ positive negative
atoi-show_ℤ (pos n) low high =
    atoi-starts (show_ℕ n) (show_ℕ-starts n) ∙ rw (parse_ℕ-show_ℕ n) (ground arith)
atoi-show_ℤ (negsuc n) low high = unfold atoi in rw (parse_ℕ-show_ℕ (suc n)) (ground arith)
