-- ===== src/Command/Client/Workers.antt =====
-- How the program of hack/mcp-client reads its list of workers.
use Prim.Native.Char.{Char, code}
use portkeeper.Common.{
  ℕ, zero, suc, ◌/◌, ◌%◌, ◌≤◌, ◌<◌, String, Bool, true, false, ◌||◌, ◌≡◌, refl, ap, ◌∙◌, some, List,
  [], ◌∷◌, map, ◌==◌, nat_equal, string_equal, ltb, All, inl, inr, Bool-cases, arith,
}
use portkeeper.Common.Int.{ℤ, pos, negsuc, pos_part, neg_part}
use portkeeper.Common.Text.{is_char, is_space, trim, trim_left, trim_right}
use portkeeper.Common.Text.Split.{Lacks, join, split-join}
use portkeeper.Common.Text.Decimal.{digit, digits, show_ℕ, show_ℤ}
use portkeeper.Common.Text.Number.{is_digit, int_limit}
use portkeeper.Common.Text.Number.RoundTrip.{is_digit_lem, atoi-show_ℤ}
use portkeeper.Command.Client.{onto_workers, parse_workers, workers_of}

abbrev is_plain : Char → Bool
is_plain c = is_digit c || code c == b'-'

-- Digits and signs only.
abbrev IsPlain : String → Type 0
IsPlain String.[] = Unit
IsPlain (String.◌∷◌ c s) = (is_plain c ≡ true) × IsPlain s

digits-IsPlain : (fuel n : ℕ) (s : String) → IsPlain s → IsPlain (digits fuel n s)
unfolding digits
digits-IsPlain zero n s h = h
digits-IsPlain (suc fuel) n s h =
    let plain : is_plain (digit (n % 10)) ≡ true = ground (arith, is_digit_lem (n % 10)) in
    elim (Bool-cases (ltb n 10)) [
      | inl small ↦ rw small (plain, h)
      | inr large ↦
          rw large (digits-IsPlain fuel (n / 10) (String.◌∷◌ (digit (n % 10)) s) (plain, h))
    ]

show_ℤ-IsPlain : (z : ℤ) → IsPlain (show_ℤ z)
unfolding show_ℤ show_ℕ
show_ℤ-IsPlain (pos n) = digits-IsPlain (suc n) n "" tt
show_ℤ-IsPlain (negsuc n) = (refl, digits-IsPlain (suc (suc n)) (suc n) "" tt)

comma_ne : (c : Char) → is_plain c ≡ true → is_char "," c ≡ false
comma_ne c h = ground arith

space_ne : (c : Char) → is_plain c ≡ true → is_space c ≡ false
unfolding is_space
space_ne c h = ground arith

IsPlain-Lacks : (s : String) → IsPlain s → Lacks "," s
IsPlain-Lacks String.[] h = tt
IsPlain-Lacks (String.◌∷◌ c s) (h, hs) = (comma_ne c h, IsPlain-Lacks s hs)

trim_right-IsPlain : (s : String) → IsPlain s → trim_right is_space s ≡ s
unfolding trim_right
trim_right-IsPlain String.[] h = refl
trim_right-IsPlain (String.◌∷◌ c s) (h, hs) =
    rw (space_ne c h) (ap (String.◌∷◌ c) (trim_right-IsPlain s hs))

trim-IsPlain : (s : String) → IsPlain s → trim is_space s ≡ s
unfolding trim trim_left
trim-IsPlain String.[] h = trim_right-IsPlain "" tt
trim-IsPlain (String.◌∷◌ c s) (h, hs) =
    rw (space_ne c h) (trim_right-IsPlain (String.◌∷◌ c s) (h, hs))

-- An int of 64 bits.
abbrev pub IsInt : ℤ → Type 0
IsInt z = (pos_part z < int_limit) × (neg_part z ≤ int_limit)

parse_workers-map : (ns : List ℤ) → All IsInt ns → parse_workers (map show_ℤ ns) ≡ some ns
unfolding parse_workers onto_workers
parse_workers-map [] h = refl
parse_workers-map (n ∷ ns) h =
    rw
      (
        trim-IsPlain (show_ℤ n) (show_ℤ-IsPlain n),
        atoi-show_ℤ n (h.0).0 (h.0).1,
        parse_workers-map ns h.1,
      )
      refl

map-Lacks : (ns : List ℤ) → All (Lacks ",") (map show_ℤ ns)
map-Lacks [] = tt
map-Lacks (n ∷ ns) = (IsPlain-Lacks (show_ℤ n) (show_ℤ-IsPlain n), map-Lacks ns)

-- Every list of ints, written in decimal with commas between, is read back.
pub workers_of-join :
    (n : ℤ) (ns : List ℤ)
    → All IsInt (n ∷ ns)
    → workers_of (join "," (map show_ℤ (n ∷ ns))) ≡ some (n ∷ ns)
unfolding workers_of
workers_of-join n ns h =
    ap parse_workers (split-join "," (show_ℤ n) (map show_ℤ ns) (map-Lacks (n ∷ ns)))
    ∙ parse_workers-map (n ∷ ns) h
