-- ===== src/Common/Text/Split.antt =====
-- Splitting a text at a separator, and joining the pieces.
use Prim.Native.Char.{Char, code}
use Prim.Native.String.{String, [], ◌∷◌}
use mathlib.Core.Path.{◌≡◌, refl, ap, sym, ◌∙◌}
use mathlib.Core.Logic.{◌≢◌, inl, inr}
use mathlib.Core.Bool.{true, false}
use mathlib.Core.List
use mathlib.Core.List.{List}
use native.Mathlib.Omega.{arith}
use text.Mathlib.TextEquality.{Char-path}
use text.Mathlib.TextLemmas.{nil-append, cons-append}
use portkeeper.Common.Tests.{if◌then◌else◌, Bool-cases, nat_test_iff}
use portkeeper.Common.Lists.{All}
use portkeeper.Common.Text.{append, is_char, onto, split}

-- The text does not hold the separator.
abbrev pub Lacks : Char → String → Type 0
Lacks sep [] = Unit {0}
Lacks sep (c ∷ s) = (is_char sep c ≡ false) × Lacks sep s

-- `strings.Join(pieces, sep)`
unfoldable pub join : Char → List String → String
join sep List.[] = ""
join sep (List.◌∷◌ p List.[]) = p
join sep (List.◌∷◌ p (List.◌∷◌ q ps)) = append p (sep ∷ join sep (List.◌∷◌ q ps))

pub is_char_path : (sep c : Char) → is_char sep c ≡ true → c ≡ sep
is_char_path sep c h = Char-path c sep ((nat_test_iff (code c) (code sep)).0 h)

pub is_char_self : (sep : Char) → is_char sep sep ≡ true
is_char_self sep = (nat_test_iff (code sep) (code sep)).1 refl

pub split-ne-nil : (sep : Char) (s : String) → split sep s ≢ List.[]
unfolding split
split-ne-nil sep [] = λ e. cc
split-ne-nil sep (c ∷ s) = ground arith

onto-append :
    (c : Char) (xs ys : List String)
    → xs ≢ List.[]
    → onto c (List.◌++◌ xs ys) ≡ List.◌++◌ (onto c xs) ys
unfolding onto
onto-append c List.[] ys h = absurd (h refl)
onto-append c (List.◌∷◌ p ps) ys h = refl

-- A separator splits the text into the pieces before it and those after it.
pub split-append :
    (sep : Char) (s t : String)
    → split sep (append s (sep ∷ t)) ≡ List.◌++◌ (split sep s) (split sep t)
unfolding split
split-append sep [] t = rw (nil-append (sep ∷ t)) (rw (is_char_self sep) refl)
split-append sep (c ∷ s) t = rw (cons-append c s (sep ∷ t)) (elim (Bool-cases (is_char sep c)) [
  | inl e ↦ rw (e, if◌then◌else◌) (ap (List.◌∷◌ "") (split-append sep s t))
  | inr e ↦
      rw (e, if◌then◌else◌)
        (ap (onto c) (split-append sep s t)
          ∙ onto-append c (split sep s) (split sep t) (split-ne-nil sep s))
])

pub split_of_Lacks : (sep : Char) (s : String) → Lacks sep s → split sep s ≡ List.◌∷◌ s List.[]
unfolding split
split_of_Lacks sep [] h = refl
split_of_Lacks sep (c ∷ s) (h, hs) = rw (h, split_of_Lacks sep s hs) refl

onto-Lacks :
    (sep c : Char) (ps : List String)
    → is_char sep c ≡ false
    → All (Lacks sep) ps
    → All (Lacks sep) (onto c ps)
unfolding onto
onto-Lacks sep c List.[] h hs = ((h, tt), tt)
onto-Lacks sep c (List.◌∷◌ p ps) h hs = ((h, hs.0), hs.1)

-- No piece holds the separator.
pub split-Lacks : (sep : Char) (s : String) → All (Lacks sep) (split sep s)
unfolding split
split-Lacks sep [] = (tt, tt)
split-Lacks sep (c ∷ s) = elim (Bool-cases (is_char sep c)) [
  | inl e ↦ rw e (tt, split-Lacks sep s)
  | inr e ↦ rw e (onto-Lacks sep c (split sep s) e (split-Lacks sep s))
]

join-onto :
    (sep c : Char) (ps : List String) → ps ≢ List.[] → join sep (onto c ps) ≡ c ∷ join sep ps
unfolding onto join
join-onto sep c List.[] h = absurd (h refl)
join-onto sep c (List.◌∷◌ p List.[]) h = refl
join-onto sep c (List.◌∷◌ p (List.◌∷◌ q ps)) h = cons-append c p _

join-empty :
    (sep : Char) (ps : List String) → ps ≢ List.[] → join sep (List.◌∷◌ "" ps) ≡ sep ∷ join sep ps
unfolding join
join-empty sep List.[] h = absurd (h refl)
join-empty sep (List.◌∷◌ q ps) h = nil-append _

-- Joining the pieces gives the text back.
pub join-split : (sep : Char) (s : String) → join sep (split sep s) ≡ s
unfolding split
join-split sep [] = unfold join in refl
join-split sep (c ∷ s) = elim (Bool-cases (is_char sep c)) [
  | inl e ↦
      rw (e, if◌then◌else◌)
        (join-empty sep (split sep s) (split-ne-nil sep s)
          ∙ ap (◌∷◌ sep) (join-split sep s)
          ∙ ap (λ (d : Char). d ∷ s) (sym (is_char_path sep c e)))
  | inr e ↦
      rw (e, if◌then◌else◌)
        (join-onto sep c (split sep s) (split-ne-nil sep s) ∙ ap (◌∷◌ c) (join-split sep s))
]

-- Splitting what was joined gives the pieces back, if none of them holds the separator.
pub split-join :
    (sep : Char) (v : String) (vs : List String)
    → All (Lacks sep) (List.◌∷◌ v vs)
    → split sep (join sep (List.◌∷◌ v vs)) ≡ List.◌∷◌ v vs
unfolding join
split-join sep v List.[] h = split_of_Lacks sep v h.0
split-join sep v (List.◌∷◌ u vs) h =
    split-append sep v (join sep (List.◌∷◌ u vs))
    ∙ rw (split_of_Lacks sep v h.0, split-join sep u vs h.1) refl
