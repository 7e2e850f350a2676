-- ===== src/Common/Text/Trim.antt =====
-- Trimming a text at both ends.
use Prim.Native.Char.{Char}
use Prim.Native.String.{String, [], ◌∷◌}
use mathlib.Core.Path.{◌≡◌, refl, ap, ◌∙◌}
use mathlib.Core.Logic.{◌≢◌}
use native.Mathlib.Omega.{arith}
use text.Mathlib.TextEquality.{eq_iff}
use text.Mathlib.TextLemmas.{nil-append, cons-append, append-ne-nil_of_right_ne-nil, cons-ne-nil}
use portkeeper.Common.Tests.{if◌then◌else◌}
use portkeeper.Common.Text.{append, is_char, trim, trim_left, trim_right}
use portkeeper.Common.Text.Split.{Lacks, is_char_self}

trim_right_of_Lacks : (sep : Char) (s : String) → Lacks sep s → trim_right (is_char sep) s ≡ s
unfolding trim_right
trim_right_of_Lacks sep [] h = refl
trim_right_of_Lacks sep (c ∷ s) (h, hs) = ground (arith, h, trim_right_of_Lacks sep s hs)

trim_right-cons :
    (sep c : Char) (s : String)
    → trim_right (is_char sep) s ≢ ""
    → trim_right (is_char sep) (c ∷ s) ≡ c ∷ trim_right (is_char sep) s
unfolding trim_right
trim_right-cons sep c s h = ground (arith, eq_iff (trim_right (is_char sep) s) "")

-- What stands before a part that is not trimmed away is kept.
trim_right-append :
    (sep : Char) (s t : String)
    → trim_right (is_char sep) t ≢ ""
    → trim_right (is_char sep) (append s t) ≡ append s (trim_right (is_char sep) t)
trim_right-append sep [] t h = rw (nil-append t, nil-append (trim_right (is_char sep) t)) refl
trim_right-append sep (c ∷ s) t h =
    let ih = trim_right-append sep s t h in
    rw (cons-append c s t, cons-append c s (trim_right (is_char sep) t))
      (trim_right-cons sep c (append s t) (rw ih (append-ne-nil_of_right_ne-nil s h))
        ∙ ap (◌∷◌ c) ih)

trim_left_of_Lacks :
    (sep : Char) (s t : String)
    → s ≢ ""
    → Lacks sep s
    → trim_left (is_char sep) (append s t) ≡ append s t
unfolding trim_left
trim_left_of_Lacks sep [] t ne h = absurd (ne refl)
trim_left_of_Lacks sep (c ∷ s) t ne (h, hs) = rw (cons-append c s t) (rw (h, if◌then◌else◌) refl)

-- The text ends in no separator.
abbrev pub Ends : Char → String → Type 0
Ends sep r = (trim_right (is_char sep) r ≡ r) × (r ≢ "")

pub Ends-of_Lacks : (sep : Char) (t : String) → t ≢ "" → Lacks sep t → Ends sep t
Ends-of_Lacks sep t ne h = (trim_right_of_Lacks sep t h, ne)

pub Ends-cons : (sep c : Char) (t : String) → Ends sep t → Ends sep (c ∷ t)
Ends-cons sep c t (same, ne) =
    (trim_right-cons sep c t (rw same ne) ∙ ap (◌∷◌ c) same, cons-ne-nil c t)

pub Ends-append : (sep : Char) (s t : String) → Ends sep t → Ends sep (append s t)
Ends-append sep s t (same, ne) = (
  trim_right-append sep s t (rw same ne) ∙ ap (append s) same,
  append-ne-nil_of_right_ne-nil s ne,
)

-- A leading separator goes; what begins with another character and ends in one stays.
pub trim-append :
    (sep : Char) (s t : String)
    → s ≢ ""
    → Lacks sep s
    → Ends sep t
    → trim (is_char sep) (sep ∷ append s t) ≡ append s t
unfolding trim trim_left
trim-append sep s t ne h ends =
    rw (is_char_self sep, trim_left_of_Lacks sep s t ne h) (Ends-append sep s t ends).0
