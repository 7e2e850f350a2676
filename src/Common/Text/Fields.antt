-- ===== src/Common/Text/Fields.antt =====
-- `strings.Fields` on words.
use Prim.Native.String.{String, [], ◌∷◌}
use mathlib.Core.List.{List}
use mathlib.Core.Path.{◌≡◌, refl, ap, ◌∙◌}
use mathlib.Core.Logic.{◌≢◌}
use mathlib.Core.Bool.{false}
use native.Mathlib.Omega.{arith}
use text.Mathlib.TextEquality.{eq_iff}
use text.Mathlib.TextLemmas.{nil-append, cons-append}
use portkeeper.Common.Tests.{string_equal}
use portkeeper.Common.Text.{append, is_space, onto, split_where, nonempty, fields}

-- No white space.
abbrev pub IsWord : String → Type 0
IsWord [] = Unit
IsWord (c ∷ s) = (is_space c ≡ false) × IsWord s

split_where-IsWord : (t : String) → IsWord t → split_where is_space t ≡ List.◌∷◌ t List.[]
unfolding split_where onto
split_where-IsWord [] h = refl
split_where-IsWord (c ∷ t) (h, hs) = rw (h, split_where-IsWord t hs) refl

split_where-append :
    (w t : String)
    → IsWord w
    → split_where is_space (append w (" " ∷ t)) ≡ List.◌∷◌ w (split_where is_space t)
unfolding split_where onto
split_where-append [] t h =
    ap (split_where is_space) (nil-append (" " ∷ t)) ∙ unfold is_space in refl
split_where-append (c ∷ w) t (h, hs) =
    ap (split_where is_space) (cons-append c w (" " ∷ t)) ∙ rw (h, split_where-append w t hs) refl

nonempty-cons :
    (p : String) (ps : List String) → p ≢ "" → nonempty (List.◌∷◌ p ps) ≡ List.◌∷◌ p (nonempty ps)
unfolding nonempty
nonempty-cons p ps h = ground (arith, eq_iff p "")

-- Two words with a space between them.
pub fields-append :
    (w t : String)
    → IsWord w
    → IsWord t
    → w ≢ ""
    → t ≢ ""
    → fields (append w (" " ∷ t)) ≡ List.◌∷◌ w (List.◌∷◌ t List.[])
unfolding fields
fields-append w t hw ht full_w full_t =
    ap nonempty (split_where-append w t hw ∙ ap (List.◌∷◌ w) (split_where-IsWord t ht))
    ∙ nonempty-cons w (List.◌∷◌ t List.[]) full_w
    ∙ ap (List.◌∷◌ w) (nonempty-cons t List.[] full_t ∙ unfold nonempty in refl)
