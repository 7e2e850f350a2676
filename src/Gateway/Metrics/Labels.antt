-- ===== src/Gateway/Metrics/Labels.antt =====
-- Label admission is permanent and bounded.
use portkeeper.Common.{
  ◌≤◌, String, true, false, ◌≡◌, ◌↔◌, List, [], ◌∷◌, ◌==◌, any, length, arith, string_equal,
}
use portkeeper.Gateway.Metrics.{BoundedLabels, admit}

abbrev pub Admitted : BoundedLabels → String → Type 0
Admitted b value = any (λ v. v == value) b.values ≡ true

-- Admissions in sequence.
unfoldable pub admit_all : BoundedLabels → List String → BoundedLabels
admit_all b [] = b
admit_all b (value ∷ values) = admit_all (admit b value).0 values

-- One admission: the answer says whether the value is now a label, no label is lost, and a value is
-- turned away only when the labels are used up.
pub admit_lem :
    (b : BoundedLabels) (value : String)
    → (((admit b value).1 ≡ true) ↔ Admitted (admit b value).0 value)
      × ((other : String) → Admitted b other → Admitted (admit b value).0 other)
      × ((admit b value).1 ≡ false → b.limit ≤ length b.values)
unfolding admit
admit_lem b value =
    (ground (arith, string_equal.equal_iff value value), (λ other h. ground arith), ground arith)

pub admit-limit :
    (b : BoundedLabels) (value : String)
    → length b.values ≤ b.limit
    → ((admit b value).0.limit ≡ b.limit) × (length (admit b value).0.values ≤ b.limit)
unfolding admit
admit-limit b value h = ground arith

-- However many values are offered, at most `limit` of them become labels, and a label stays one.
pub admit_all-limit :
    (b : BoundedLabels) (values : List String)
    → length b.values ≤ b.limit
    → (length (admit_all b values).values ≤ b.limit)
      × ((other : String) → Admitted b other → Admitted (admit_all b values) other)
unfolding admit_all
admit_all-limit b [] h = (h, λ other a. a)
admit_all-limit b (value ∷ values) h =
    let (same, bound) = admit-limit b value h in
    let (rest, kept) = admit_all-limit (admit b value).0 values (rw same bound) in
    (rw same at rest, λ other a. kept other ((admit_lem b value).1 other a))
