-- ===== src/Gateway/Metrics/Statuses.antt =====
-- The status label takes one of 21 values.
use portkeeper.Common.{
  ℕ, zero, suc, ◌<◌, ◌≤◌, String, Bool, true, ◌≡◌, ◌&&◌, refl, List, [], ◌∷◌, ◌==◌, any, arith, ltb,
  Bool-cases, inl, inr, string_equal,
}
use portkeeper.Common.Text.Decimal.{show_ℕ}
use portkeeper.Gateway.Metrics.{status_label}

abbrev pub status_labels : List String
status_labels =
    "200" ∷ "201" ∷ "202" ∷ "204" ∷ "400" ∷ "401" ∷ "403" ∷ "404" ∷ "405" ∷ "409" ∷ "429" ∷ "500"
    ∷ "502" ∷ "503" ∷ "504" ∷ "1xx" ∷ "2xx" ∷ "3xx" ∷ "4xx" ∷ "5xx" ∷ "other" ∷ []

is_listed : ℕ → Bool
is_listed status = any (λ l. l == status_label status) status_labels

all_below : ℕ → (ℕ → Bool) → Bool
all_below zero p = true
all_below (suc n) p = p n && all_below n p

all_below-lt : (n : ℕ) (p : ℕ → Bool) (x : ℕ) → all_below n p ≡ true → x < n → p x ≡ true
unfolding all_below
all_below-lt zero p x h lt = absurd (omega arith)
all_below-lt (suc n) p x h lt = ground (arith, all_below-lt n p x)

table : all_below 600 is_listed ≡ true
unfolding all_below is_listed status_label show_ℕ
table = refl

-- Above the table every status is "other".
status_label_above : (status : ℕ) → 600 ≤ status → status_label status ≡ "other"
unfolding status_label
status_label_above status h = ground arith

-- Whatever a handler or a backend answers, the label of its status is one of 21.
pub status_label-status_labels :
    (status : ℕ) → any (λ l. l == status_label status) status_labels ≡ true
unfolding is_listed
status_label-status_labels status = elim (Bool-cases (ltb status 600)) [
  | inl low ↦ all_below-lt 600 is_listed status table (ground arith)
  | inr high ↦ rw (status_label_above status (ground arith)) refl
]
