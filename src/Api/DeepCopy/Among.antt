-- ===== src/Api/DeepCopy/Among.antt =====
-- Assignments through some of the servers of a list.
use portkeeper.Common.{
  ℕ, zero, suc, ◌≡◌, refl, ap, ◌∙◌, ◌⊎◌, inl, inr, List, [], ◌∷◌, map, All, All-imp,
}
use portkeeper.Api.{McpServer}
use portkeeper.Api.Memory.{take}
use portkeeper.Api.DeepCopy.{TypeMeta, ServerObject, Store}
use portkeeper.Api.DeepCopy.Isolation.{
  contents, Write, apply, apply_all, Through, IsApart, apply-contents,
}

abbrev pub all_contents : Store → List ServerObject → List (TypeMeta × McpServer)
all_contents s rs = map (contents s) rs

-- The assignment is to an element of a slice of one of the objects.
abbrev pub Among : List ServerObject → Write → Type 0
Among [] w = ⊥
Among (r ∷ rs) w = Through r w ⊎ Among rs w

pub map-take {ℓ κ} :
    {A : Type ℓ} {B : Type κ} (f : A → B) (n : ℕ) (xs : List A)
    → map f (take n xs) ≡ take n (map f xs)
map-take f zero xs = refl
map-take f (suc n) [] = refl
map-take f (suc n) (x ∷ xs) = ap (λ ys. f x ∷ ys) (map-take f n xs)

pub All-take {ℓ κ} :
    {A : Type ℓ} (P : A → Type κ) (n : ℕ) (xs : List A) → All P xs → All P (take n xs)
All-take P zero xs h = tt
All-take P (suc n) [] h = tt
All-take P (suc n) (x ∷ xs) h = (h.0, All-take P n xs h.1)

pub map-ext {ℓ κ} :
    {A : Type ℓ} {B : Type κ} (f g : A → B) (xs : List A)
    → All (λ x. f x ≡ g x) xs
    → map f xs ≡ map g xs
map-ext f g [] h = refl
map-ext f g (x ∷ xs) h = rw (h.0, map-ext f g xs h.1) refl

apply-Among :
    (rs : List ServerObject) (q : ServerObject) (w : Write) (s : Store)
    → All (λ r. IsApart r q) rs
    → Among rs w
    → contents (apply w s) q ≡ contents s q
apply-Among [] q w s apart among = absurd among
apply-Among (r ∷ rs) q w s apart (inl here) = apply-contents r q w s apart.0 here
apply-Among (r ∷ rs) q w s apart (inr there) = apply-Among rs q w s apart.1 there

apply_all-Among :
    (rs : List ServerObject) (q : ServerObject) (ws : List Write) (s : Store)
    → All (λ r. IsApart r q) rs
    → All (Among rs) ws
    → contents (apply_all ws s) q ≡ contents s q
unfolding apply_all
apply_all-Among rs q [] s apart among = refl
apply_all-Among rs q (w ∷ ws) s apart among =
    apply_all-Among rs q ws (apply w s) apart among.1 ∙ apply-Among rs q w s apart among.0

-- What is assigned through other servers does not change what these say.
pub apply_all-Among-All :
    (rs qs : List ServerObject) (ws : List Write) (s : Store)
    → All (λ q. All (λ r. IsApart r q) rs) qs
    → All (Among rs) ws
    → all_contents (apply_all ws s) qs ≡ all_contents s qs
apply_all-Among-All rs [] ws s apart among = refl
apply_all-Among-All rs (q ∷ qs) ws s apart among =
    rw (apply_all-Among rs q ws s apart.0 among, apply_all-Among-All rs qs ws s apart.1 among) refl

pub All-swap :
    (rs qs : List ServerObject)
    → All (λ r. All (IsApart r) qs) rs
    → All (λ q. All (λ r. IsApart r q) rs) qs
All-swap rs [] h = tt
All-swap rs (q ∷ qs) h = (
  All-imp (λ r. All (IsApart r) (q ∷ qs)) (λ r. IsApart r q) (λ r g. g.0) rs h,
  All-swap rs qs
      (All-imp (λ r. All (IsApart r) (q ∷ qs)) (λ r. All (IsApart r) qs) (λ r g. g.1) rs h),
)
