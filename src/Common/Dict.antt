-- ===== src/Common/Dict.antt =====
-- Go's maps as association lists with distinct keys. The order of the entries stands for the order
-- in which one `range` loop happens to visit them.
use portkeeper.Common.Tests.{Equal, ◌==◌, if◌then◌else◌, equal_refl}
use portkeeper.Common.Lists.{length, All}
use Prim.Native.Nat.{suc, ◌≤◌}
use mathlib.Core.Path.{◌≡◌, refl}
use mathlib.Core.Bool.{Bool}
use mathlib.Core.Option.{Option, none, some}
use mathlib.Core.List.{List, [], ◌∷◌}
use native.Mathlib.Omega.{arith}

-- `v` if the entry passes the test.
abbrev pub keep {ℓ} : {V : Type ℓ} → (V → Bool) → Option V → Option V
keep p none = none
keep p (some v) = if p v then some v else none

module _ {ℓ κ} {K : Type ℓ} {V : Type κ} ⦃e : Equal K⦄ where
  -- `m[key] = value`
  unfoldable pub insert : K → V → List (K × V) → List (K × V)
  insert key value [] = (key, value) ∷ []
  insert key value ((first, old) ∷ rest) =
      if first == key then (key, value) ∷ rest else (first, old) ∷ insert key value rest

  -- `value, ok := m[key]`
  unfoldable pub lookup : K → List (K × V) → Option V
  lookup key [] = none
  lookup key ((first, value) ∷ rest) = if first == key then some value else lookup key rest

  -- No two entries have the same key, as in every Go map.
  abbrev pub IsDistinct : List (K × V) → Type κ
  IsDistinct [] = Unit
  IsDistinct ((key, value) ∷ rest) = (lookup key rest ≡ none) × IsDistinct rest

-- `for k, v := range m { if !p(v) { delete(m, k) } }`
unfoldable pub retain {ℓ κ} : {K : Type ℓ} {V : Type κ} → (V → Bool) → List (K × V) → List (K × V)
retain p [] = []
retain p ((k, v) ∷ m) = if p v then (k, v) ∷ retain p m else retain p m

pub length-retain-le {ℓ κ} :
    {K : Type ℓ} {V : Type κ} (p : V → Bool) (m : List (K × V)) → length (retain p m) ≤ length m
unfolding retain
length-retain-le p [] = omega arith
length-retain-le p ((k, v) ∷ m) = ground (arith, length-retain-le p m)

module _ {ℓ κ} {K : Type ℓ} {V : Type κ} ⦃e : Equal K⦄ where
  pub lookup-insert :
      (key asked : K) (value : V) (m : List (K × V))
      → lookup asked (insert key value m) ≡ (if key == asked then some value else lookup asked m)
  unfolding insert lookup
  lookup-insert key asked value [] = refl
  lookup-insert key asked value ((first, old) ∷ rest) =
      let ih = lookup-insert key asked value rest in
      ground (arith, ih, e.equal_iff first asked, e.equal_iff first key, e.equal_iff key asked)

  pub lookup-insert_self :
      (key : K) (value : V) (m : List (K × V)) → lookup key (insert key value m) ≡ some value
  lookup-insert_self key value m = rw (lookup-insert key key value m, equal_refl key) refl

  pub insert-IsDistinct :
      (k : K) (v : V) (m : List (K × V)) → IsDistinct m → IsDistinct (insert k v m)
  unfolding insert lookup
  insert-IsDistinct k v [] h = (refl, tt)
  insert-IsDistinct k v ((i, w) ∷ m) h =
      ground (
        arith,
        e.equal_iff i k,
        e.equal_iff k i,
        lookup-insert k i v m,
        insert-IsDistinct k v m h.1,
      )

  pub length-insert_new :
      (k : K) (v : V) (m : List (K × V))
      → lookup k m ≡ none
      → length (insert k v m) ≡ suc (length m)
  unfolding lookup insert
  length-insert_new k v [] h = refl
  length-insert_new k v ((i, w) ∷ m) h = ground (arith, length-insert_new k v m)

  pub length-insert_old :
      (k : K) (v w : V) (m : List (K × V)) → lookup k m ≡ some w → length (insert k v m) ≡ length m
  unfolding lookup insert
  length-insert_old k v w [] h = cc
  length-insert_old k v w ((i, u) ∷ m) h = ground (arith, length-insert_old k v w m)

  retain-lookup-none :
      (p : V → Bool) (k : K) (m : List (K × V)) → lookup k m ≡ none → lookup k (retain p m) ≡ none
  unfolding retain lookup
  retain-lookup-none p k [] h = refl
  retain-lookup-none p k ((i, v) ∷ m) h = ground (arith, retain-lookup-none p k m)

  pub retain-IsDistinct : (p : V → Bool) (m : List (K × V)) → IsDistinct m → IsDistinct (retain p m)
  unfolding retain
  retain-IsDistinct p [] h = tt
  retain-IsDistinct p ((i, v) ∷ m) h =
      ground (arith, retain-lookup-none p i m, retain-IsDistinct p m h.1)

  -- What the loop leaves under a key.
  pub lookup-retain :
      (p : V → Bool) (k : K) (m : List (K × V))
      → IsDistinct m
      → lookup k (retain p m) ≡ keep p (lookup k m)
  unfolding retain lookup
  lookup-retain p k [] h = refl
  lookup-retain p k ((i, v) ∷ m) h =
      ground (arith, e.equal_iff i k, retain-lookup-none p i m, lookup-retain p k m h.1)

module _ {ℓ κ μ} {K : Type ℓ} {V : Type κ} ⦃e : Equal K⦄ (P : V → Type μ) where
  -- Every value of the map has the property.
  abbrev pub Values : List (K × V) → Type μ
  Values m = All (λ entry. P entry.1) m

  pub Values-insert : (k : K) (v : V) (m : List (K × V)) → P v → Values m → Values (insert k v m)
  unfolding insert
  Values-insert k v [] p h = (p, tt)
  Values-insert k v ((i, w) ∷ m) p h = ground (arith, Values-insert k v m p h.1)

  pub Values-retain : (p : V → Bool) (m : List (K × V)) → Values m → Values (retain p m)
  unfolding retain
  Values-retain p [] h = tt
  Values-retain p ((i, w) ∷ m) h = ground (arith, Values-retain p m h.1)

  pub Values-lookup : (k : K) (v : V) (m : List (K × V)) → Values m → lookup k m ≡ some v → P v
  unfolding lookup
  Values-lookup k v [] h f = cc
  Values-lookup k v ((i, w) ∷ m) h f = ground (arith, Values-lookup k v m h.1)
