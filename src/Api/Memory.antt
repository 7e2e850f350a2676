-- ===== src/Api/Memory.antt =====
-- Slices of Go behind the resource of api/v1alpha1: a slice is the address of its array and its length,
-- and `none` is the nil slice. The arrays of a type stand in a memory of their own.
use portkeeper.Common.{
  ℕ, zero, suc, ◌<◌, ◌≡◌, refl, ap, ◌∙◌, if_true, if_false, Option, none, some, List, [], ◌∷◌, map,
  ◌==◌, if◌then◌else◌, nat_equal, arith,
}

pub record Slice : Type 0 where
  pub address : ℕ
  pub len : ℕ

pub record Memory {ℓ} (A : Type ℓ) : Type ℓ where
  pub next : ℕ
  pub array : ℕ → List A

-- The slice begins at the address.
abbrev pub Begins : Option Slice → ℕ → Type 0
Begins none p = ⊥
Begins (some s) p = s.address ≡ p

module _ {ℓ} {A : Type ℓ} where
  abbrev pub take : ℕ → List A → List A
  take zero xs = []
  take (suc n) [] = []
  take (suc n) (x ∷ xs) = x ∷ take n xs

  abbrev pub set_at : ℕ → A → List A → List A
  set_at i v [] = []
  set_at zero v (x ∷ xs) = v ∷ xs
  set_at (suc i) v (x ∷ xs) = x ∷ set_at i v xs

  -- The elements of a slice.
  unfoldable pub elements : Memory A → Option Slice → List A
  elements m none = []
  elements m (some s) = take s.len (m.array s.address)

  put : Memory A → ℕ → List A → ℕ → List A
  put m p xs q = if q == p then xs else m.array q

  -- A new array with these elements.
  unfoldable pub allocate : Memory A → List A → Memory A
  unfolding put
  allocate m xs = record { next = suc m.next; array = put m m.next xs }

  -- `s[i] = v`, for a slice that begins at the address.
  unfoldable pub assign : (address i : ℕ) → A → Memory A → Memory A
  unfolding put
  assign p i v m = record m { array = put m p (set_at i v (m.array p)) }

  -- `make` with the length of a slice, and its elements, each copied by `copy`; a nil slice stays nil.
  unfoldable pub copy_slice : (copy : A → A) → Option Slice → Memory A → Option Slice × Memory A
  copy_slice copy none m = (none, m)
  copy_slice copy (some s) m =
      (some (record { address = m.next; len = s.len }), allocate m (map copy (elements m (some s))))

  -- The slice was made before the memory was what it is.
  abbrev pub IsMade : Memory A → Option Slice → Type 0
  IsMade m none = Unit
  IsMade m (some s) = s.address < m.next

  pub elements-assign :
      (m : Memory A) (o : Option Slice) (p i : ℕ) (v : A)
      → (Begins o p → ⊥)
      → elements (assign p i v m) o ≡ elements m o
  unfolding elements assign put
  elements-assign m none p i v apart = refl
  elements-assign m (some s) p i v apart =
      ap (take s.len)
        (if_false (set_at i v (m.array p)) (m.array s.address) (ground (arith, apart)))

  pub take-take : (n : ℕ) (xs : List A) → take n (take n xs) ≡ take n xs
  take-take zero xs = refl
  take-take (suc n) [] = refl
  take-take (suc n) (x ∷ xs) = ap (λ ys. x ∷ ys) (take-take n xs)

  map_same : (copy : A → A) → ((a : A) → copy a ≡ a) → (xs : List A) → map copy xs ≡ xs
  map_same copy same [] = refl
  map_same copy same (x ∷ xs) = rw (same x, map_same copy same xs) refl

  pub elements-allocate :
      (m : Memory A) (n : ℕ) (xs : List A)
      → elements (allocate m xs) (some (record { address = m.next; len = n })) ≡ take n xs
  unfolding elements allocate put
  elements-allocate m n xs = ap (take n) (if_true xs (m.array m.next) (ground arith))

  -- A copy has the elements of the slice.
  pub elements-copy_slice :
      (copy : A → A) (o : Option Slice) (m : Memory A)
      → ((a : A) → copy a ≡ a)
      → elements (copy_slice copy o m).1 (copy_slice copy o m).0 ≡ elements m o
  unfolding elements copy_slice
  elements-copy_slice copy none m same = refl
  elements-copy_slice copy (some s) m same =
      elements-allocate m s.len (map copy (elements m (some s)))
      ∙ ap (take s.len) (map_same copy same (elements m (some s)))
      ∙ take-take s.len (m.array s.address)

  pub allocate-elements :
      (m : Memory A) (xs : List A) (old : Option Slice)
      → IsMade m old
      → elements (allocate m xs) old ≡ elements m old
  unfolding elements allocate put
  allocate-elements m xs none made = refl
  allocate-elements m xs (some t) made =
      ap (take t.len) (if_false xs (m.array t.address) (ground (arith, made)))

  -- A slice that was there before has its elements still.
  pub copy_slice-elements :
      (copy : A → A) (o : Option Slice) (m : Memory A) (old : Option Slice)
      → IsMade m old
      → elements (copy_slice copy o m).1 old ≡ elements m old
  unfolding copy_slice
  copy_slice-elements copy none m old made = refl
  copy_slice-elements copy (some s) m old made =
      allocate-elements m (map copy (elements m (some s))) old made

  -- A copy does not begin where a slice does that was there before.
  pub copy_slice-apart :
      (copy : A → A) (o : Option Slice) (m : Memory A) (old : Option Slice) (p : ℕ)
      → IsMade m old
      → Begins old p
      → Begins (copy_slice copy o m).0 p
      → ⊥
  unfolding copy_slice
  copy_slice-apart copy none m old p made here there = there
  copy_slice-apart copy (some s) m none p made here there = here
  copy_slice-apart copy (some s) m (some t) p made here there = omega (arith, made, here, there)

  pub copy_slice-IsMade :
      (copy : A → A) (o : Option Slice) (m : Memory A)
      → IsMade (copy_slice copy o m).1 (copy_slice copy o m).0
  unfolding copy_slice allocate
  copy_slice-IsMade copy none m = tt
  copy_slice-IsMade copy (some s) m = ground arith

  pub IsMade-copy_slice :
      (copy : A → A) (o : Option Slice) (m : Memory A) (old : Option Slice)
      → IsMade m old
      → IsMade (copy_slice copy o m).1 old
  unfolding copy_slice allocate
  IsMade-copy_slice copy none m old made = made
  IsMade-copy_slice copy (some s) m none made = tt
  IsMade-copy_slice copy (some s) m (some t) made = ground (arith, made)
