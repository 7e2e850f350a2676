-- ===== src/Benchmark/Latency/Order.antt =====
-- The sorted samples: the same values, as often, and in order.
use portkeeper.Common.{
  ℕ, zero, suc, ◌≤◌, ◌<◌, Bool, ◌≡◌, refl, ◌∙◌, List, [], ◌∷◌, some, length, get_elem?, count, All,
  All-imp, arith, inl, inr, Bool-cases, subst,
}
use portkeeper.Common.Int.{ℤ, leb_ℤ, ltb_ℤ, ◌≤ℤ◌}
use portkeeper.Benchmark.Latency.{insert_sorted, sort}

abbrev pub IsSorted : List ℤ → Type 0
IsSorted [] = Unit
IsSorted (x ∷ xs) = All (λ y. x ≤ℤ y) xs × IsSorted xs

count-insert_sorted :
    (p : ℤ → Bool) (x : ℤ) (xs : List ℤ) → count p (insert_sorted x xs) ≡ count p (x ∷ xs)
unfolding insert_sorted
count-insert_sorted p x [] = refl
count-insert_sorted p x (y ∷ ys) = ground (arith, count-insert_sorted p x ys)

pub count-sort : (p : ℤ → Bool) (xs : List ℤ) → count p (sort xs) ≡ count p xs
unfolding sort
count-sort p [] = refl
count-sort p (x ∷ xs) = count-insert_sorted p x (sort xs) ∙ omega (arith, count-sort p xs)

length-insert_sorted : (x : ℤ) (xs : List ℤ) → length (insert_sorted x xs) ≡ suc (length xs)
unfolding insert_sorted
length-insert_sorted x [] = refl
length-insert_sorted x (y ∷ ys) = ground (arith, length-insert_sorted x ys)

pub length-sort : (xs : List ℤ) → length (sort xs) ≡ length xs
unfolding sort
length-sort [] = refl
length-sort (x ∷ xs) = omega (arith, length-insert_sorted x (sort xs), length-sort xs)

All-insert_sorted :
    (b x : ℤ) (xs : List ℤ) → b ≤ℤ x → All (λ y. b ≤ℤ y) xs → All (λ y. b ≤ℤ y) (insert_sorted x xs)
unfolding insert_sorted
All-insert_sorted b x [] h a = (h, tt)
All-insert_sorted b x (y ∷ ys) h a = elim (Bool-cases (leb_ℤ x y)) [
  | inl low ↦ rw low (h, a)
  | inr high ↦ rw high (a.0, All-insert_sorted b x ys h a.1)
]

insert_sorted-IsSorted : (x : ℤ) (xs : List ℤ) → IsSorted xs → IsSorted (insert_sorted x xs)
unfolding insert_sorted
insert_sorted-IsSorted x [] s = (tt, tt)
insert_sorted-IsSorted x (y ∷ ys) s = elim (Bool-cases (leb_ℤ x y)) [
  | inl low ↦
      let first : x ≤ℤ y = ground arith in
      rw low
        ((first, All-imp (λ z. y ≤ℤ z) (λ z. x ≤ℤ z) (λ z h. omega (arith, first, h)) ys s.0), s)
  | inr high ↦
      let first : y ≤ℤ x = ground arith in
      rw high (All-insert_sorted y x ys first s.0, insert_sorted-IsSorted x ys s.1)
]

pub sort-IsSorted : (xs : List ℤ) → IsSorted (sort xs)
unfolding sort
sort-IsSorted [] = tt
sort-IsSorted (x ∷ xs) = insert_sorted-IsSorted x (sort xs) (sort-IsSorted xs)

get_elem?-All :
    (b v : ℤ) (xs : List ℤ) (i : ℕ) → All (λ y. b ≤ℤ y) xs → get_elem? xs i ≡ some v → b ≤ℤ v
get_elem?-All b v [] i a h = cc
get_elem?-All b v (x ∷ xs) zero a h = ground (arith, a.0)
get_elem?-All b v (x ∷ xs) (suc i) a h = get_elem?-All b v xs i a.1 h

none_below : (v : ℤ) (xs : List ℤ) → All (λ y. v ≤ℤ y) xs → count (λ y. ltb_ℤ y v) xs ≡ 0
none_below v [] a = refl
none_below v (x ∷ xs) a = ground (arith, a.0, none_below v xs a.1)

-- At index i of a sorted list stands a value with at most i values below it, and more than i values
-- that are not above it.
pub IsSorted-rank :
    (xs : List ℤ) (i : ℕ) (v : ℤ)
    → IsSorted xs
    → get_elem? xs i ≡ some v
    → (count (λ y. ltb_ℤ y v) xs ≤ i) × (i < count (λ y. leb_ℤ y v) xs)
IsSorted-rank [] i v s h = cc
IsSorted-rank (x ∷ xs) zero v s h =
    let same : x ≡ v = ground arith in
    let none_less = none_below v xs (subst (λ z. All (λ y. z ≤ℤ y) xs) same s.0) in
    ground (arith, same, none_less)
IsSorted-rank (x ∷ xs) (suc i) v s h =
    let below : x ≤ℤ v = get_elem?-All x v xs i s.0 h in
    let (few, many) = IsSorted-rank xs i v s.1 h in ground (arith, below, few, many)

pub get_elem?-lt : (xs : List ℤ) (i : ℕ) → i < length xs → (v : ℤ) × (get_elem? xs i ≡ some v)
get_elem?-lt [] i h = absurd (omega arith)
get_elem?-lt (x ∷ xs) zero h = (x, refl)
get_elem?-lt (x ∷ xs) (suc i) h = get_elem?-lt xs i (omega arith)
