-- ===== src/Command/Toy/Reversal.antt =====
-- The loop of hack/toy-mcp-server reverses.
use mathlib.Core.List.{reverse, reverse-append, append_assoc, append-nil}
use portkeeper.Common.{
  ℕ, zero, suc, ◌+◌, ◌-◌, ◌≤◌, true, false, ◌≡◌, refl, sym, ap, ◌∙◌, ◌⊎◌, inl, inr, some, List, [],
  ◌∷◌, ◌++◌, if_false, if_true, ltb, length, get_elem?, length-append, arith,
}
use portkeeper.Command.Toy.{set, exchanged, swap, reverse_loop, wrote, reverse_string}

get_elem?-middle :
    (pre : List ℕ) (x : ℕ) (post : List ℕ) → get_elem? (pre ++ x ∷ post) (length pre) ≡ some x
get_elem?-middle [] x post = refl
get_elem?-middle (p ∷ pre) x post = get_elem?-middle pre x post

set-middle :
    (pre : List ℕ) (x v : ℕ) (post : List ℕ)
    → set (pre ++ x ∷ post) (length pre) v ≡ pre ++ v ∷ post
unfolding set
set-middle [] x v post = refl
set-middle (p ∷ pre) x v post = ap (◌∷◌ p) (set-middle pre x v post)

-- The bytes at the two ends of a part trade places.
swap_lem :
    (pre : List ℕ) (x : ℕ) (mid : List ℕ) (y : ℕ) (post : List ℕ)
    → swap (pre ++ x ∷ (mid ++ y ∷ post)) (length pre) (length (pre ++ x ∷ mid))
      ≡ pre ++ y ∷ (mid ++ x ∷ post)
unfolding swap exchanged
swap_lem pre x mid y post =
    let i : ℕ = length pre in
    let j : ℕ = length (pre ++ x ∷ mid) in
    let split = λ (z w : ℕ). sym (append_assoc pre (z ∷ mid) (w ∷ post)) in
    let got = ap (λ l. get_elem? l j) (split x y) ∙ get_elem?-middle (pre ++ x ∷ mid) y post in
    let same : j ≡ length (pre ++ y ∷ mid) =
      length-append pre (x ∷ mid) ∙ sym (length-append pre (y ∷ mid)) in
    rw (get_elem?-middle pre x (mid ++ y ∷ post), got)
      (ap (λ l. set l j x) (set-middle pre x y (mid ++ y ∷ post) ∙ split y y)
        ∙ ap (λ k. set ((pre ++ y ∷ mid) ++ y ∷ post) k x) same
        ∙ set-middle (pre ++ y ∷ mid) y x post
        ∙ append_assoc pre (y ∷ mid) (x ∷ post))

-- A list that is not empty ends in an entry.
last_entry : (x : ℕ) (xs : List ℕ) → (xs ≡ []) ⊎ ((mid : List ℕ) × (y : ℕ) × (xs ≡ mid ++ y ∷ []))
last_entry x [] = inl refl
last_entry x (z ∷ xs) = elim (last_entry z xs) [
  | inl alone ↦ inr ([], z, ap (◌∷◌ z) alone)
  | inr (mid, y, e) ↦ inr (z ∷ mid, y, ap (◌∷◌ z) e)
]

stays : (fuel i j : ℕ) (body : List ℕ) → j ≤ i → reverse_loop fuel i j body ≡ body
unfolding reverse_loop
stays zero i j body h = refl
stays (suc fuel) i j body h = let ended : ltb i j ≡ false = ground arith in if_false _ _ ended

reverse-ends :
    (x : ℕ) (mid : List ℕ) (y : ℕ) (post : List ℕ)
    → reverse (x ∷ (mid ++ y ∷ [])) ++ post ≡ y ∷ (reverse mid ++ x ∷ post)
reverse-ends x mid y post =
    ap (λ l. l ++ post)
      (reverse-append (x ∷ []) (mid ++ y ∷ [])
        ∙ ap (λ l. l ++ x ∷ []) (reverse-append mid (y ∷ [])))
    ∙ append_assoc (y ∷ reverse mid) (x ∷ []) post

-- A turn of the loop.
reverse_loop-turn :
    (fuel : ℕ) (pre : List ℕ) (x : ℕ) (mid : List ℕ) (y : ℕ) (post : List ℕ)
    → reverse_loop
        (suc fuel)
        (length pre)
        (length pre + length (x ∷ (mid ++ y ∷ [])) - 1)
        (pre ++ ((x ∷ (mid ++ y ∷ [])) ++ post))
      ≡ reverse_loop fuel
          (length (pre ++ y ∷ []))
          (length (pre ++ y ∷ []) + length mid - 1)
          ((pre ++ y ∷ []) ++ (mid ++ x ∷ post))
unfolding reverse_loop
reverse_loop-turn fuel pre x mid y post =
    let i : ℕ = length pre in
    let j : ℕ = i + length (x ∷ (mid ++ y ∷ [])) - 1 in
    let inner = length-append mid (y ∷ []) in
    let going : ltb i j ≡ true = ground (arith, inner) in
    let at_end : j ≡ length (pre ++ x ∷ mid) = omega (arith, inner, length-append pre (x ∷ mid)) in
    let i_next : i + 1 ≡ length (pre ++ y ∷ []) = omega (arith, length-append pre (y ∷ [])) in
    let j_next : j - 1 ≡ length (pre ++ y ∷ []) + length mid - 1 =
      omega (arith, inner, length-append pre (y ∷ [])) in
    let swapped : swap (pre ++ ((x ∷ (mid ++ y ∷ [])) ++ post)) i j
        ≡ (pre ++ y ∷ []) ++ (mid ++ x ∷ post) =
      ap (λ l. swap (pre ++ x ∷ l) i j) (append_assoc mid (y ∷ []) post)
      ∙ ap (swap (pre ++ x ∷ (mid ++ y ∷ post)) i) at_end
      ∙ swap_lem pre x mid y post
      ∙ sym (append_assoc pre (y ∷ []) (mid ++ x ∷ post)) in
    if_true _ _ going
    ∙ ap (reverse_loop fuel (i + 1) (j - 1)) swapped
    ∙ ap (λ k. reverse_loop fuel k (j - 1) ((pre ++ y ∷ []) ++ (mid ++ x ∷ post))) i_next
    ∙ ap (λ k. reverse_loop fuel (length (pre ++ y ∷ [])) k ((pre ++ y ∷ []) ++ (mid ++ x ∷ post)))
        j_next

-- With the first `length pre` bytes and as many at the end done, the loop reverses what is between.
reverse_loop-middle :
    (fuel : ℕ) (pre mid post : List ℕ)
    → length mid ≤ fuel
    → reverse_loop fuel (length pre) (length pre + length mid - 1) (pre ++ (mid ++ post))
      ≡ pre ++ (reverse mid ++ post)
reverse_loop-middle fuel pre [] post h =
    stays fuel (length pre) (length pre + 0 - 1) (pre ++ post) (omega arith)
reverse_loop-middle zero pre (x ∷ xs) post h = absurd (omega (arith, h))
reverse_loop-middle (suc fuel) pre (x ∷ xs) post h = elim (last_entry x xs) [
  | inl alone ↦
      rw alone (stays (suc fuel) (length pre) (length pre + 1 - 1) (pre ++ x ∷ post) (omega arith))
  | inr (mid, y, e) ↦
      let short : length mid ≤ fuel = omega (arith, h, ap length e, length-append mid (y ∷ [])) in
      rw e (
        reverse_loop-turn fuel pre x mid y post
        ∙ reverse_loop-middle fuel (pre ++ y ∷ []) mid (x ∷ post) short
        ∙ append_assoc pre (y ∷ []) (reverse mid ++ x ∷ post)
        ∙ ap (◌++◌ pre) (sym (reverse-ends x mid y post)))
]

-- With as much fuel as there are bytes, the loop over the two indices reverses the body; so the handler
-- writes the body backwards, whatever its length.
pub reverse_string_lem :
    (fuel : ℕ) (body : List ℕ)
    → length body ≤ fuel
    → (reverse_loop fuel 0 (length body - 1) body ≡ reverse body)
      × (reverse_string (some body) ≡ wrote (reverse body))
unfolding reverse_string
reverse_string_lem fuel body h =
    let reversed : (n : ℕ)
        → length body ≤ n
        → reverse_loop n 0 (length body - 1) body ≡ reverse body =
      λ n k.
        ap (λ l. reverse_loop n 0 (length body - 1) l) (sym (append-nil body))
        ∙ ap (λ j. reverse_loop n 0 j (body ++ [])) (omega arith)
        ∙ reverse_loop-middle n [] body [] k
        ∙ append-nil (reverse body) in
    (reversed fuel h, ap wrote (reversed (length body) (omega arith)))
