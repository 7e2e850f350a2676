-- ===== src/Command/Toy.antt =====
-- hack/toy-mcp-server/main.go: the handlers, on a body of bytes. A body that cannot be read is `none`.
pub mod Reversal
use portkeeper.Common.{
  ℕ, zero, suc, ◌+◌, ◌-◌, String, Bool, Option, none, some, List, [], ◌∷◌, if◌then◌else◌, ltb,
  length, get_elem?,
}

pub data Response : Type 0 where
  wrote : List ℕ → Response
  refused : (status : ℕ) → Response

unfoldable pub set : List ℕ → ℕ → ℕ → List ℕ
set [] i v = []
set (x ∷ xs) zero v = v ∷ xs
set (x ∷ xs) (suc i) v = x ∷ set xs i v

exchanged : List ℕ → ℕ → ℕ → Option ℕ → Option ℕ → List ℕ
exchanged a i j (some x) (some y) = set (set a i y) j x
exchanged a i j _ _ = a

-- `body[i], body[j] = body[j], body[i]`, at indices in range
unfoldable pub swap : List ℕ → ℕ → ℕ → List ℕ
unfolding exchanged
swap a i j = exchanged a i j (get_elem? a i) (get_elem? a j)

-- The loop, with fuel. Of an empty body the source's `j` is -1, and the loop ends at once too.
unfoldable pub reverse_loop : (fuel i j : ℕ) → List ℕ → List ℕ
reverse_loop zero i j body = body
reverse_loop (suc fuel) i j body =
    let rest = reverse_loop fuel (i + 1) (j - 1) (swap body i j) in if ltb i j then rest else body

-- A turn brings both ends one step closer, so that as many turns as there are bytes are enough.
unfoldable pub reverse_string : Option (List ℕ) → Response
reverse_string none = refused 400
reverse_string (some body) = wrote (reverse_loop (length body) 0 (length body - 1) body)

unfoldable pub echo : Option (List ℕ) → Response
echo none = refused 400
echo (some body) = wrote body
