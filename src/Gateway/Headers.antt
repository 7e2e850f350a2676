-- ===== src/Gateway/Headers.antt =====
-- `http.Header` of Go's net/http, by canonical names: what the router reads and writes.
use portkeeper.Common.{
  String, ◌≡◌, ◌≢◌, refl, List, [], ◌∷◌, ◌==◌, arith, if◌then◌else◌, string_equal,
}

abbrev pub Headers : Type 0
Headers = List (String × String)

-- `h.Values(name)`
unfoldable pub values : String → Headers → List String
values name [] = []
values name ((n, v) ∷ h) = if n == name then v ∷ values name h else values name h

-- `h.Del(name)`
unfoldable pub del : String → Headers → Headers
del name [] = []
del name ((n, v) ∷ h) = if n == name then del name h else (n, v) ∷ del name h

-- `h.Set(name, value)`
unfoldable pub set : String → String → Headers → Headers
set name value h = (name, value) ∷ del name h

pub values-del_self : (name : String) (h : Headers) → values name (del name h) ≡ []
unfolding values del
values-del_self name [] = refl
values-del_self name ((n, v) ∷ h) = ground (arith, values-del_self name h)

pub values-del_other :
    (name other : String) (h : Headers) → other ≢ name → values other (del name h) ≡ values other h
unfolding values del
values-del_other name other [] ne = refl
values-del_other name other ((n, v) ∷ h) ne = ground (
  arith,
  values-del_other name other h,
  string_equal.equal_iff n name,
  string_equal.equal_iff n other,
)

pub values-set_self :
    (name value : String) (h : Headers) → values name (set name value h) ≡ value ∷ []
unfolding set values
values-set_self name value h =
    ground (arith, values-del_self name h, string_equal.equal_iff name name)

pub values-set_other :
    (name other value : String) (h : Headers)
    → other ≢ name
    → values other (set name value h) ≡ values other h
unfolding set values
values-set_other name other value h ne =
    ground (arith, values-del_other name other h, string_equal.equal_iff name other)
