-- ===== src/Gateway/Paths/Laws.antt =====
-- Which paths the router accepts, and what it reads from them.
use portkeeper.Common.{
  String, false, ◌≡◌, ◌≢◌, refl, ap, ◌∙◌, sym, some, List, [], ◌∷◌, if◌then◌else◌, ◌==◌,
  string_equal, arith, ◌⊎◌, All, Bool-cases, inl, inr,
}
use text.Mathlib.TextEquality.{eq_iff}
use portkeeper.Common.Text.{append, split, trim, is_char}
use portkeeper.Common.Text.Split.{
  Lacks, split-append, split_of_Lacks, split-Lacks, join, join-split,
}
use portkeeper.Common.Text.Trim.{Ends-of_Lacks, Ends-cons, Ends-append, trim-append}
use portkeeper.Gateway.Paths.{Target, from_parts, parse_path}

abbrev pub slash : String → String
slash s = String.◌∷◌ "/" s

-- A part of a path: not empty, and without a slash.
abbrev pub IsSegment : String → Type 0
IsSegment s = (s ≢ "") × Lacks "/" s

test_ne : (s : String) → s ≢ "" → (s == "") ≡ false
test_ne s h = ground (arith, eq_iff s "")

trim_legacy :
    (server tool : String)
    → IsSegment server
    → IsSegment tool
    → split "/" (trim (is_char "/") (slash (append server (slash tool)))) ≡ server ∷ tool ∷ []
trim_legacy server tool (ns, ls) (nt, lt) =
    ap (split "/") (
      trim-append "/" server (slash tool) ns ls
        (Ends-cons "/" "/" tool (Ends-of_Lacks "/" tool nt lt)))
    ∙ split-append "/" server tool
    ∙ rw (split_of_Lacks "/" server ls, split_of_Lacks "/" tool lt) refl

trim_namespaced :
    (namespace server tool : String)
    → IsSegment namespace
    → IsSegment server
    → IsSegment tool
    → split "/" (trim (is_char "/") (slash (append namespace (slash (append server (slash tool))))))
      ≡ namespace ∷ server ∷ tool ∷ []
trim_namespaced namespace server tool (nn, ln) (ns, ls) (nt, lt) =
    let ends =
      Ends-append "/" server (slash tool) (Ends-cons "/" "/" tool (Ends-of_Lacks "/" tool nt lt)) in
    ap (split "/") (
      trim-append "/" namespace (slash (append server (slash tool))) nn ln
        (Ends-cons "/" "/" _ ends))
    ∙ split-append "/" namespace (append server (slash tool))
    ∙ rw
        (
          split-append "/" server tool,
          split_of_Lacks "/" namespace ln,
          split_of_Lacks "/" server ls,
          split_of_Lacks "/" tool lt,
        )
        refl

-- A target as the router's documentation writes it, without the leading slash.
pub print : Target → String
print t =
    if t.namespace == ""
    then append t.server (slash t.tool)
    else append t.namespace (slash (append t.server (slash t.tool)))

-- The parts of a target are segments; a legacy target has no namespace.
pub record IsTarget (t : Target) : Type 0 where
  pub server : IsSegment t.server
  pub tool : IsSegment t.tool
  pub namespace : (t.namespace ≡ "") ⊎ IsSegment t.namespace

from_parts_two :
    (server tool : String)
    → server ≢ ""
    → tool ≢ ""
    → from_parts (server ∷ tool ∷ [])
      ≡ some (record { namespace = ""; server = server; tool = tool })
unfolding from_parts
from_parts_two server tool ns nt = rw (test_ne server ns, test_ne tool nt) refl

from_parts_three :
    (namespace server tool : String)
    → namespace ≢ ""
    → server ≢ ""
    → tool ≢ ""
    → from_parts (namespace ∷ server ∷ tool ∷ [])
      ≡ some (record { namespace = namespace; server = server; tool = tool })
unfolding from_parts
from_parts_three namespace server tool nn ns nt =
    rw (test_ne namespace nn, test_ne server ns, test_ne tool nt) refl

-- Reading a printed target, with the leading slash, gives it back.
pub parse_path-print : (t : Target) → IsTarget t → parse_path (slash (print t)) ≡ some t
unfolding parse_path print
parse_path-print t v = elim (Bool-cases (t.namespace == "")) [
  | inl legacy ↦
      rw (legacy, if◌then◌else◌)
        (ap from_parts (trim_legacy t.server t.tool v.server v.tool)
          ∙ from_parts_two t.server t.tool v.server.0 v.tool.0
          ∙ ap (λ (n : String). some (record t { namespace = n }))
              (sym ((eq_iff t.namespace "").0 legacy)))
  | inr spaced ↦ elim v.namespace [
    | inl e ↦ absurd (ground (arith, eq_iff t.namespace ""))
    | inr segment ↦
        rw (spaced, if◌then◌else◌)
          (ap from_parts (trim_namespaced t.namespace t.server t.tool segment v.server v.tool)
            ∙ from_parts_three t.namespace t.server t.tool segment.0 v.server.0 v.tool.0)
  ]
]

two_parts :
    (a b : String) (t : Target)
    → from_parts (a ∷ b ∷ []) ≡ some t
    → (a ≢ "") × (b ≢ "") × (t ≡ record { namespace = ""; server = a; tool = b })
unfolding from_parts
two_parts a b t h = ground (arith, eq_iff a "", eq_iff b "")

three_parts :
    (a b c : String) (t : Target)
    → from_parts (a ∷ b ∷ c ∷ []) ≡ some t
    → (a ≢ "") × (b ≢ "") × (c ≢ "") × (t ≡ record { namespace = a; server = b; tool = c })
unfolding from_parts
three_parts a b c t h = ground (arith, eq_iff a "", eq_iff b "", eq_iff c "")

-- What the parts of a path make, whatever their number.
from_parts-IsTarget :
    (parts : List String) (t : Target)
    → All (Lacks "/") parts
    → from_parts parts ≡ some t
    → IsTarget t × (join "/" parts ≡ print t)
unfolding from_parts join print
from_parts-IsTarget [] t l h = cc
from_parts-IsTarget (a ∷ []) t l h = cc
from_parts-IsTarget (a ∷ b ∷ []) t (la, (lb, _)) h =
    let (na, nb, same) = two_parts a b t h in
    rw same (record { server = (na, la); tool = (nb, lb); namespace = inl refl }, refl)
from_parts-IsTarget (a ∷ b ∷ c ∷ []) t (la, (lb, (lc, _))) h =
    let (na, nb, nc, same) = three_parts a b c t h in
    rw same (
      record { server = (nb, lb); tool = (nc, lc); namespace = inr (na, la) },
      rw (test_ne a na) refl,
    )
from_parts-IsTarget (a ∷ b ∷ c ∷ d ∷ more) t l h = ground arith

-- What the router accepts is a printed target, once the slashes around it are off.
pub parse_path-IsTarget :
    (path : String) (t : Target)
    → parse_path path ≡ some t
    → IsTarget t × (trim (is_char "/") path ≡ print t)
unfolding parse_path
parse_path-IsTarget path t h =
    let (target, printed) =
      from_parts-IsTarget (split "/" (trim (is_char "/") path)) t
        (split-Lacks "/" (trim (is_char "/") path)) h in
    (target, sym (join-split "/" (trim (is_char "/") path)) ∙ printed)
