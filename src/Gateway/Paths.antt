-- ===== src/Gateway/Paths.antt =====
-- `parsePath` of internal/gateway/router.go: the routing part of a request path.
pub mod Laws
use portkeeper.Common.{
  String, Bool, true, false, ◌&&◌, not, Option, none, some, List, [], ◌∷◌, if◌then◌else◌, ◌==◌,
  string_equal, any, length, nat_equal,
}
use portkeeper.Common.Text.{split, trim, is_char}

pub record Target : Type 0 where
  pub namespace : String
  pub server : String
  pub tool : String

-- Three parts are a namespaced route, two a legacy route.
by_parts : List String → Option Target
by_parts (server ∷ tool ∷ []) = some (record { namespace = ""; server = server; tool = tool })
by_parts (namespace ∷ server ∷ tool ∷ []) =
    some (record { namespace = namespace; server = server; tool = tool })
by_parts _ = none

unfoldable pub from_parts : List String → Option Target
unfolding by_parts
from_parts parts =
    if not (length parts == 2) && not (length parts == 3)
    then none
    else if any (λ part. part == "") parts
    then none
    else by_parts parts

unfoldable pub parse_path : String → Option Target
parse_path path = from_parts (split "/" (trim (is_char "/") path))
