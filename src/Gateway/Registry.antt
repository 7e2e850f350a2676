-- ===== src/Gateway/Registry.antt =====
-- internal/gateway/registry.go: the gateway's snapshot of the MCPServer resources. A poll is given
-- what the Kubernetes client returned, the clock and the environment; times are in nanoseconds.
pub mod Resolve
pub mod Refresh
pub mod Mirror
pub mod Polling
use portkeeper.Common.{
  ℕ, String, Bool, true, false, ◌&&◌, ◌≡◌, ◌↔◌, ap, arith, Option, none, some, List, [], ◌∷◌, ◌==◌,
  if◌then◌else◌, any, Equal, string_equal,
}
use portkeeper.Common.Dict.{lookup, insert}
use portkeeper.Common.Text.{append}
use portkeeper.Common.Text.Decimal.{show_ℤ}
use portkeeper.Api.{Condition, ServiceAccountReference, McpServer, is_ready}
use text.Mathlib.TextEquality.{eq_iff}

pub record NamespacedName : Type 0 where
  pub namespace : String
  pub name : String

abbrev pub same_name : NamespacedName → NamespacedName → Bool
same_name a b = a.namespace == b.namespace && a.name == b.name

pub same_name_iff : (a b : NamespacedName) → (same_name a b ≡ true) ↔ (a ≡ b)
same_name_iff a b = ground (arith, eq_iff a.namespace b.namespace, eq_iff a.name b.name)

instance abbrev pub name_equal : Equal NamespacedName
name_equal = record { equal = same_name; equal_iff = same_name_iff }

pub record Backend : Type 0 where
  pub namespace : String
  pub name : String
  pub address : String
  pub ready : Bool
  pub allowed_service_accounts : List ServiceAccountReference
  pub policy_observed_at : ℕ

-- 15 seconds
abbrev pub policy_max_age : ℕ
policy_max_age = 15_000_000_000

-- The user name under which Kubernetes knows a ServiceAccount.
unfoldable pub principal_of : String → String → String
principal_of namespace name = append (append (append "system:serviceaccount:" namespace) ":") name

unfoldable pub allows : Backend → String → Bool
unfolding principal_of
allows b principal =
    any (λ account. principal == principal_of account.namespace account.name)
      b.allowed_service_accounts

pub data Resolution : Type 0 where
  found : Backend → Resolution
  not_found ambiguous : Resolution

pub record Registry : Type 0 where
  pub backends : List (NamespacedName × Backend)
  pub synced : Bool

unfoldable pub new_registry : Registry
new_registry = record { backends = []; synced = false }

-- "<service>.<namespace>.svc.cluster.local:<port>", or the override and the port.
unfoldable pub address_of : String → McpServer → String
address_of host_override item =
    if host_override == ""
    then append
        (append (append (append (append item.name "-svc.") item.namespace) ".svc.cluster.local")
          ":")
        (show_ℤ item.spec.port)
    else append (append host_override ":") (show_ℤ item.spec.port)

abbrev pub key_of : McpServer → NamespacedName
key_of item = record { namespace = item.namespace; name = item.name }

module _ (find_status_condition : List Condition → String → Option Condition) where
  unfoldable pub backend_of : (host_override : String) (observed_at : ℕ) → McpServer → Backend
  backend_of host_override observed_at item = record {
    namespace = item.namespace;
    name = item.name;
    address = address_of host_override item;
    ready = is_ready find_status_condition (some item);
    allowed_service_accounts = item.spec.allowed_service_accounts;
    policy_observed_at = observed_at;
  }

  -- The loop over the items.
  collect :
      (host_override : String) (observed_at : ℕ)
      → List McpServer
      → List (NamespacedName × Backend)
      → List (NamespacedName × Backend)
  collect host observed_at [] next = next
  collect host observed_at (item ∷ items) next =
      collect host observed_at items (insert (key_of item) (backend_of host observed_at item) next)

  -- `none` is a failed list call.
  unfoldable pub refresh :
      (host_override : String) (observed_at : ℕ) → Option (List McpServer) → Registry → Registry
  unfolding collect
  refresh host observed_at none r = r
  refresh host observed_at (some items) r = record {
    backends = collect host observed_at items [];
    synced = true;
  }

unfoldable pub has_synced : Registry → Bool
has_synced r = r.synced

-- The loop over all backends, with the match found so far.
scan : String → Option Backend → List (NamespacedName × Backend) → Resolution
scan name none [] = not_found
scan name (some b) [] = found b
scan name match ((key, b) ∷ rest) =
    let further = scan name match rest in
    let first = scan name (some b) rest in
    if key.name == name then elim match [ none ↦ first | some _ ↦ ambiguous ] else further

exact : Option Backend → Resolution
exact none = not_found
exact (some b) = found b

unfoldable pub resolve : Registry → String → String → Resolution
unfolding scan exact
resolve r namespace name =
    if namespace == ""
    then scan name none r.backends
    else exact (lookup (record { namespace = namespace; name = name }) r.backends)
