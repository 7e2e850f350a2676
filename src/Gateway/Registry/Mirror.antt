-- ===== src/Gateway/Registry/Mirror.antt =====
-- The registry against the last answer of the Kubernetes API.
use mathlib.Core.Option
use portkeeper.Common.{ℕ, String, ◌≡◌, refl, Option, none, some, List, [], ◌∷◌}
use portkeeper.Common.Dict.{lookup}
use portkeeper.Api.{Condition, McpServer}
use portkeeper.Gateway.Registry.{
  NamespacedName, name_equal, Backend, Registry, new_registry, backend_of, refresh,
}
use portkeeper.Gateway.Registry.Refresh.{
  Poll, last_success, latest, lookup-refresh, poll_all, IsSnapshot, polls-IsSnapshot,
}

-- When the last call that succeeded began, and the items that it returned.
unfoldable pub last_answer : Option (ℕ × List McpServer) → List Poll → Option (ℕ × List McpServer)
last_answer held [] = held
last_answer held (p ∷ ps) =
    last_answer (elim p.items [ none ↦ held | some items ↦ some (p.at, items) ]) ps

module _ (find : List Condition → String → Option Condition) (host : String) where
  -- The backend that an answer has under a key: that of the last of its items with the key.
  unfoldable pub listed : Option (ℕ × List McpServer) → NamespacedName → Option Backend
  listed none k = none
  listed (some (at, items)) k = Option.map (backend_of find host at) (latest k items)

  -- The registry is what the polls have left: under each key the backend that the last answer lists there,
  -- and nothing else.
  pub record Mirrors (ps : List Poll) (r : Registry) : Type 0 where
    pub snapshot : IsSnapshot (last_success none ps) r
    pub content : (k : NamespacedName) → lookup k r.backends ≡ listed (last_answer none ps) k

  refresh-listed :
      (at : ℕ) (items : Option (List McpServer)) (held : Option (ℕ × List McpServer)) (r : Registry)
      → ((k : NamespacedName) → lookup k r.backends ≡ listed held k)
      → (k : NamespacedName)
      → lookup k (refresh find host at items r).backends
        ≡ listed (elim items [ none ↦ held | some items ↦ some (at, items) ]) k
  unfolding listed
  refresh-listed at none held r same k = unfold refresh in same k
  refresh-listed at (some items) held r same k = lookup-refresh find host at items r k

  poll_all-listed :
      (ps : List Poll) (held : Option (ℕ × List McpServer)) (r : Registry)
      → ((k : NamespacedName) → lookup k r.backends ≡ listed held k)
      → (k : NamespacedName)
      → lookup k (poll_all find host ps r).backends ≡ listed (last_answer held ps) k
  unfolding poll_all last_answer
  poll_all-listed [] held r same k = same k
  poll_all-listed (p ∷ ps) held r same k =
      poll_all-listed ps _ (refresh find host p.at p.items r)
        (refresh-listed p.at p.items held r same) k

  -- After any sequence of polls the registry holds, under every key, the backend of the last item with
  -- that key in the last answer that succeeded, and nothing where there is none; its keys are distinct, all
  -- of its policies were observed when that call began, and it is synced exactly if a call succeeded.
  pub polls-Mirrors : (ps : List Poll) → Mirrors ps (poll_all find host ps new_registry)
  polls-Mirrors ps = record {
    snapshot = polls-IsSnapshot find host ps;
    content = poll_all-listed ps none new_registry (λ k. unfold new_registry lookup listed in refl);
  }
