-- ===== src/Gateway/Registry/Refresh.antt =====
-- What a poll of the Kubernetes API leaves in the registry.
use mathlib.Core.Option
use portkeeper.Common.{
  ℕ, String, Bool, true, false, ◌≡◌, ◌≢◌, ◌↔◌, refl, ap, ◌∙◌, Option, none, some, List, [], ◌∷◌,
  ◌==◌, if◌then◌else◌, string_equal,
}
use portkeeper.Common.Dict.{
  lookup, insert, IsDistinct, Values, insert-IsDistinct, lookup-insert, Values-insert,
}
use portkeeper.Api.{Condition, McpServer}
use portkeeper.Gateway.Registry.{
  NamespacedName, name_equal, Backend, Registry, new_registry, key_of, backend_of, collect, refresh,
}

or_else : Option McpServer → Option McpServer → Option McpServer
or_else none other = other
or_else (some item) other = some item

-- The last of the items with a key.
unfoldable pub latest : NamespacedName → List McpServer → Option McpServer
unfolding or_else
latest k [] = none
latest k (item ∷ items) = or_else (latest k items) (if key_of item == k then some item else none)

-- A poll: when it began, and the items, or `none` for a failed call.
pub record Poll : Type 0 where
  pub at : ℕ
  pub items : Option (List McpServer)

-- When the last call that succeeded began.
unfoldable pub last_success : Option ℕ → List Poll → Option ℕ
last_success since [] = since
last_success since (p ∷ ps) = last_success (elim p.items [ none ↦ since | some _ ↦ some p.at ]) ps

module _ (find : List Condition → String → Option Condition) (host : String) where
  entry : (at : ℕ) → Option McpServer → Option Backend → Option Backend
  entry at none old = old
  entry at (some item) old = some (backend_of find host at item)

  entry-or_else :
      (at : ℕ) (hit : Bool) (item : McpServer) (o : Option McpServer) (old : Option Backend)
      → entry at o (if hit then some (backend_of find host at item) else old)
        ≡ entry at (or_else o (if hit then some item else none)) old
  unfolding entry or_else
  entry-or_else at true item none old = refl
  entry-or_else at true item (some later) old = refl
  entry-or_else at false item none old = refl
  entry-or_else at false item (some later) old = refl

  collect-lookup :
      (at : ℕ) (k : NamespacedName) (items : List McpServer)
      (next : List (NamespacedName × Backend))
      → lookup k (collect find host at items next) ≡ entry at (latest k items) (lookup k next)
  unfolding collect latest
  collect-lookup at k [] next = unfold entry in refl
  collect-lookup at k (item ∷ items) next =
      collect-lookup at k items (insert (key_of item) (backend_of find host at item) next)
      ∙ ap (entry at (latest k items))
          (lookup-insert (key_of item) k (backend_of find host at item) next)
      ∙ entry-or_else at (key_of item == k) item (latest k items) (lookup k next)

  collect-IsDistinct :
      (at : ℕ) (items : List McpServer) (next : List (NamespacedName × Backend))
      → IsDistinct next
      → IsDistinct (collect find host at items next)
  unfolding collect
  collect-IsDistinct at [] next d = d
  collect-IsDistinct at (item ∷ items) next d =
      collect-IsDistinct at items _
        (insert-IsDistinct (key_of item) (backend_of find host at item) next d)

  collect-Values :
      (at : ℕ) (items : List McpServer) (next : List (NamespacedName × Backend))
      → Values (λ b. some at ≡ some b.policy_observed_at) next
      → Values (λ b. some at ≡ some b.policy_observed_at) (collect find host at items next)
  unfolding collect backend_of
  collect-Values at [] next h = h
  collect-Values at (item ∷ items) next h = collect-Values at items _ (
      Values-insert (λ b. some at ≡ some b.policy_observed_at) (key_of item)
        (backend_of find host at item) next refl h)

  entry-none :
      (at : ℕ) (o : Option McpServer) → entry at o none ≡ Option.map (backend_of find host at) o
  unfolding entry
  entry-none at none = refl
  entry-none at (some item) = refl

  -- A poll that succeeds replaces the snapshot: under each key stands the backend of the last listed
  -- server with that key, and nothing if there is none.
  pub lookup-refresh :
      (at : ℕ) (items : List McpServer) (r : Registry) (k : NamespacedName)
      → lookup k (refresh find host at (some items) r).backends
        ≡ Option.map (backend_of find host at) (latest k items)
  unfolding refresh lookup
  lookup-refresh at items r k = collect-lookup at k items [] ∙ entry-none at (latest k items)

  -- The registry after a sequence of polls.
  unfoldable pub poll_all : List Poll → Registry → Registry
  poll_all [] r = r
  poll_all (p ∷ ps) r = poll_all ps (refresh find host p.at p.items r)

-- The keys are distinct, everything was observed at one time, and there is such a time exactly if the
-- registry is synced.
pub record IsSnapshot (since : Option ℕ) (r : Registry) : Type 0 where
  pub distinct : IsDistinct r.backends
  pub observed : Values (λ b. since ≡ some b.policy_observed_at) r.backends
  pub synced : (r.synced ≡ true) ↔ (since ≢ none)

module _ (find : List Condition → String → Option Condition) (host : String) where
  refresh-IsSnapshot :
      (at : ℕ) (items : Option (List McpServer)) (since : Option ℕ) (r : Registry)
      → IsSnapshot since r
      → IsSnapshot (elim items [ none ↦ since | some _ ↦ some at ]) (refresh find host at items r)
  unfolding refresh
  refresh-IsSnapshot at none since r s = s
  refresh-IsSnapshot at (some items) since r s = record {
    distinct = collect-IsDistinct find host at items [] tt;
    observed = collect-Values find host at items [] tt;
    synced = ((λ e. λ e. cc), λ e. refl);
  }

  poll_all-IsSnapshot :
      (ps : List Poll) (since : Option ℕ) (r : Registry)
      → IsSnapshot since r
      → IsSnapshot (last_success since ps) (poll_all find host ps r)
  unfolding poll_all last_success
  poll_all-IsSnapshot [] since r s = s
  poll_all-IsSnapshot (p ∷ ps) since r s =
      poll_all-IsSnapshot ps _ (refresh find host p.at p.items r)
        (refresh-IsSnapshot p.at p.items since r s)

  -- After any sequence of polls the registry is synced exactly if one of them succeeded, its keys are
  -- distinct, and every policy in it was observed when the last poll that succeeded began.
  pub polls-IsSnapshot :
      (ps : List Poll) → IsSnapshot (last_success none ps) (poll_all find host ps new_registry)
  unfolding new_registry
  polls-IsSnapshot ps =
      poll_all-IsSnapshot ps none (record { backends = []; synced = false })
        (record { distinct = tt; observed = tt; synced = ((λ e. cc), λ e. absurd (e refl)) })
