-- ===== src/Api/Readiness.antt =====
-- When a resource is ready for traffic.
use portkeeper.Common.{
  String, true, false, ◌≡◌, refl, Option, none, some, List, arith, string_equal, Option-cases, inl,
  inr,
}
use portkeeper.Common.Int.{int_equal}
use portkeeper.Api.{Condition, McpServer, mcp_server_ready, condition_true, is_ready}
use mathlib.Core.List.{Mem}

-- What the documentation of `meta.FindStatusCondition` says: the condition of that type, if the list has one.
pub record FindsCondition (find : List Condition → String → Option Condition) : Type 0 where
  pub found :
      (cs : List Condition) (kind : String) (c : Condition)
      → find cs kind ≡ some c
      → Mem c cs × (c.kind ≡ kind)

-- What it takes to be ready.
pub record IsServing (m : McpServer) (c : Condition) : Type 0 where
  pub present : m.deleting ≡ false
  pub reconciled : m.status.observed_generation ≡ m.generation
  pub listed : Mem c m.status.conditions
  pub kind : c.kind ≡ mcp_server_ready
  pub holds : c.status ≡ condition_true
  pub current : c.observed_generation ≡ m.generation

-- A resource is ready only if it is not being deleted, its status is of its current generation, and a
-- Ready condition of its status holds for that generation; no resource is not ready.
pub is_ready-IsServing :
    (find : List Condition → String → Option Condition) (m : Option McpServer)
    → FindsCondition find
    → is_ready find m ≡ true
    → (s : McpServer) × (c : Condition) × (m ≡ some s) × IsServing s c
unfolding is_ready
is_ready-IsServing find none f h = cc
is_ready-IsServing find (some m) f h =
    elim (Option-cases (find m.status.conditions mcp_server_ready)) [
      | inl missing ↦ ground arith
      | inr (c, e) ↦ (
        m,
        c,
        refl,
        record {
          present = ground arith;
          reconciled =
              ground (arith, int_equal.equal_iff m.status.observed_generation m.generation);
          listed = (f.found m.status.conditions mcp_server_ready c e).0;
          kind = (f.found m.status.conditions mcp_server_ready c e).1;
          holds = ground (arith, string_equal.equal_iff c.status condition_true);
          current = ground (arith, int_equal.equal_iff c.observed_generation m.generation);
        },
      )
    ]
