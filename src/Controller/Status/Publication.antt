-- ===== src/Controller/Status/Publication.antt =====
-- What the gateway reads from the status that the controller writes.
use portkeeper.Common.{String, Bool, true, false, ◌≡◌, ◌↔◌, Option, some, List, arith, string_equal}
use portkeeper.Common.Int.{ℤ, int_equal}
use portkeeper.Api.{Condition, McpServer, mcp_server_ready, is_ready}
use portkeeper.Controller.{Deployment}
use portkeeper.Controller.Status.{Verdict, deployment_readiness, with_status}
use portkeeper.Controller.Status.Rollout.{IsRolledOut, deployment_readiness-Reports}

-- What the documentation of `SetStatusCondition` and `FindStatusCondition` says: the condition that was
-- set is the one that is found.
pub record SetsCondition (find : List Condition → String → Option Condition)
    (set : List Condition → Condition → List Condition) : Type 0 where
  pub set_found : (cs : List Condition) (c : Condition) → find (set cs c) c.kind ≡ some c

abbrev pub published : McpServer → Verdict → Condition
published m v = record {
  kind = mcp_server_ready;
  status = v.status;
  observed_generation = m.generation;
  reason = v.reason;
  message = v.message;
}

pub with_status-is_ready :
    (find : List Condition → String → Option Condition)
    (set : List Condition → Condition → List Condition) (m : McpServer) (v : Verdict)
    → SetsCondition find set
    → (is_ready find (some (with_status set m v)) ≡ true)
      ↔ ((m.deleting ≡ false) × (v.status ≡ "True"))
unfolding is_ready with_status
with_status-is_ready find set m v s = rw (s.set_found m.status.conditions (published m v)) (
    ground (
      arith,
      int_equal.equal_iff m.generation m.generation,
      string_equal.equal_iff v.status "True",
    ))

-- Once the controller has published the verdict on a Deployment, the gateway takes the resource for
-- ready exactly if the resource is not being deleted and the rollout of the Deployment is complete.
pub with_status-IsRolledOut :
    (find : List Condition → String → Option Condition)
    (set : List Condition → Condition → List Condition) (m : McpServer) (dep : Deployment)
    (changed : Bool) (desired : ℤ) (v : Verdict)
    → SetsCondition find set
    → dep.spec.replicas ≡ some desired
    → deployment_readiness dep changed ≡ some v
    → (is_ready find (some (with_status set m v)) ≡ true)
      ↔ ((m.deleting ≡ false) × IsRolledOut dep changed desired)
with_status-IsRolledOut find set m dep changed desired v s wanted e =
    let (w, f, reports) = deployment_readiness-Reports dep changed desired wanted in
    let same : v ≡ w = cc in
    let holds : (v.status ≡ "True") ↔ IsRolledOut dep changed desired = rw same reports.holds in
    let ready = with_status-is_ready find set m v s in
    ((λ h. ((ready.0 h).0, holds.0 (ready.0 h).1)), λ h. ready.1 (h.0, holds.1 h.1))
