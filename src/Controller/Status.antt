-- ===== src/Controller/Status.antt =====
-- `deploymentReadiness` and `updateStatus` of internal/controller/mcpserver_controller.go: the status
-- that the controller reads from a Deployment and writes into the resource. `SetStatusCondition` of
-- k8s.io/apimachinery is a parameter.
pub mod Rollout
pub mod Publication
use portkeeper.Common.{
  String, Bool, ◌&&◌, ◌||◌, not, Option, none, some, List, [], ◌∷◌, ◌==◌, if◌then◌else◌,
  string_equal,
}
use portkeeper.Common.Int.{ℤ, pos, int_equal, leb_ℤ, ltb_ℤ}
use portkeeper.Api.{McpServer, Condition, mcp_server_ready}
use portkeeper.Controller.{DeploymentCondition, DeploymentStatus, Deployment}

-- The phase, and the Ready condition.
pub record Verdict : Type 0 where
  pub phase : String
  pub status : String
  pub reason : String
  pub message : String

abbrev pub deployment_available : Verdict
deployment_available = record {
  phase = "Ready";
  status = "True";
  reason = "DeploymentAvailable";
  message = "The desired Deployment replicas are updated, ready, and available";
}

abbrev pub deployment_unavailable : Verdict
deployment_unavailable = record {
  phase = "Pending";
  status = "False";
  reason = "DeploymentUnavailable";
  message = "Waiting for the desired Deployment replicas to be updated, ready, and available";
}

abbrev pub progressing : Verdict
progressing = record {
  phase = "Pending";
  status = "False";
  reason = "Progressing";
  message = "Waiting for the Deployment controller to observe the desired workload";
}

abbrev pub is_failure : DeploymentCondition → Bool
is_failure c =
    (c.kind == "Progressing" && c.status == "False" && c.reason == "ProgressDeadlineExceeded")
    || (c.kind == "ReplicaFailure" && c.status == "True")

abbrev pub failure : DeploymentCondition → Verdict
failure c = record {
  phase = "Failed";
  status = "False";
  reason = if c.reason == "" then c.kind else c.reason;
  message = c.message;
}

first_failure : List DeploymentCondition → Option Verdict
first_failure [] = none
first_failure (c ∷ cs) =
    let rest = first_failure cs in if is_failure c then some (failure c) else rest

abbrev pub is_available : ℤ → DeploymentStatus → Bool
is_available desired s =
    ltb_ℤ (pos 0) desired
    && s.replicas == desired
    && s.updated_replicas == desired
    && leb_ℤ desired s.ready_replicas
    && leb_ℤ desired s.available_replicas

-- A nil `Replicas` is dereferenced: `none`.
by_replicas : DeploymentStatus → Option ℤ → Option Verdict
by_replicas s none = none
by_replicas s (some desired) =
    if is_available desired s then some deployment_available else some deployment_unavailable

by_conditions : Deployment → Option Verdict → Option Verdict
by_conditions dep (some v) = some v
by_conditions dep none = by_replicas dep.status dep.spec.replicas

unfoldable pub deployment_readiness : Deployment → (changed : Bool) → Option Verdict
unfolding first_failure by_replicas by_conditions
deployment_readiness dep changed =
    if changed || not (dep.status.observed_generation == dep.generation)
    then some progressing
    else by_conditions dep (first_failure dep.status.conditions)

-- The status that is published, if it differs.
module _ (set_status_condition : List Condition → Condition → List Condition) where
  unfoldable pub with_status : McpServer → Verdict → McpServer
  with_status m v = record m {
    status = record {
      phase = v.phase;
      observed_generation = m.generation;
      conditions = set_status_condition m.status.conditions (record {
        kind = mcp_server_ready;
        status = v.status;
        observed_generation = m.generation;
        reason = v.reason;
        message = v.message;
      });
    };
  }
