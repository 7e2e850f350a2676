-- ===== src/Controller/Reconcile.antt =====
-- `Reconcile` and `updateStatus` of internal/controller/mcpserver_controller.go. The Kubernetes API and
-- controller-runtime are an `Api`: what `Get` returns, what `CreateOrUpdate` comes to when it is handed
-- the function that changes the object, and what becomes of a status patch.
pub mod Publishing
pub mod Convergence
use portkeeper.Common.{
  String, Bool, true, false, Option, none, some, List, [], ◌∷◌, ◌++◌, if◌then◌else◌,
}
use portkeeper.Api.{McpServer, McpServerStatus, Condition}
use portkeeper.Controller.{
  Object, ControllerError, DeploymentSpec, Deployment, Service, mutate_deployment, mutate_service,
}
use portkeeper.Controller.Status.{Verdict, deployment_readiness, with_status}

pub data GetReply : Type 0 where
  stored : McpServer → GetReply
  missing : GetReply
  get_failed : ControllerError → GetReply

-- The Deployment as `CreateOrUpdate` leaves it, and the variable that its function sets.
pub record Applied : Type 0 where
  pub deployment : Deployment
  pub changed : Bool
  pub error : Option ControllerError

pub record Api : Type 0 where
  pub get : GetReply
  pub apply_deployment : (Deployment → (Deployment × Bool) × Option ControllerError) → Applied
  pub apply_service : (Service → Service × Option ControllerError) → Option ControllerError
  pub patch : McpServer → Option ControllerError
  pub error_text : ControllerError → String
  pub spec_equal : DeploymentSpec → DeploymentSpec → Bool
  pub status_equal : McpServerStatus → McpServerStatus → Bool
  pub set_controller_reference : McpServer → Object → Option Object
  pub set_status_condition : List Condition → Condition → List Condition

-- The patches that were sent, and the errors that are joined. `panicked` is a nil dereference.
pub data Outcome : Type 0 where
  finished : List McpServer → List ControllerError → Outcome
  panicked : Outcome

unfoldable pub errors_of : Option ControllerError → List ControllerError
errors_of none = []
errors_of (some e) = e ∷ []

-- `errors.Join(err, r.updateStatus(...))`, with no `err` for the empty list
unfoldable pub update_status : Api → List ControllerError → McpServer → Verdict → Outcome
unfolding errors_of
update_status api before m v =
    let after = with_status api.set_status_condition m v in
    if api.status_equal m.status after.status
    then finished [] before
    else finished (after ∷ []) (before ++ errors_of (api.patch after))

abbrev pub deleting_verdict : Verdict
deleting_verdict = record {
  phase = "Pending";
  status = "False";
  reason = "Deleting";
  message = "MCPServer is being deleted";
}

abbrev pub failed_verdict : String → Verdict
failed_verdict text = record {
  phase = "Failed";
  status = "False";
  reason = "ReconcileError";
  message = text;
}

abbrev pub report_failure : Api → McpServer → ControllerError → Outcome
report_failure api m e = update_status api (e ∷ []) m (failed_verdict (api.error_text e))

publish : Api → McpServer → Option Verdict → Outcome
publish api m none = panicked
publish api m (some v) = update_status api [] m v

by_service : Api → McpServer → Applied → Option ControllerError → Outcome
unfolding publish
by_service api m dep (some e) = report_failure api m e
by_service api m dep none = publish api m (deployment_readiness dep.deployment dep.changed)

by_deployment : Api → McpServer → Applied → Option ControllerError → Outcome
unfolding by_service
by_deployment api m dep (some e) = report_failure api m e
by_deployment api m dep none =
    by_service api m dep (api.apply_service (mutate_service api.set_controller_reference m))

-- What `reconcileDeployment` returns.
abbrev pub deployment_of : Api → McpServer → Applied
deployment_of api m =
    api.apply_deployment (mutate_deployment api.spec_equal api.set_controller_reference m)

reconcile_stored : Api → McpServer → Outcome
unfolding by_deployment
reconcile_stored api m =
    if m.deleting
    then update_status api [] m deleting_verdict
    else by_deployment api m (deployment_of api m) (deployment_of api m).error

by_get : Api → GetReply → Outcome
unfolding reconcile_stored
by_get api missing = finished [] []
by_get api (get_failed e) = finished [] (e ∷ [])
by_get api (stored m) = reconcile_stored api m

unfoldable pub reconcile : Api → Outcome
unfolding by_get
reconcile api = by_get api api.get
