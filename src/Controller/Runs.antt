-- ===== src/Controller/Runs.antt =====
-- Reconciliations of a concrete resource, and the theorems about them there.
use portkeeper.Common.{
  String, Bool, true, false, ◌≡◌, refl, ap, ◌∙◌, none, some, List, [], ◌∷◌, arith, ◌==◌,
  if◌then◌else◌, string_equal,
}
use portkeeper.Common.Int.{pos}
use portkeeper.Api.{Condition, McpServer, McpServerStatus, is_ready}
use portkeeper.Controller.{ControllerError, Deployment}
use portkeeper.Controller.Status.{deployment_available, deployment_readiness, with_status}
use portkeeper.Controller.Status.Publication.{SetsCondition}
use portkeeper.Controller.Reconcile.{stored, Api, finished, errors_of, update_status, reconcile}
use portkeeper.Controller.Reconcile.Publishing.{IsSettled, reconcile-IsSettled}
use portkeeper.Controller.Reconcile.Convergence.{Settles, reconcile-converges}
use portkeeper.Gateway.Scenario.{first_condition, weather}

-- `SetStatusCondition` as it is documented, with the condition that is set in front.
without : String → List Condition → List Condition
without kind [] = []
without kind (c ∷ cs) = if c.kind == kind then without kind cs else c ∷ without kind cs

abbrev replace : List Condition → Condition → List Condition
replace cs c = c ∷ without c.kind cs

without_again :
    (kind : String) (cs : List Condition) → without kind (without kind cs) ≡ without kind cs
unfolding without
without_again kind [] = refl
without_again kind (c ∷ cs) = ground (arith, without_again kind cs)

without_own : (c : Condition) (cs : List Condition) → without c.kind (c ∷ cs) ≡ without c.kind cs
unfolding without
without_own c cs = rw ((string_equal.equal_iff c.kind c.kind).1 refl) refl

replace-SetsCondition : SetsCondition first_condition replace
unfolding first_condition
replace-SetsCondition = record {
  set_found = λ cs c. ground (arith, string_equal.equal_iff c.kind c.kind);
}

abbrev rolled_out : Deployment
rolled_out = record {
  object = record { resource_version = "12"; controller = none; deleting = false };
  generation = pos 2;
  spec = record { replicas = some (pos 1); selector = []; template_labels = []; containers = [] };
  status = record {
    observed_generation = pos 2;
    replicas = pos 1;
    updated_replicas = pos 1;
    ready_replicas = pos 1;
    available_replicas = pos 1;
    conditions = [];
  };
}

-- The message of the first condition tells the statuses of the runs apart.
abbrev messages : List Condition → String
messages [] = ""
messages (c ∷ cs) = c.message

abbrev same_message : McpServerStatus → McpServerStatus → Bool
same_message s t = messages s.conditions == messages t.conditions

abbrev api : Api
api = record {
  get = stored weather;
  apply_deployment = λ mutate. record { deployment = rolled_out; changed = false; error = none };
  apply_service = λ mutate. none;
  patch = λ p. none;
  error_text = λ e. "error";
  spec_equal = λ s t. true;
  status_equal = same_message;
  set_controller_reference = λ m o. some o;
  set_status_condition = replace;
}

api-Settles : Settles api
api-Settles = record {
  again = λ cs c.
      ap (λ (l : List Condition). c ∷ l)
        (without_own c (without c.kind cs) ∙ without_again c.kind cs);
  same = λ s. (string_equal.equal_iff (messages s.conditions) (messages s.conditions)).1 refl;
}

abbrev patched : McpServer
patched = with_status replace weather deployment_available

reconciled : reconcile api ≡ finished (patched ∷ []) []
unfolding reconcile update_status deployment_readiness errors_of with_status without
reconciled = refl

patched-ready : is_ready first_condition (some patched) ≡ true
unfolding is_ready first_condition with_status without
patched-ready = refl

reconcile-IsSettled_example :
    (m : McpServer) × (stored weather ≡ stored m)
    × IsSettled api m
    × (patched.meta ≡ m.meta)
    × (patched.spec ≡ m.spec)
reconcile-IsSettled_example =
    reconcile-IsSettled first_condition api replace-SetsCondition patched [] [] reconciled
      patched-ready

reconcile-converges_example :
    (left : List ControllerError) × (reconcile (record api { get = stored patched })
      ≡ finished [] left)
reconcile-converges_example =
    reconcile-converges api weather patched [] [] api-Settles refl refl refl reconciled
