-- ===== src/Controller/Examples.antt =====
-- The controller on a concrete resource, Deployment and Service, and its theorems there.
use text.Mathlib.TextEquality.{eq_iff}
use portkeeper.Common.{
  Bool, true, false, ◌≡◌, ◌↔◌, refl, Option, none, some, List, [], ◌∷◌, arith, ◌==◌, string_equal,
  nat_equal, length,
}
use portkeeper.Common.Int.{pos}
use portkeeper.Api.{Condition, McpServer, is_ready}
use portkeeper.Controller.{
  OwnerReference, Object, ControllerError, check_ownership, is_owner, Deployment, Service,
  DeploymentSpec, configure, desired_spec, mutate_deployment, mutate_service,
}
use portkeeper.Controller.Ownership.{IsControlled, foreign_kept}
use portkeeper.Controller.Workload.{SetsReference, mutate_deployment-again}
use portkeeper.Controller.Status.{Verdict, deployment_available, deployment_readiness, with_status}
use portkeeper.Controller.Status.Rollout.{IsRolledOut, Reports, deployment_readiness-Reports}
use portkeeper.Controller.Status.Publication.{SetsCondition, with_status-IsRolledOut}
use portkeeper.Gateway.Scenario.{first_condition, weather}

abbrev owner : OwnerReference
owner = record {
  uid = "u1";
  name = "weather";
  kind = "MCPServer";
  api_version = "mcp.portkeeper.dev/v1alpha1";
}

abbrev owned_object : Object
owned_object = record { resource_version = "12"; controller = some owner; deleting = false }

abbrev foreign_object : Object
foreign_object = record { resource_version = "12"; controller = none; deleting = false }

abbrev deployment : Object → Deployment
deployment o = record {
  object = o;
  generation = pos 2;
  spec = record { replicas = some (pos 1); selector = []; template_labels = []; containers = [] };
  status = record {
    observed_generation = pos 2;
    replicas = pos 1;
    updated_replicas = pos 1;
    ready_replicas = pos 1;
    available_replicas = pos 1;
    conditions = [];
  };
}

abbrev service : Service
service = record { object = foreign_object; selector = []; ports = [] }

deployment_readiness-Reports_example :
    (v : Verdict) × (deployment_readiness (deployment owned_object) false ≡ some v)
    × Reports (deployment owned_object) false (pos 1) v
deployment_readiness-Reports_example =
    deployment_readiness-Reports (deployment owned_object) false (pos 1) refl

rolled_out : deployment_readiness (deployment owned_object) false ≡ some deployment_available
unfolding deployment_readiness
rolled_out = refl

-- The newest condition is put in front.
abbrev in_front : List Condition → Condition → List Condition
in_front cs c = c ∷ cs

in_front-SetsCondition : SetsCondition first_condition in_front
unfolding first_condition
in_front-SetsCondition = record {
  set_found = λ cs c. ground (arith, string_equal.equal_iff c.kind c.kind);
}

with_status-IsRolledOut_example :
    (is_ready first_condition (some (with_status in_front weather deployment_available)) ≡ true)
    ↔ ((weather.deleting ≡ false) × IsRolledOut (deployment owned_object) false (pos 1))
with_status-IsRolledOut_example =
    with_status-IsRolledOut first_condition in_front weather (deployment owned_object) false (pos 1)
      deployment_available in_front-SetsCondition refl rolled_out

-- The reference is set unless another resource controls the object.
abbrev own : McpServer → Object → Option Object
own m o = some (record o {
  controller = some (record {
    uid = m.uid;
    name = m.name;
    kind = "MCPServer";
    api_version = "mcp.portkeeper.dev/v1alpha1";
  });
})

abbrev never_equal : DeploymentSpec → DeploymentSpec → Bool
never_equal s t = false

no_owner : IsControlled weather foreign_object → ⊥
no_owner v = absurd (mismatch v.controller)
  where
    mismatch : {w : OwnerReference} → none ≡ some w → ⊥
    mismatch e = cc

foreign_kept_example :
    ((e : ControllerError) × (mutate_deployment never_equal own weather (deployment foreign_object)
        ≡ ((deployment foreign_object, false), some e)))
    × ((e : ControllerError) × (mutate_service own weather service ≡ (service, some e)))
foreign_kept_example =
    foreign_kept never_equal own weather (deployment foreign_object) service
      (ground (arith, eq_iff "12" "")) (ground (arith, eq_iff "12" "")) no_owner no_owner

mine :
    (m : McpServer)
    → is_owner m (record {
      uid = m.uid;
      name = m.name;
      kind = "MCPServer";
      api_version = "mcp.portkeeper.dev/v1alpha1";
    })
      ≡ true
mine m = ground (arith, string_equal.equal_iff m.uid m.uid, string_equal.equal_iff m.name m.name)

own-SetsReference : SetsReference own weather
own-SetsReference = record {
  again = λ o p e. ground arith;
  owner = λ o p e. (owner, ground arith, mine weather);
  version = λ o p e. ground arith;
  deleting = λ o p e. ground arith;
}

-- The number of containers tells the specs of the example apart.
abbrev same_size : DeploymentSpec → DeploymentSpec → Bool
same_size s t = length s.containers == length t.containers

same_size_self : (s : DeploymentSpec) → same_size s s ≡ true
same_size_self s = ground (arith, nat_equal.equal_iff (length s.containers) (length s.containers))

abbrev written : Deployment
written = record (deployment (record owned_object { controller = some owner })) {
  spec = desired_spec weather (deployment owned_object).spec;
}

first_pass :
    mutate_deployment same_size own weather (deployment owned_object) ≡ ((written, true), none)
unfolding mutate_deployment check_ownership desired_spec configure
first_pass = refl

mutate_deployment-again_example :
    mutate_deployment same_size own weather written ≡ ((written, false), none)
mutate_deployment-again_example =
    mutate_deployment-again same_size own weather (deployment owned_object) written true
      own-SetsReference same_size_self first_pass
