-- ===== src/Controller.antt =====
-- internal/controller/mcpserver_controller.go: what the controller makes of a Deployment and a
-- Service. Of the objects of Kubernetes the fields are kept that the
-- code reads or writes, and some that it must leave alone; a nil map or slice is an empty one. What
-- `GetControllerOf` returns is a field. `DeepEqual` and `SetControllerReference` are parameters.
pub mod Status
pub mod Reconcile
pub mod Ownership
pub mod Workload
mod Examples
mod Runs
use portkeeper.Common.{
  String, Bool, true, false, ◌&&◌, ◌||◌, not, Option, none, some, List, [], ◌∷◌, ◌==◌,
  if◌then◌else◌, string_equal,
}
use portkeeper.Common.Int.{ℤ, pos, int_equal}
use portkeeper.Common.Dict.{insert}
use portkeeper.Common.Text.{append}
use portkeeper.Api.{McpServer}

pub record OwnerReference : Type 0 where
  pub uid : String
  pub name : String
  pub kind : String
  pub api_version : String

-- The metadata of an object that the controller writes.
pub record Object : Type 0 where
  pub resource_version : String
  pub controller : Option OwnerReference
  pub deleting : Bool

pub data ControllerError : Type 0 where
  not_controlled being_deleted reference_refused : ControllerError
  api_failed : String → ControllerError

abbrev pub group_version : String
group_version = "mcp.portkeeper.dev/v1alpha1"

abbrev pub is_owner : McpServer → OwnerReference → Bool
is_owner m owner =
    owner.uid == m.uid
    && owner.name == m.name
    && owner.kind == "MCPServer"
    && owner.api_version == group_version

owned : McpServer → Object → Option OwnerReference → Option ControllerError
owned m o none = some not_controlled
owned m o (some owner) =
    if not (is_owner m owner)
    then some not_controlled
    else if o.deleting
    then some being_deleted
    else none

-- `none` is the nil error.
unfoldable pub check_ownership : McpServer → Object → Option ControllerError
unfolding owned
check_ownership m o = if o.resource_version == "" then none else owned m o o.controller

-- The containers of the Deployment.

pub data ProbeHandler : Type 0 where
  no_handler : ProbeHandler
  tcp_socket : (port : ℤ) → ProbeHandler
  http_get : (path : String) → ProbeHandler

pub record Probe : Type 0 where
  pub handler : ProbeHandler
  pub period_seconds : ℤ

pub record ContainerPort : Type 0 where
  pub container_port : ℤ
  pub protocol : String

pub record Container : Type 0 where
  pub name : String
  pub image : String
  pub args : List String
  pub ports : List ContainerPort
  pub readiness_probe : Option Probe

pub record DeploymentSpec : Type 0 where
  pub replicas : Option ℤ
  pub selector : List (String × String)
  pub template_labels : List (String × String)
  pub containers : List Container

abbrev pub container_name : String
container_name = "mcp-server"

abbrev pub server_label : String
server_label = "mcp.portkeeper.dev/server"

abbrev pub blank : Container
blank = record { name = container_name; image = ""; args = []; ports = []; readiness_probe = none }

probe_of : ℤ → Option Probe → Probe
probe_of port none = record { handler = tcp_socket port; period_seconds = pos 0 }
probe_of port (some p) = record p { handler = tcp_socket port }

unfoldable pub configured : McpServer → Container → Container
unfolding probe_of
configured m c = record c {
  image = m.spec.image;
  ports = record { container_port = m.spec.port; protocol = "TCP" } ∷ [];
  readiness_probe = some (probe_of m.spec.port c.readiness_probe);
}

-- The first container of the name, or a new one at the end.
unfoldable pub configure : McpServer → List Container → List Container
configure m [] = configured m blank ∷ []
configure m (c ∷ cs) = if c.name == container_name then configured m c ∷ cs else c ∷ configure m cs

unfoldable pub desired_spec : McpServer → DeploymentSpec → DeploymentSpec
desired_spec m spec = record {
  replicas = some (pos 1);
  selector = (server_label, m.name) ∷ [];
  template_labels = insert server_label m.name spec.template_labels;
  containers = configure m spec.containers;
}

pub record DeploymentCondition : Type 0 where
  pub kind : String
  pub status : String
  pub reason : String
  pub message : String

pub record DeploymentStatus : Type 0 where
  pub observed_generation : ℤ
  pub replicas : ℤ
  pub updated_replicas : ℤ
  pub ready_replicas : ℤ
  pub available_replicas : ℤ
  pub conditions : List DeploymentCondition

pub record Deployment : Type 0 where
  pub object : Object
  pub generation : ℤ
  pub spec : DeploymentSpec
  pub status : DeploymentStatus

pub record ServicePort : Type 0 where
  pub name : String
  pub protocol : String
  pub port : ℤ
  pub target_port : ℤ
  pub node_port : ℤ

pub record Service : Type 0 where
  pub object : Object
  pub selector : List (String × String)
  pub ports : List ServicePort

first_port : List ServicePort → ServicePort
first_port [] = record {
  name = "";
  protocol = "";
  port = pos 0;
  target_port = pos 0;
  node_port = pos 0;
}
first_port (p ∷ ps) = p

unfoldable pub service_ports : McpServer → List ServicePort → List ServicePort
unfolding first_port
service_ports m ports =
    record (first_port ports) { protocol = "TCP"; port = m.spec.port; target_port = m.spec.port }
    ∷ []

unfoldable pub service_name : String → String
service_name name = append name "-svc"

-- The functions that `CreateOrUpdate` is given; `none` of the reference is an error.
module _ (deep_equal : DeploymentSpec → DeploymentSpec → Bool)
    (set_controller_reference : McpServer → Object → Option Object) where
  with_reference : Deployment → Bool → Option Object → (Deployment × Bool) × Option ControllerError
  with_reference dep changed none = ((dep, changed), some reference_refused)
  with_reference dep changed (some o) = ((record dep { object = o }, changed), none)

  guarded_deployment :
      McpServer → Deployment → Option ControllerError → (Deployment × Bool) × Option ControllerError
  guarded_deployment m dep (some e) = ((dep, false), some e)
  guarded_deployment m dep none =
      with_reference (record dep { spec = desired_spec m dep.spec })
        (not (deep_equal dep.spec (desired_spec m dep.spec)))
        (set_controller_reference m dep.object)

  unfoldable pub mutate_deployment :
      McpServer → Deployment → (Deployment × Bool) × Option ControllerError
  unfolding with_reference guarded_deployment
  mutate_deployment m dep = guarded_deployment m dep (check_ownership m dep.object)

module _ (set_controller_reference : McpServer → Object → Option Object) where
  referenced : Service → Option Object → Service × Option ControllerError
  referenced svc none = (svc, some reference_refused)
  referenced svc (some o) = (record svc { object = o }, none)

  guarded_service : McpServer → Service → Option ControllerError → Service × Option ControllerError
  guarded_service m svc (some e) = (svc, some e)
  guarded_service m svc none =
      referenced
        (record svc { selector = (server_label, m.name) ∷ []; ports = service_ports m svc.ports })
        (set_controller_reference m svc.object)

  unfoldable pub mutate_service : McpServer → Service → Service × Option ControllerError
  unfolding referenced guarded_service
  mutate_service m svc = guarded_service m svc (check_ownership m svc.object)
