-- ===== src/Api.antt =====
-- api/v1alpha1: the MCPServer resource as the controller and the gateway read it, and its readiness.
-- `ObjectMeta` and `Condition` are those of k8s.io/apimachinery, with the fields that are read; a
-- timestamp that is only tested for zero is a Boolean.
pub mod Readiness
pub mod Memory
pub mod DeepCopy
mod Examples
use portkeeper.Common.{
  String, Bool, true, false, ◌&&◌, ◌||◌, not, Option, none, some, List, ◌==◌, if◌then◌else◌,
  string_equal,
}
use portkeeper.Common.Int.{ℤ, int_equal}

pub record ServiceAccountReference : Type 0 where
  pub namespace : String
  pub name : String

pub record Condition : Type 0 where
  pub kind : String
  pub status : String
  pub observed_generation : ℤ
  pub reason : String
  pub message : String

pub record McpServerSpec : Type 0 where
  pub image : String
  pub port : ℤ
  pub tools : List String
  pub allowed_service_accounts : List ServiceAccountReference
  pub auth_type : String
  pub auth_secret_ref : String

pub record McpServerStatus : Type 0 where
  pub phase : String
  pub observed_generation : ℤ
  pub conditions : List Condition

pub record ObjectMeta : Type 0 where
  pub namespace : String
  pub name : String
  pub uid : String
  pub generation : ℤ
  pub deleting : Bool

pub record McpServer : Type 0 where
  pub meta : ObjectMeta
  pub open meta use *
  pub spec : McpServerSpec
  pub status : McpServerStatus

abbrev pub mcp_server_ready : String
mcp_server_ready = "Ready"

-- `metav1.ConditionTrue`
abbrev pub condition_true : String
condition_true = "True"

-- `meta.FindStatusCondition` is a parameter.
module _ (find_status_condition : List Condition → String → Option Condition) where
  ready_condition : ℤ → Option Condition → Bool
  ready_condition generation none = false
  ready_condition generation (some c) =
      c.status == condition_true && c.observed_generation == generation

  unfoldable pub is_ready : Option McpServer → Bool
  unfolding ready_condition
  is_ready none = false
  is_ready (some m) =
      if m.deleting || not (m.status.observed_generation == m.generation)
      then false
      else ready_condition m.generation (find_status_condition m.status.conditions mcp_server_ready)
