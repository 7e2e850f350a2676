-- ===== src/Controller/Ownership.antt =====
-- Which objects the controller writes.
use text.Mathlib.TextEquality.{eq_iff}
use portkeeper.Common.{
  Bool, false, ◌≡◌, ◌≢◌, ◌↔◌, ◌⊎◌, inl, inr, refl, Option, none, some, arith, ◌==◌, if◌then◌else◌,
  Bool-cases, Option-cases, string_equal,
}
use portkeeper.Api.{McpServer}
use portkeeper.Controller.{
  OwnerReference, Object, ControllerError, group_version, owned, check_ownership, DeploymentSpec,
  Deployment, Service, guarded_deployment, mutate_deployment, guarded_service, mutate_service,
}

-- The resource controls the object, which is not being deleted.
pub record IsControlled (m : McpServer) (o : Object) : Type 0 where
  pub owner : OwnerReference
  pub controller : o.controller ≡ some owner
  pub uid : owner.uid ≡ m.uid
  pub name : owner.name ≡ m.name
  pub kind : owner.kind ≡ "MCPServer"
  pub api_version : owner.api_version ≡ group_version
  pub present : o.deleting ≡ false

owned-IsControlled :
    (m : McpServer) (o : Object) (c : Option OwnerReference)
    → o.controller ≡ c
    → owned m o c ≡ none
    → IsControlled m o
unfolding owned
owned-IsControlled m o none e h = cc
owned-IsControlled m o (some owner) e h = record {
  owner = owner;
  controller = e;
  uid = ground (arith, eq_iff owner.uid m.uid);
  name = ground (arith, eq_iff owner.name m.name);
  kind = ground (arith, eq_iff owner.kind "MCPServer");
  api_version = ground (arith, eq_iff owner.api_version group_version);
  present = ground arith;
}

IsControlled-owned : (m : McpServer) (o : Object) → IsControlled m o → owned m o o.controller ≡ none
unfolding owned
IsControlled-owned m o v = rw v.controller (
    ground (
      arith,
      v.uid,
      v.name,
      v.kind,
      v.api_version,
      v.present,
      eq_iff v.owner.uid m.uid,
      eq_iff v.owner.name m.name,
      eq_iff v.owner.kind "MCPServer",
      eq_iff v.owner.api_version group_version,
    ))

-- The controller may write an object exactly if that does not exist yet, or if the resource, by its UID
-- and its name, controls it and it is not being deleted.
pub check_ownership_iff :
    (m : McpServer) (o : Object)
    → (check_ownership m o ≡ none) ↔ ((o.resource_version ≡ "") ⊎ IsControlled m o)
unfolding check_ownership
check_ownership_iff m o = elim (Bool-cases (o.resource_version == "")) [
  | inl fresh ↦
      rw (fresh, if◌then◌else◌) ((λ h. inl ((eq_iff o.resource_version "").0 fresh)), λ h. refl)
  | inr stored ↦
      rw (stored, if◌then◌else◌)
        (
          (λ h. inr (owned-IsControlled m o o.controller refl h)),
          λ h. elim h [
            | inl blank ↦ absurd (ground (arith, eq_iff o.resource_version ""))
            | inr v ↦ IsControlled-owned m o v
          ],
        )
]

module _ (deep_equal : DeploymentSpec → DeploymentSpec → Bool)
    (set_controller_reference : McpServer → Object → Option Object) where
  -- A Deployment and a Service that exist and that the resource does not control, or that are being
  -- deleted, are left as they are, the Deployment counts as unchanged, and there is an error.
  pub foreign_kept :
      (m : McpServer) (dep : Deployment) (svc : Service)
      → dep.object.resource_version ≢ ""
      → svc.object.resource_version ≢ ""
      → (IsControlled m dep.object → ⊥)
      → (IsControlled m svc.object → ⊥)
      → ((e : ControllerError) × (mutate_deployment deep_equal set_controller_reference m dep
            ≡ ((dep, false), some e)))
        × ((e : ControllerError) × (mutate_service set_controller_reference m svc ≡ (svc, some e)))
  unfolding mutate_deployment mutate_service guarded_deployment guarded_service
  foreign_kept m dep svc stored listed other another = (
    elim (Option-cases (check_ownership m dep.object)) [
      | inl free ↦ absurd (elim ((check_ownership_iff m dep.object).0 free) [
        | inl fresh ↦ stored fresh
        | inr v ↦ other v
      ])
      | inr (e, h) ↦ (e, rw (h, guarded_deployment) refl)
    ],
    elim (Option-cases (check_ownership m svc.object)) [
      | inl free ↦ absurd (elim ((check_ownership_iff m svc.object).0 free) [
        | inl fresh ↦ listed fresh
        | inr v ↦ another v
      ])
      | inr (e, h) ↦ (e, rw (h, guarded_service) refl)
    ],
  )
