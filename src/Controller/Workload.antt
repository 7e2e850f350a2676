-- ===== src/Controller/Workload.antt =====
-- What the controller writes into a Deployment.
use text.Mathlib.TextEquality.{eq_iff}
use portkeeper.Common.{
  String, Bool, true, false, ◌≡◌, inl, inr, refl, sym, ap, ◌∙◌, Option, none, some, List, [], ◌∷◌,
  arith, ◌==◌, if◌then◌else◌, Bool-cases, Option-cases, string_equal,
}
use portkeeper.Common.Tests.{equal_refl}
use portkeeper.Common.Dict.{insert}
use portkeeper.Api.{McpServer}
use portkeeper.Controller.{
  OwnerReference, Object, ControllerError, is_owner, owned, check_ownership, Container,
  container_name, blank, configured, configure, probe_of, DeploymentSpec, desired_spec, Deployment,
  with_reference, guarded_deployment, mutate_deployment, server_label,
}
use portkeeper.Controller.Ownership.{check_ownership_iff}

insert_again :
    (k v : String) (m : List (String × String)) → insert k v (insert k v m) ≡ insert k v m
unfolding insert
insert_again k v [] = rw (equal_refl k) refl
insert_again k v ((i, w) ∷ m) = elim (Bool-cases (i == k)) [
  | inl hit ↦ rw (hit, if◌then◌else◌, equal_refl k) refl
  | inr miss ↦
      rw (miss, if◌then◌else◌, miss)
        (ap (λ (r : List (String × String)). (i, w) ∷ r) (insert_again k v m))
]

configured_again : (m : McpServer) (c : Container) → configured m (configured m c) ≡ configured m c
unfolding configured probe_of
configured_again m c = elim (Option-cases c.readiness_probe) [
  | inl bare ↦ rw bare refl
  | inr (p, e) ↦ rw e refl
]

configured_name : (m : McpServer) (c : Container) → (configured m c).name ≡ c.name
unfolding configured
configured_name m c = refl

configure_again :
    (m : McpServer) (cs : List Container) → configure m (configure m cs) ≡ configure m cs
unfolding configure configured
configure_again m [] = rw (configured_name m blank, configured_again m blank) refl
configure_again m (c ∷ cs) = elim (Bool-cases (c.name == container_name)) [
  | inl hit ↦ rw (hit, if◌then◌else◌, configured_name m c, hit, configured_again m c) refl
  | inr miss ↦ rw (miss, if◌then◌else◌, miss, configure_again m cs) refl
]

desired_spec_again :
    (m : McpServer) (s : DeploymentSpec) → desired_spec m (desired_spec m s) ≡ desired_spec m s
unfolding desired_spec
desired_spec_again m s =
    rw (insert_again server_label m.name s.template_labels, configure_again m s.containers) refl

-- What the documentation of `SetControllerReference` says: it makes the resource the controller of the
-- object, changes no other field that is read here, and has no effect a second time.
pub record SetsReference (set : McpServer → Object → Option Object) (m : McpServer) : Type 0 where
  pub again : (o p : Object) → set m o ≡ some p → set m p ≡ some p
  pub owner :
      (o p : Object)
      → set m o ≡ some p
      → (w : OwnerReference) × (p.controller ≡ some w) × (is_owner m w ≡ true)
  pub version : (o p : Object) → set m o ≡ some p → p.resource_version ≡ o.resource_version
  pub deleting : (o p : Object) → set m o ≡ some p → p.deleting ≡ o.deleting

still_owned :
    (m : McpServer) (o p : Object) (w : OwnerReference)
    → p.controller ≡ some w
    → is_owner m w ≡ true
    → p.resource_version ≡ o.resource_version
    → p.deleting ≡ o.deleting
    → check_ownership m o ≡ none
    → check_ownership m p ≡ none
unfolding check_ownership owned
still_owned m o p w c mine version deleting h = elim (Bool-cases (o.resource_version == "")) [
  | inl fresh ↦ rw (version, fresh) refl
  | inr stored ↦ elim ((check_ownership_iff m o).0 h) [
    | inl blank ↦ absurd (ground (arith, eq_iff o.resource_version ""))
    | inr v ↦ rw (version, stored, c, mine, deleting, v.present) refl
  ]
]

module _ (deep_equal : DeploymentSpec → DeploymentSpec → Bool)
    (set : McpServer → Object → Option Object) where
  written :
      (m : McpServer) (dep after : Deployment) (changed : Bool)
      → mutate_deployment deep_equal set m dep ≡ ((after, changed), none)
      → (check_ownership m dep.object ≡ none)
        × (after.spec ≡ desired_spec m dep.spec)
        × (set m dep.object ≡ some after.object)
  unfolding mutate_deployment guarded_deployment with_reference
  written m dep after changed h = elim (Option-cases (check_ownership m dep.object)) [
    | inr (e, bad) ↦ absurd (failed _ _ (rw (bad, guarded_deployment) at h))
    | inl free ↦ elim (Option-cases (set m dep.object)) [
      | inl refused ↦
          absurd (failed _ _ (rw (free, guarded_deployment, refused, with_reference) at h))
      | inr (p, e) ↦
          let got = rw (free, guarded_deployment, e, with_reference) at h in
          (free, ap (λ r. r.0.0.spec) (sym got), e ∙ ap (λ r. some r.0.0.object) got)
    ]
  ]
    where
      failed :
          (r : Deployment × Bool) (e : ControllerError)
          → ◌≡◌ {A = (Deployment × Bool) × Option ControllerError}
              (r, some e)
              ((after, changed), none)
          → ⊥
      failed r e f = cc

  -- A second pass over the Deployment that a pass has written succeeds, leaves it as it is and counts
  -- it as unchanged.
  pub mutate_deployment-again :
      (m : McpServer) (dep after : Deployment) (changed : Bool)
      → SetsReference set m
      → ((s : DeploymentSpec) → deep_equal s s ≡ true)
      → mutate_deployment deep_equal set m dep ≡ ((after, changed), none)
      → mutate_deployment deep_equal set m after ≡ ((after, false), none)
  unfolding mutate_deployment guarded_deployment with_reference
  mutate_deployment-again m dep after changed sets same h =
      let (free, spec, object) = written m dep after changed h in
      let (w, c, mine) = sets.owner dep.object after.object object in
      let owned_now =
        still_owned m dep.object after.object w c mine (sets.version dep.object after.object object)
          (sets.deleting dep.object after.object object) free in
      let kept : desired_spec m after.spec ≡ after.spec =
        ap (desired_spec m) spec ∙ desired_spec_again m dep.spec ∙ sym spec in
      rw
        (
          owned_now,
          guarded_deployment,
          sets.again dep.object after.object object,
          with_reference,
          kept,
          same after.spec,
        )
        refl
