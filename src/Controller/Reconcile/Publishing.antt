-- ===== src/Controller/Reconcile/Publishing.antt =====
-- What a reconciliation publishes.
use portkeeper.Common.{
  String, true, false, ◌≡◌, refl, sym, ap, ◌∙◌, Option, none, some, List, [], ◌∷◌, ◌++◌,
  if◌then◌else◌, Bool-cases, Option-cases, inl, inr, if_true, if_false, string_equal, ◌==◌,
}
use portkeeper.Common.Int.{ℤ}
use portkeeper.Api.{McpServer, Condition, is_ready}
use portkeeper.Controller.{ControllerError, mutate_service}
use portkeeper.Controller.Status.{Verdict, deployment_readiness, with_status}
use portkeeper.Controller.Status.Rollout.{IsRolledOut, deployment_readiness-IsRolledOut}
use portkeeper.Controller.Status.Publication.{SetsCondition, with_status-is_ready}
use portkeeper.Controller.Reconcile.{
  GetReply, stored, missing, get_failed, Api, finished, errors_of, update_status, deleting_verdict,
  failed_verdict, publish, by_service, by_deployment, deployment_of, reconcile_stored, by_get,
  reconcile,
}

pub update_status-patch :
    (api : Api) (before : List ControllerError) (m p : McpServer) (ps : List McpServer)
    (v : Verdict) (es : List ControllerError)
    → update_status api before m v ≡ finished (p ∷ ps) es
    → (p ≡ with_status api.set_status_condition m v)
      × (ps ≡ [])
      × (es ≡ before ++ errors_of (api.patch p))
unfolding update_status
update_status-patch api before m p ps v es h =
    elim (Bool-cases
      (api.status_equal m.status (with_status api.set_status_condition m v).status)) [
        | inl same ↦ cc (rw (same, if◌then◌else◌) at h)
        | inr differs ↦
            let e = rw (differs, if◌then◌else◌) at h in
            let patch : with_status api.set_status_condition m v ≡ p = cc e in
            (sym patch, cc e, rw (← patch) (cc e))
      ]

-- Everything went well: the resource is there to stay, the Deployment and the Service are as they should
-- be, and the rollout of the Deployment is complete: it has the replicas that its spec asks for.
pub record IsSettled (api : Api) (m : McpServer) : Type 0 where
  pub present : m.deleting ≡ false
  pub deployed : (deployment_of api m).error ≡ none
  pub served : api.apply_service (mutate_service api.set_controller_reference m) ≡ none
  pub desired : ℤ
  pub wanted : (deployment_of api m).deployment.spec.replicas ≡ some desired
  pub rollout : IsRolledOut (deployment_of api m).deployment (deployment_of api m).changed desired

module _ (find : List Condition → String → Option Condition) (api : Api)
    (sets : SetsCondition find api.set_status_condition) where
  -- A patch with a verdict that is not True is not ready.
  not_ready :
      (before : List ControllerError) (m p : McpServer) (ps : List McpServer) (v : Verdict)
      (es : List ControllerError)
      → (v.status == "True") ≡ false
      → update_status api before m v ≡ finished (p ∷ ps) es
      → is_ready find (some p) ≡ true
      → ⊥
  not_ready before m p ps v es no_truth h ready =
      let (same, _, _) = update_status-patch api before m p ps v es h in
      let (_, truth) =
        (with_status-is_ready find api.set_status_condition m v sets).0 (rw same at ready) in
      cc ((string_equal.equal_iff v.status "True").1 truth)

  publish-ready :
      (m p : McpServer) (ps : List McpServer) (es : List ControllerError) (o : Option Verdict)
      → publish api m o ≡ finished (p ∷ ps) es
      → is_ready find (some p) ≡ true
      → (v : Verdict) × (o ≡ some v)
        × (v.status ≡ "True")
        × (p ≡ with_status api.set_status_condition m v)
  unfolding publish
  publish-ready m p ps es none h ready = cc
  publish-ready m p ps es (some v) h ready =
      let (same, _, _) = update_status-patch api [] m p ps v es h in
      let (_, truth) =
        (with_status-is_ready find api.set_status_condition m v sets).0 (rw same at ready) in
      (v, refl, truth, same)

  reconcile_stored-IsSettled :
      (m p : McpServer) (ps : List McpServer) (es : List ControllerError)
      → reconcile_stored api m ≡ finished (p ∷ ps) es
      → is_ready find (some p) ≡ true
      → IsSettled api m × (p.meta ≡ m.meta) × (p.spec ≡ m.spec)
  unfolding reconcile_stored by_deployment by_service with_status
  reconcile_stored-IsSettled m p ps es h ready = elim (Bool-cases m.deleting) [
    | inl leaving ↦
        absurd (not_ready [] m p ps deleting_verdict es refl (sym (if_true _ _ leaving) ∙ h) ready)
    | inr stays ↦
        let k = sym (if_false _ _ stays) ∙ h in
        elim (Option-cases (deployment_of api m).error) [
          | inr (e, failed) ↦ absurd (
              not_ready (e ∷ []) m p ps (failed_verdict (api.error_text e)) es refl
                (rw (failed, by_deployment) at k) ready)
          | inl deployed ↦
              let l = rw (deployed, by_deployment) at k in
              elim (Option-cases
                (api.apply_service (mutate_service api.set_controller_reference m))) [
                  | inr (e, failed) ↦ absurd (
                      not_ready (e ∷ []) m p ps (failed_verdict (api.error_text e)) es refl
                        (rw (failed, by_service) at l) ready)
                  | inl served ↦
                      let (v, readiness, truth, same) =
                        publish-ready m p ps es
                          (deployment_readiness (deployment_of api m).deployment
                            (deployment_of api m).changed)
                          (rw (served, by_service) at l) ready in
                      let (desired, wanted, rollout) =
                        deployment_readiness-IsRolledOut (deployment_of api m).deployment
                          (deployment_of api m).changed v readiness truth in
                      (
                        record {
                          present = stays;
                          deployed = deployed;
                          served = served;
                          desired = desired;
                          wanted = wanted;
                          rollout = rollout;
                        },
                        ap (λ (x : McpServer). x.meta) same,
                        ap (λ (x : McpServer). x.spec) same,
                      )
                ]
        ]
  ]

  by_get-IsSettled :
      (g : GetReply) (p : McpServer) (ps : List McpServer) (es : List ControllerError)
      → by_get api g ≡ finished (p ∷ ps) es
      → is_ready find (some p) ≡ true
      → (m : McpServer) × (g ≡ stored m) × IsSettled api m × (p.meta ≡ m.meta) × (p.spec ≡ m.spec)
  unfolding by_get
  by_get-IsSettled missing p ps es h ready = cc
  by_get-IsSettled (get_failed e) p ps es h ready = cc
  by_get-IsSettled (stored m) p ps es h ready =
      let (settled, meta, spec) = reconcile_stored-IsSettled m p ps es h ready in
      (m, refl, settled, meta, spec)

  -- A resource that the controller publishes as ready, as the gateway reads it, is one that it found,
  -- that is not being deleted, whose Deployment and Service it has applied without an error, and whose
  -- Deployment has completed its rollout to the replicas that its spec asks for, if
  -- `meta.SetStatusCondition` sets what is found; the patch changes the status alone.
  pub reconcile-IsSettled :
      (p : McpServer) (ps : List McpServer) (es : List ControllerError)
      → reconcile api ≡ finished (p ∷ ps) es
      → is_ready find (some p) ≡ true
      → (m : McpServer) × (api.get ≡ stored m)
        × IsSettled api m
        × (p.meta ≡ m.meta)
        × (p.spec ≡ m.spec)
  unfolding reconcile
  reconcile-IsSettled p ps es h ready = by_get-IsSettled api.get p ps es h ready
