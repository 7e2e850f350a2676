-- ===== src/Controller/Reconcile/Convergence.antt =====
-- Errors are reported, and a reconciliation that finds its own status writes nothing.
use portkeeper.Common.{
  true, ◌≡◌, refl, sym, ap, ◌∙◌, Option, none, some, List, [], ◌∷◌, Bool-cases, if_true, if_false,
  inl, inr,
}
use portkeeper.Api.{ObjectMeta, McpServer, McpServerStatus, Condition}
use portkeeper.Controller.{ControllerError, mutate_service}
use portkeeper.Controller.Status.{Verdict, deployment_readiness, with_status}
use portkeeper.Controller.Reconcile.Publishing.{update_status-patch}
use portkeeper.Controller.Reconcile.{
  Applied, stored, Api, finished, errors_of, update_status, deleting_verdict, failed_verdict,
  publish, by_service, by_deployment, deployment_of, reconcile_stored, by_get, reconcile,
}

-- What the documentation of `SetStatusCondition` and of the semantic `DeepEqual` says: setting a
-- condition that stands there already changes nothing, and a value is equal to itself.
pub record Settles (api : Api) : Type 0 where
  pub again :
      (cs : List Condition) (c : Condition)
      → api.set_status_condition (api.set_status_condition cs c) c ≡ api.set_status_condition cs c
  pub same : (s : McpServerStatus) → api.status_equal s s ≡ true

with_status_again :
    (api : Api) (m : McpServer) (v : Verdict)
    → Settles api
    → with_status api.set_status_condition (with_status api.set_status_condition m v) v
      ≡ with_status api.set_status_condition m v
unfolding with_status
with_status_again api m v settles =
    rw
      (settles.again m.status.conditions (record {
        kind = "Ready";
        status = v.status;
        observed_generation = m.generation;
        reason = v.reason;
        message = v.message;
      }))
      refl

update_status_again :
    (api : Api) (before : List ControllerError) (m : McpServer) (v : Verdict)
    → Settles api
    → update_status api before (with_status api.set_status_condition m v) v ≡ finished [] before
unfolding update_status
update_status_again api before m v settles =
    rw
      (
        with_status_again api m v settles,
        settles.same (with_status api.set_status_condition m v).status,
      )
      refl

-- A second publication of a verdict that was patched in finds it there.
patched_again :
    (api : Api) (before : List ControllerError) (m p : McpServer) (ps : List McpServer)
    (v : Verdict) (es : List ControllerError)
    → Settles api
    → update_status api before m v ≡ finished (p ∷ ps) es
    → (update_status api before p v ≡ finished [] before) × (p.meta ≡ m.meta)
unfolding with_status
patched_again api before m p ps v es settles h =
    let (same, _, _) = update_status-patch api before m p ps v es h in
    (rw same (update_status_again api before m v settles), ap (λ (x : McpServer). x.meta) same)

publish_again :
    (api : Api) (m p : McpServer) (ps : List McpServer) (o : Option Verdict)
    (es : List ControllerError)
    → Settles api
    → publish api m o ≡ finished (p ∷ ps) es
    → (publish api p o ≡ finished [] []) × (p.meta ≡ m.meta)
unfolding publish
publish_again api m p ps none es settles h = cc
publish_again api m p ps (some v) es settles h = patched_again api [] m p ps v es settles h

by_service_again :
    (api : Api) (m p : McpServer) (ps : List McpServer) (dep : Applied) (o : Option ControllerError)
    (es : List ControllerError)
    → Settles api
    → by_service api m dep o ≡ finished (p ∷ ps) es
    → (by_service api p dep o ≡ finished [] (errors_of o)) × (p.meta ≡ m.meta)
unfolding by_service errors_of
by_service_again api m p ps dep none es settles h =
    publish_again api m p ps (deployment_readiness dep.deployment dep.changed) es settles h
by_service_again api m p ps dep (some e) es settles h =
    patched_again api (e ∷ []) m p ps (failed_verdict (api.error_text e)) es settles h

by_deployment_again :
    (api : Api) (m p : McpServer) (ps : List McpServer) (dep : Applied) (o : Option ControllerError)
    (es : List ControllerError)
    → Settles api
    → api.apply_service (mutate_service api.set_controller_reference p)
      ≡ api.apply_service (mutate_service api.set_controller_reference m)
    → by_deployment api m dep o ≡ finished (p ∷ ps) es
    → (left : List ControllerError) × (by_deployment api p dep o ≡ finished [] left)
      × (p.meta ≡ m.meta)
unfolding by_deployment
by_deployment_again api m p ps dep none es settles service h =
    let served = api.apply_service (mutate_service api.set_controller_reference m) in
    let (again, meta) = by_service_again api m p ps dep served es settles h in
    (errors_of served, ap (by_service api p dep) service ∙ again, meta)
by_deployment_again api m p ps dep (some e) es settles service h =
    let (again, meta) =
      patched_again api (e ∷ []) m p ps (failed_verdict (api.error_text e)) es settles h in
    (e ∷ [], again, meta)

reconcile_stored_again :
    (api : Api) (m p : McpServer) (ps : List McpServer) (es : List ControllerError)
    → Settles api
    → deployment_of api p ≡ deployment_of api m
    → api.apply_service (mutate_service api.set_controller_reference p)
      ≡ api.apply_service (mutate_service api.set_controller_reference m)
    → reconcile_stored api m ≡ finished (p ∷ ps) es
    → (left : List ControllerError) × (reconcile_stored api p ≡ finished [] left)
unfolding reconcile_stored
reconcile_stored_again api m p ps es settles deployment service h = elim (Bool-cases m.deleting) [
  | inl leaving ↦
      let (again, meta) =
        patched_again api [] m p ps deleting_verdict es settles (sym (if_true _ _ leaving) ∙ h) in
      ([], if_true _ _ (ap (λ (x : ObjectMeta). x.deleting) meta ∙ leaving) ∙ again)
  | inr stays ↦
      let (left, again, meta) =
        by_deployment_again api m p ps (deployment_of api m) (deployment_of api m).error es settles
          service (sym (if_false _ _ stays) ∙ h) in
      (
        left,
        if_false _ _ (ap (λ (x : ObjectMeta). x.deleting) meta ∙ stays)
            ∙ ap (λ (a : Applied). by_deployment api p a a.error) deployment
            ∙ again,
      )
]

-- Once a reconciliation has patched the status, the next one that is handed the patched resource, and
-- for which the Deployment and the Service come out alike, sends no patch.
pub reconcile-converges :
    (api : Api) (m p : McpServer) (ps : List McpServer) (es : List ControllerError)
    → Settles api
    → api.get ≡ stored m
    → deployment_of api p ≡ deployment_of api m
    → api.apply_service (mutate_service api.set_controller_reference p)
      ≡ api.apply_service (mutate_service api.set_controller_reference m)
    → reconcile api ≡ finished (p ∷ ps) es
    → (left : List ControllerError) × (reconcile (record api { get = stored p }) ≡ finished [] left)
unfolding reconcile by_get reconcile_stored by_deployment by_service publish update_status
reconcile-converges api m p ps es settles got deployment service h =
    reconcile_stored_again api m p ps es settles deployment service (rw got at h)
