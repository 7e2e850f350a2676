-- ===== src/Controller/Status/Rollout.antt =====
-- When the controller calls a Deployment ready, and when it calls it failed.
use text.Mathlib.TextEquality.{eq_iff}
use portkeeper.Common.{
  String, Bool, true, false, ◌≡◌, ◌≢◌, ◌↔◌, ◌⊎◌, inl, inr, refl, sym, ap, ◌∙◌, Option-cases, none,
  some, List, [], ◌∷◌, arith, any, ◌==◌, ◌||◌, not, if◌then◌else◌, Bool-cases, string_equal,
}
use portkeeper.Common.Int.{ℤ, pos, int_equal, ◌≤ℤ◌, ltb_ℤ}
use portkeeper.Controller.{DeploymentCondition, Deployment}
use portkeeper.Controller.Status.{
  Verdict, progressing, deployment_available, deployment_unavailable, is_failure, failure,
  first_failure, is_available, by_replicas, by_conditions, deployment_readiness,
}

-- The status of the Deployment is that of the workload that is wanted.
pub record IsObserved (dep : Deployment) (changed : Bool) : Type 0 where
  pub unchanged : changed ≡ false
  pub current : dep.status.observed_generation ≡ dep.generation

-- The rollout of `desired` replicas is complete, and no condition reports a failure.
pub record IsRolledOut (dep : Deployment) (changed : Bool) (desired : ℤ) : Type 0 where
  pub seen : IsObserved dep changed
  pub sound : any is_failure dep.status.conditions ≡ false
  pub some_wanted : ltb_ℤ (pos 0) desired ≡ true
  pub replicas : dep.status.replicas ≡ desired
  pub updated : dep.status.updated_replicas ≡ desired
  pub ready : desired ≤ℤ dep.status.ready_replicas
  pub available : desired ≤ℤ dep.status.available_replicas

-- What the loop finds.
first_failure_cases :
    (cs : List DeploymentCondition)
    → ((any is_failure cs ≡ false) × (first_failure cs ≡ none))
      ⊎ ((any is_failure cs ≡ true)
          × ((c : DeploymentCondition) × (first_failure cs ≡ some (failure c))))
unfolding first_failure
first_failure_cases [] = inl (refl, refl)
first_failure_cases (c ∷ cs) = elim (Bool-cases (is_failure c)) [
  | inl bad ↦ inr (rw bad (refl, (c, refl)))
  | inr fine ↦ elim (first_failure_cases cs) [
    | inl (clean, e) ↦ inl (rw fine (clean, e))
    | inr (bad, (d, e)) ↦ inr (rw fine (bad, (d, e)))
  ]
]

IsObserved-cases :
    (dep : Deployment) (changed : Bool)
    → ((changed || not (dep.status.observed_generation == dep.generation)) ≡ false)
      ↔ IsObserved dep changed
IsObserved-cases dep changed = (
  λ h. record {
    unchanged = ground arith;
    current = ground (arith, int_equal.equal_iff dep.status.observed_generation dep.generation);
  },
  λ v. ground (
    arith,
    v.unchanged,
    v.current,
    int_equal.equal_iff dep.status.observed_generation dep.generation,
  ),
)

available_cases :
    (dep : Deployment) (changed : Bool) (desired : ℤ)
    → IsObserved dep changed
    → any is_failure dep.status.conditions ≡ false
    → (is_available desired dep.status ≡ true) ↔ IsRolledOut dep changed desired
available_cases dep changed desired seen sound = (
  λ h. record {
    seen = seen;
    sound = sound;
    some_wanted = ground arith;
    replicas = ground (arith, int_equal.equal_iff dep.status.replicas desired);
    updated = ground (arith, int_equal.equal_iff dep.status.updated_replicas desired);
    ready = ground arith;
    available = ground arith;
  },
  λ v. ground (
    arith,
    v.some_wanted,
    v.replicas,
    v.updated,
    v.ready,
    v.available,
    int_equal.equal_iff dep.status.replicas desired,
    int_equal.equal_iff dep.status.updated_replicas desired,
  ),
)

unlike : (s t : String) → (s == t) ≡ false → s ≢ t
unlike s t h e = ground (arith, eq_iff s t)

unlike_bool : {b : Bool} → b ≡ false → b ≡ true → ⊥
unlike_bool e f = cc

-- What a verdict says of a Deployment.
pub record Reports (dep : Deployment) (changed : Bool) (desired : ℤ) (v : Verdict) : Type 0 where
  pub holds : (v.status ≡ "True") ↔ IsRolledOut dep changed desired
  pub ready : (v.phase ≡ "Ready") ↔ (v.status ≡ "True")
  pub failed :
      (v.phase ≡ "Failed")
      ↔ (IsObserved dep changed × (any is_failure dep.status.conditions ≡ true))

module _ (dep : Deployment) (changed : Bool) (desired : ℤ) where
  waiting-Reports :
      (reason message : String)
      → (IsRolledOut dep changed desired → ⊥)
      → (IsObserved dep changed × (any is_failure dep.status.conditions ≡ true) → ⊥)
      → Reports dep changed desired
          (record { phase = "Pending"; status = "False"; reason = reason; message = message })
  waiting-Reports reason message not_out not_failed = record {
    holds = (λ e. absurd (unlike "False" "True" refl e), λ r. absurd (not_out r));
    ready =
        (λ e. absurd (unlike "Pending" "Ready" refl e), λ e. absurd (unlike "False" "True" refl e));
    failed = (λ e. absurd (unlike "Pending" "Failed" refl e), λ r. absurd (not_failed r));
  }

  failure-Reports :
      (c : DeploymentCondition)
      → IsObserved dep changed
      → any is_failure dep.status.conditions ≡ true
      → Reports dep changed desired (failure c)
  failure-Reports c seen bad = record {
    holds = (λ e. absurd (unlike "False" "True" refl e), λ r. absurd (unlike_bool r.sound bad));
    ready =
        (λ e. absurd (unlike "Failed" "Ready" refl e), λ e. absurd (unlike "False" "True" refl e));
    failed = (λ e. (seen, bad), λ r. refl);
  }

  available-Reports :
      (reason message : String)
      → IsRolledOut dep changed desired
      → Reports dep changed desired
          (record { phase = "Ready"; status = "True"; reason = reason; message = message })
  available-Reports reason message out = record {
    holds = (λ e. out, λ r. refl);
    ready = (λ e. refl, λ e. refl);
    failed =
        (λ e. absurd (unlike "Ready" "Failed" refl e), λ r. absurd (unlike_bool out.sound r.1));
  }

by_conditions-Reports :
    (dep : Deployment) (changed : Bool) (desired : ℤ)
    → dep.spec.replicas ≡ some desired
    → IsObserved dep changed
    → (v : Verdict) × (by_conditions dep (first_failure dep.status.conditions) ≡ some v)
      × Reports dep changed desired v
unfolding by_conditions by_replicas
by_conditions-Reports dep changed desired wanted seen =
    elim (first_failure_cases dep.status.conditions) [
      | inr (bad, (c, e)) ↦ (failure c, rw e refl, failure-Reports dep changed desired c seen bad)
      | inl (clean, e) ↦
          let iff = available_cases dep changed desired seen clean in
          elim (Bool-cases (is_available desired dep.status)) [
            | inl up ↦ (
              deployment_available,
              rw (e, by_conditions, wanted, by_replicas, up, if◌then◌else◌) refl,
              available-Reports dep changed desired _ _ (iff.0 up),
            )
            | inr down ↦ (
              deployment_unavailable,
              rw (e, by_conditions, wanted, by_replicas, down, if◌then◌else◌) refl,
              waiting-Reports dep changed desired _ _ (λ r. unlike_bool down (iff.1 r))
                  (λ r. unlike_bool clean r.1),
            )
          ]
    ]

-- For a Deployment that says how many replicas it wants there is a verdict. It is True, with the phase
-- Ready, exactly if the Deployment is unchanged and observed, no condition reports a failure, at least
-- one replica is wanted, and as many are there, updated, ready and available; and its phase is Failed
-- exactly if the Deployment is unchanged and observed and a condition reports a failure.
pub deployment_readiness-Reports :
    (dep : Deployment) (changed : Bool) (desired : ℤ)
    → dep.spec.replicas ≡ some desired
    → (v : Verdict) × (deployment_readiness dep changed ≡ some v) × Reports dep changed desired v
unfolding deployment_readiness
deployment_readiness-Reports dep changed desired wanted =
    elim (Bool-cases (changed || not (dep.status.observed_generation == dep.generation))) [
      | inl waiting ↦
          let stale : IsObserved dep changed → ⊥ =
            λ v. unlike_bool ((IsObserved-cases dep changed).1 v) waiting in
          (
            progressing,
            rw (waiting, if◌then◌else◌) refl,
            waiting-Reports dep changed desired _ _ (λ r. stale r.seen) (λ r. stale r.0),
          )
      | inr going ↦
          let seen = (IsObserved-cases dep changed).0 going in
          rw (going, if◌then◌else◌) (by_conditions-Reports dep changed desired wanted seen)
    ]

no_replicas :
    (dep : Deployment) (changed : Bool) (v : Verdict)
    → dep.spec.replicas ≡ none
    → deployment_readiness dep changed ≡ some v
    → v.status ≡ "True"
    → ⊥
unfolding deployment_readiness by_conditions by_replicas
no_replicas dep changed v none_wanted h holds =
    elim (Bool-cases (changed || not (dep.status.observed_generation == dep.generation))) [
      | inl waiting ↦
          let same : progressing ≡ v = cc (rw (waiting, if◌then◌else◌) at h) in
          unlike "False" "True" refl (ap (λ (w : Verdict). w.status) same ∙ holds)
      | inr going ↦ elim (first_failure_cases dep.status.conditions) [
        | inr (bad, (c, e)) ↦
            let same : failure c ≡ v = cc (rw (going, if◌then◌else◌, e, by_conditions) at h) in
            unlike "False" "True" refl (ap (λ (w : Verdict). w.status) same ∙ holds)
        | inl (clean, e) ↦
            absurd
              (gone (rw (going, if◌then◌else◌, e, by_conditions, none_wanted, by_replicas) at h))
      ]
    ]
  where
    gone : none ≡ some v → ⊥
    gone e = cc

-- A verdict that is True comes from a Deployment that says how many replicas it wants, and whose
-- rollout is complete.
pub deployment_readiness-IsRolledOut :
    (dep : Deployment) (changed : Bool) (v : Verdict)
    → deployment_readiness dep changed ≡ some v
    → v.status ≡ "True"
    → (desired : ℤ) × (dep.spec.replicas ≡ some desired) × IsRolledOut dep changed desired
deployment_readiness-IsRolledOut dep changed v h holds = elim (Option-cases dep.spec.replicas) [
  | inl gone ↦ absurd (no_replicas dep changed v gone h holds)
  | inr (desired, wanted) ↦
      let (w, e, reports) = deployment_readiness-Reports dep changed desired wanted in
      let same : v ≡ w = cc in
      (desired, wanted, reports.holds.0 (ap (λ (x : Verdict). x.status) (sym same) ∙ holds))
]
