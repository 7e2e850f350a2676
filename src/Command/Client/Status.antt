-- ===== src/Command/Client/Status.antt =====
-- When the program of hack/mcp-client ends with status 0.
use portkeeper.Common.{
  String, Bool, true, false, ◌||◌, ◌&&◌, not, ◌≡◌, ◌≢◌, ◌↔◌, ◌⊎◌, inl, inr, refl, ap, ◌∙◌, sym,
  some, List, [], ◌∷◌, ◌==◌, if◌then◌else◌, if_true, if_false, string_equal, nat_equal, Bool-cases,
  Option-cases, arith,
}
use portkeeper.Common.Int.{ℤ, pos, int_equal, leb_ℤ, ◌≤ℤ◌}
use portkeeper.Client.{valid_target}
use portkeeper.Client.Waiting.{Waited, wait_for_status}
use portkeeper.Client.Probe.{Probed, probe_network}
use portkeeper.Client.Workflow.{WorkflowError, run}
use portkeeper.Benchmark.Run.{BenchmarkReport, RunResult, benchmark}
use portkeeper.Command.Client.{
  Flags, timeout_of, workers_of, config_of, credentials_of, World, benchmark_status, probe_status,
  wait_status, errors_status, by_workers, run_benchmark, run_probe, run_wait, run_workflow,
  dispatch, main,
}

-- What the program has done: one of its four functions has succeeded, on the flags that go with it.
pub data Achieves (w : World) (f : Flags) : Type 0 where
  benchmarked :
      f.benchmark ≡ true
      → f.expect_status ≡ pos 0
      → f.expect_network ≡ ""
      → (workers : List ℤ) → workers_of f.concurrency ≡ some workers
      → (report : BenchmarkReport)
      → benchmark (valid_target w.parse_url) w.run_env (config_of f workers)
        ≡ RunResult.passed report
      → Achieves w f
  probed :
      f.benchmark ≡ false
      → (f.expect_network ≡ "allowed") ⊎ (f.expect_network ≡ "blocked")
      → f.expect_status ≡ pos 0
      → f.token_file ≡ ""
      → probe_network w.parse_url w.lookup_ip w.dial
          (f.expect_network == "blocked")
          w.writes
          f.endpoint
        ≡ Probed.passed
      → Achieves w f
  waited :
      f.benchmark ≡ false
      → f.expect_network ≡ ""
      → f.expect_status ≢ pos 0
      → wait_for_status w.parse_url f.endpoint w.writes f.expect_status w.attempts ≡ Waited.observed
      → Achieves w f
  worked :
      f.benchmark ≡ false
      → f.expect_network ≡ ""
      → f.expect_status ≡ pos 0
      → (run w.parse_url w.accepts w.connect f.endpoint (credentials_of f) f.topic).errors ≡ []
      → Achieves w f

benchmark_status_iff :
    (r : RunResult)
    → (benchmark_status r ≡ some 0) ↔ ((report : BenchmarkReport) × (r ≡ RunResult.passed report))
unfolding benchmark_status
benchmark_status_iff (RunResult.passed report) = ((λ h. (report, refl)), λ h. refl)
benchmark_status_iff (RunResult.bad_config e) = ((λ h. cc), λ (r, e'). cc (e'))
benchmark_status_iff RunResult.write_failed = ((λ h. cc), λ (r, e'). cc (e'))
benchmark_status_iff (RunResult.benchmark_failed report) = ((λ h. cc), λ (r, e'). cc (e'))

probe_status_iff : (r : Probed) → (probe_status r ≡ some 0) ↔ (r ≡ Probed.passed)
unfolding probe_status
probe_status_iff r = ground arith

wait_status_iff : (r : Waited) → (wait_status r ≡ some 0) ↔ (r ≡ Waited.observed)
unfolding wait_status
wait_status_iff r = ground arith

errors_status_iff : (es : List WorkflowError) → (errors_status es ≡ some 0) ↔ (es ≡ [])
unfolding errors_status
errors_status_iff [] = ((λ h. refl), λ h. refl)
errors_status_iff (e ∷ es) = ((λ h. cc), λ h. cc)

module _ (w : World) (f : Flags) where
  plain_iff :
      ((not (f.expect_status == pos 0) || not (f.expect_network == "")) ≡ false)
      ↔ ((f.expect_status ≡ pos 0) × (f.expect_network ≡ ""))
  plain_iff = ground (
    arith,
    int_equal.equal_iff f.expect_status (pos 0),
    string_equal.equal_iff f.expect_network "",
  )

  probe_guard : Bool
  probe_guard =
      (not (f.expect_network == "allowed") && not (f.expect_network == "blocked"))
      || not (f.expect_status == pos 0)
      || not (f.token_file == "")

  probe_guard_iff : (probe_guard ≡ false) ↔ (
      ((f.expect_network ≡ "allowed") ⊎ (f.expect_network ≡ "blocked"))
      × (f.expect_status ≡ pos 0)
      × (f.token_file ≡ ""))
  unfolding probe_guard
  probe_guard_iff = ground (
    arith,
    int_equal.equal_iff f.expect_status (pos 0),
    string_equal.equal_iff f.expect_network "allowed",
    string_equal.equal_iff f.expect_network "blocked",
    string_equal.equal_iff f.token_file "",
  )

  benchmark-Achieves : f.benchmark ≡ true → run_benchmark w f ≡ some 0 → Achieves w f
  unfolding run_benchmark by_workers
  benchmark-Achieves chosen h =
      elim (Bool-cases (not (f.expect_status == pos 0) || not (f.expect_network == ""))) [
        | inl mixed ↦ absurd (cc (rw mixed at h))
        | inr plain ↦ elim (Option-cases (workers_of f.concurrency)) [
          | inl bad ↦ absurd (cc (rw (plain, bad) at h))
          | inr (workers, parsed) ↦
              let (report, passed) = (benchmark_status_iff _).0 (rw (plain, parsed) at h) in
              benchmarked chosen (plain_iff.0 plain).0 (plain_iff.0 plain).1 workers parsed report
                passed
        ]
      ]

  probe_chosen :
      (f.expect_network ≡ "allowed") ⊎ (f.expect_network ≡ "blocked")
      → not (f.expect_network == "") ≡ true
  probe_chosen (inl e) = ap (λ (n : String). not (n == "")) e
  probe_chosen (inr e) = ap (λ (n : String). not (n == "")) e

  silent : f.expect_network ≡ "" → not (f.expect_network == "") ≡ false
  silent e = ap (λ (n : String). not (n == "")) e

  asked : f.expect_status ≢ pos 0 → not (f.expect_status == pos 0) ≡ true
  asked ne = ground (arith, ne, int_equal.equal_iff f.expect_status (pos 0))

  unasked : f.expect_status ≡ pos 0 → not (f.expect_status == pos 0) ≡ false
  unasked e = ap (λ (n : ℤ). not (n == pos 0)) e

  probe-Achieves : f.benchmark ≡ false → run_probe w f ≡ some 0 → Achieves w f
  unfolding run_probe probe_guard
  probe-Achieves chosen h = elim (Bool-cases probe_guard) [
    | inl bad ↦ absurd (cc (rw bad at h))
    | inr good ↦
        let (network, status, file) = probe_guard_iff.0 good in
        probed chosen network status file ((probe_status_iff _).0 (rw good at h))
  ]

  -- Without the benchmark, by the tests on the other two flags.
  other-Achieves :
      (network status : Bool)
      → f.benchmark ≡ false
      → network ≡ not (f.expect_network == "")
      → status ≡ not (f.expect_status == pos 0)
      → (if network then run_probe w f else if status then run_wait w f else run_workflow w f)
        ≡ some 0
      → Achieves w f
  unfolding run_wait run_workflow
  other-Achieves true status other n s h = probe-Achieves other h
  other-Achieves false true other n s h =
      waited other (ground (arith, string_equal.equal_iff f.expect_network "", n))
        (λ e. ground (arith, int_equal.equal_iff f.expect_status (pos 0), s))
        ((wait_status_iff _).0 h)
  other-Achieves false false other n s h =
      worked other (ground (arith, string_equal.equal_iff f.expect_network "", n))
        (ground (arith, int_equal.equal_iff f.expect_status (pos 0), s)) ((errors_status_iff _).0 h)

  dispatch-Achieves : dispatch w f ≡ some 0 → Achieves w f
  unfolding dispatch
  dispatch-Achieves h = elim (Bool-cases f.benchmark) [
    | inl chosen ↦ benchmark-Achieves chosen (sym (if_true (run_benchmark w f) _ chosen) ∙ h)
    | inr other ↦
        other-Achieves (not (f.expect_network == "")) (not (f.expect_status == pos 0)) other refl
          refl (sym (if_false (run_benchmark w f) _ other) ∙ h)
  ]

  Achieves-dispatch : Achieves w f → dispatch w f ≡ some 0
  unfolding dispatch run_benchmark run_probe run_wait run_workflow by_workers probe_guard
  Achieves-dispatch (benchmarked chosen status network workers parsed report passed) =
      if_true _ _ chosen
      ∙ if_false _ _ (plain_iff.1 (status, network))
      ∙ rw parsed ((benchmark_status_iff _).1 (report, passed))
  Achieves-dispatch (probed other network status file passed) =
      if_false _ _ other
      ∙ if_true _ _ (probe_chosen network)
      ∙ if_false _ _ (probe_guard_iff.1 (network, status, file))
      ∙ (probe_status_iff _).1 passed
  Achieves-dispatch (waited other network status seen) =
      if_false _ _ other
      ∙ if_false _ _ (silent network)
      ∙ if_true _ _ (asked status)
      ∙ (wait_status_iff _).1 seen
  Achieves-dispatch (worked other network status done) =
      if_false _ _ other
      ∙ if_false _ _ (silent network)
      ∙ if_false _ _ (unasked status)
      ∙ (errors_status_iff _).1 done

-- The program ends with status 0 exactly if its timeout is positive, there are no positional arguments,
-- and the one function that its flags choose has succeeded: the benchmark, with no other mode and with
-- the workers that are listed; the network probe, without a token file; the wait for a status; or the
-- workflow.
pub main_iff :
    (world : (timeout : ℤ) → World) (f : Flags)
    → (main world f ≡ some 0)
      ↔ ((pos 1 ≤ℤ timeout_of f) × (f.positional ≡ 0) × Achieves (world (timeout_of f)) f)
unfolding main
main_iff world f = elim (Bool-cases (leb_ℤ (timeout_of f) (pos 0) || not (f.positional == 0))) [
  | inl bad ↦ ((λ h. absurd (cc (rw bad at h))), λ (long, alone, done). absurd (ground arith))
  | inr good ↦ (
    (λ h. (
      ground arith,
      ground arith,
      dispatch-Achieves (world (timeout_of f)) f (sym (if_false _ _ good) ∙ h),
    )),
    λ (long, alone, done). if_false _ _ good ∙ Achieves-dispatch (world (timeout_of f)) f done,
  )
]
