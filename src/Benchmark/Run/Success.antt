-- ===== src/Benchmark/Run/Success.antt =====
-- What a report says of the calls that were made.
use portkeeper.Common.{
  ℕ, ◌+◌, ◌*◌, ◌≤◌, ◌≡◌, refl, ◌∙◌, String, Bool, true, false, List, [], ◌∷◌, ◌++◌, arith, length,
  length-append, if◌then◌else◌, Bool-cases, inl, inr, ◌⊎◌, nat_equal,
}
use portkeeper.Common.Int.{pos_part}
use portkeeper.Benchmark.{BenchmarkConfig, Normalized, accepted, refused, normalize_benchmark}
use portkeeper.Benchmark.Bounds.{IsWithin, normalize_benchmark-IsWithin}
use portkeeper.Benchmark.Measurement.{BenchmarkMeasurement}
use portkeeper.Benchmark.Phase.{PhaseSpec}
use portkeeper.Benchmark.Phase.Cleanliness.{benchmark_phase-IsConsistent}
use portkeeper.Benchmark.Overhead.{benchmark_overhead}
use portkeeper.Benchmark.Run.{
  BenchmarkReport, RunEnv, RunResult, benchmark_failed, passed, plan, measured_by, add_measurement,
  run_phases, new_report, with_overhead, finish, all_phases, run_normalized, benchmark,
}
use portkeeper.Benchmark.Run.Plan.{planned, plan_lem}

abbrev pub attempts_of : List BenchmarkMeasurement → ℕ
attempts_of [] = 0
attempts_of (m ∷ ms) = m.attempts + attempts_of ms

attempts_of-append :
    (xs ys : List BenchmarkMeasurement) → attempts_of (xs ++ ys) ≡ attempts_of xs + attempts_of ys
attempts_of-append [] ys = omega arith
attempts_of-append (x ∷ xs) ys = omega (arith, attempts_of-append xs ys)

module _ (env : RunEnv) (c : BenchmarkConfig) where
  -- The loop adds one measurement for a phase at most, and no more calls than are planned.
  run_phases-le :
      (specs : List PhaseSpec) (r : BenchmarkReport)
      → (length (run_phases env c specs r).measurements ≤ length r.measurements + length specs)
        × (attempts_of (run_phases env c specs r).measurements
            ≤ attempts_of r.measurements + planned (pos_part c.calls_per_worker) specs)
        × ((run_phases env c specs r).config ≡ r.config)
  unfolding run_phases
  run_phases-le [] r = (omega arith, omega arith, refl)
  run_phases-le (spec ∷ specs) r =
      let m : BenchmarkMeasurement = measured_by env c spec in
      let next : BenchmarkReport = add_measurement r m in
      let (consistent, within, plan) = benchmark_phase-IsConsistent (env.world spec) c spec in
      let (shorter, fewer, same) = run_phases-le specs next in
      let one = length-append r.measurements (m ∷ []) in
      let calls = attempts_of-append r.measurements (m ∷ []) in
      elim (Bool-cases (env.ended_after spec)) [
        | inl over ↦
            rw (over, if◌then◌else◌) (omega (arith, one), omega (arith, calls, within, plan), refl)
        | inr going ↦
            rw (going, if◌then◌else◌)
              (omega (arith, shorter, one), omega (arith, fewer, calls, within, plan), same)
      ]

-- Nothing went wrong in a phase, and every planned call was made.
pub record IsClean (m : BenchmarkMeasurement) : Type 0 where
  pub complete : m.attempts ≡ m.planned_calls
  pub no_errors : m.errors ≡ 0
  pub initialized : length m.initialization_errors ≡ 0
  pub closed : length m.close_errors ≡ 0
  pub warm : length m.warmup_errors ≡ 0

-- The run came to a report, which was written.
abbrev pub Reported : RunResult → BenchmarkReport → Type 0
Reported result r = (result ≡ benchmark_failed r) ⊎ (result ≡ passed r)

finish_report : (writes : Bool) (q r : BenchmarkReport) → Reported (finish writes q) r → q ≡ r
unfolding finish
finish_report true q r (inl e) = elim (Bool-cases q.successful) [
  | inl good ↦ cc (rw (good, if◌then◌else◌) at e)
  | inr bad ↦ cc (rw (bad, if◌then◌else◌) at e)
]
finish_report true q r (inr e) = elim (Bool-cases q.successful) [
  | inl good ↦ cc (rw (good, if◌then◌else◌) at e)
  | inr bad ↦ cc (rw (bad, if◌then◌else◌) at e)
]
finish_report false q r (inl e) = cc
finish_report false q r (inr e) = cc

-- What the overhead leaves alone.
with_overhead_kept :
    (q : BenchmarkReport)
    → ((with_overhead q).measurements ≡ q.measurements)
      × ((with_overhead q).config ≡ q.config)
      × ((with_overhead q).successful ≡ q.successful)
      × (q.successful ≡ true → (with_overhead q).overhead ≡ benchmark_overhead q.measurements)
unfolding with_overhead
with_overhead_kept q = elim (Bool-cases q.successful) [
  | inl good ↦ rw (good, if◌then◌else◌) (refl, refl, refl, λ h. refl)
  | inr bad ↦ rw (bad, if◌then◌else◌) (refl, refl, refl, λ h. cc)
]

run_normalized_report :
    (env : RunEnv) (n : Normalized) (r : BenchmarkReport)
    → Reported (run_normalized env n) r
    → (d : BenchmarkConfig) × (n ≡ accepted d) × (with_overhead (all_phases env d) ≡ r)
unfolding run_normalized
run_normalized_report env (refused c e) r (inl h) = cc
run_normalized_report env (refused c e) r (inr h) = cc
run_normalized_report env (accepted d) r h =
    (d, refl, finish_report env.writes (with_overhead (all_phases env d)) r h)

-- Whatever the endpoints answer, a report that is written is that of an accepted configuration, holds at
-- most four measurements for each concurrency value and repetition, and counts at most 100000 measured
-- calls.
pub benchmark-bounded :
    (valid_target : String → Bool) (env : RunEnv) (c : BenchmarkConfig) (r : BenchmarkReport)
    → Reported (benchmark valid_target env c) r
    → IsWithin r.config
      × (length r.measurements ≤ length r.config.concurrency * (4 * pos_part r.config.repetitions))
      × (attempts_of r.measurements ≤ 100_000)
unfolding benchmark
benchmark-bounded valid_target env c r h =
    let (d, e, same) = run_normalized_report env (normalize_benchmark valid_target c) r h in
    let within = (normalize_benchmark-IsWithin valid_target c d e).1 in
    let specs = plan (pos_part d.repetitions) d.concurrency in
    let (kept, config, _, _) = with_overhead_kept (all_phases env d) in
    let (shorter, fewer, same_config) = run_phases-le env d specs (new_report env d) in
    let (phases, calls) = plan_lem d d.concurrency in
    rw (← same, kept, config ∙ same_config)
      (within, omega (arith, shorter, phases), omega (arith, fewer, calls, within.calls))
