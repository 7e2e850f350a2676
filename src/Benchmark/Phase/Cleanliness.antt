-- ===== src/Benchmark/Phase/Cleanliness.antt =====
-- How many calls a phase makes.
use portkeeper.Common.{
  ℕ, zero, suc, ◌*◌, ◌≤◌, String, ◌≡◌, refl, ap, ◌∙◌, List, [], ◌∷◌, arith, length, length-append,
}
use portkeeper.Common.Int.{pos_part}
use portkeeper.Benchmark.{BenchmarkConfig}
use portkeeper.Benchmark.Measurement.{BenchmarkSample, BenchmarkMeasurement, Counts, tally_all}
use portkeeper.Benchmark.Measurement.Totals.{
  IsConsistent, IsFresh, aggregate_measurement-IsConsistent,
}
use portkeeper.Benchmark.Phase.{
  PhaseEnv, Connection, PhaseSpec, connection_of, workers_from, worker_calls, concat,
  new_measurement, run_workers, run_if_ready, benchmark_phase, setup_category, close_category,
  parallel_workers,
}

length-worker_calls :
    (env : PhaseEnv) (tool phase : String) (worker rounds number : ℕ)
    → length (worker_calls env tool phase worker rounds number) ≤ rounds
unfolding worker_calls
length-worker_calls env tool phase worker zero number = omega arith
length-worker_calls env tool phase worker (suc rounds) number =
    ground (arith, length-worker_calls env tool phase worker rounds (suc number))

length-concat :
    {A : Type 0} (f : ℕ → List A) (bound i n : ℕ)
    → ((j : ℕ) → length (f j) ≤ bound)
    → length (concat (workers_from i n f)) ≤ n * bound
unfolding concat workers_from
length-concat f bound i zero h = omega arith
length-concat f bound i (suc n) h = grind (
  arith,
  length-append (f i) (concat (workers_from (suc i) n f)),
  h i,
  length-concat f bound (suc i) n h,
)

-- What the aggregation starts from in a phase.
record IsReady (m : BenchmarkMeasurement) : Type 0 where
  fresh : IsFresh m
  within : length m.samples ≤ m.planned_calls

run_workers-IsReady :
    (env : PhaseEnv) (c : BenchmarkConfig) (spec : PhaseSpec)
    → IsReady (run_workers env c (new_measurement c spec))
unfolding run_workers new_measurement
run_workers-IsReady env c spec = record {
  fresh = record { attempts = refl; successes = refl; errors = refl; categories = refl };
  within =
      length-concat (λ i. worker_calls env spec.tool "measured" i (pos_part c.calls_per_worker) 0)
        (pos_part c.calls_per_worker) 0 (pos_part spec.concurrency)
        (λ j. length-worker_calls env spec.tool "measured" j (pos_part c.calls_per_worker) 0);
}

run_if_ready-IsReady :
    (env : PhaseEnv) (c : BenchmarkConfig) (spec : PhaseSpec) (setup : Counts)
    → IsReady (run_if_ready env c (new_measurement c spec) setup)
      × ((run_if_ready env c (new_measurement c spec) setup).planned_calls
          ≡ pos_part spec.concurrency * pos_part c.calls_per_worker)
unfolding run_if_ready run_workers new_measurement
run_if_ready-IsReady env c spec [] = (run_workers-IsReady env c spec, refl)
run_if_ready-IsReady env c spec (e ∷ es) = (
  record {
    fresh = record { attempts = refl; successes = refl; errors = refl; categories = refl };
    within = omega arith;
  },
  refl,
)

-- A phase never makes more measured calls than it plans, whatever the workers meet, and its counters
-- agree with its samples.
pub benchmark_phase-IsConsistent :
    (world : Connection → PhaseEnv) (c : BenchmarkConfig) (spec : PhaseSpec)
    → IsConsistent (benchmark_phase world c spec)
      × ((benchmark_phase world c spec).attempts ≤ (benchmark_phase world c spec).planned_calls)
      × ((benchmark_phase world c spec).planned_calls
          ≡ pos_part spec.concurrency * pos_part c.calls_per_worker)
unfolding benchmark_phase
benchmark_phase-IsConsistent world c spec =
    let env = world (connection_of c spec.target) in
    let workers = pos_part spec.concurrency in
    let setup =
      tally_all (parallel_workers workers (λ i. setup_category spec.tool (env.setup i))) [] in
    let m : BenchmarkMeasurement = record (run_if_ready env c (new_measurement c spec) setup) {
      close_errors =
          tally_all (parallel_workers workers (λ i. close_category (env.setup i) (env.close i))) [];
    } in
    let (ready, plan) = run_if_ready-IsReady env c spec setup in
    let (consistent, samples, planned) = aggregate_measurement-IsConsistent m (record {
      attempts = ready.fresh.attempts;
      successes = ready.fresh.successes;
      errors = ready.fresh.errors;
      categories = ready.fresh.categories;
    }) in
    (
      consistent,
      omega (
        arith,
        consistent.attempts,
        ready.within,
        planned,
        ap (λ (l : List BenchmarkSample). length l) samples,
      ),
      planned ∙ plan,
    )
