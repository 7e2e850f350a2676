-- ===== src/Benchmark/Run.antt =====
-- `Benchmark` of internal/democlient/benchmark.go: the loop over the phases, and the report.
pub mod Plan
pub mod Success
use portkeeper.Common.{
  ℕ, zero, suc, ◌+◌, ◌%◌, String, Bool, true, false, ◌&&◌, ◌||◌, not, List, [], ◌∷◌, ◌++◌, ◌==◌,
  if◌then◌else◌, ltb, length, string_equal, nat_equal,
}
use portkeeper.Common.Int.{ℤ, pos_part}
use portkeeper.Benchmark.{
  BenchmarkConfig, ConfigError, Normalized, accepted, refused, normalize_benchmark,
}
use portkeeper.Benchmark.Measurement.{BenchmarkMeasurement}
use portkeeper.Benchmark.Calls.{read_tool, stream_tool}
use portkeeper.Benchmark.Phase.{PhaseEnv, PhaseSpec, Connection, benchmark_phase}
use portkeeper.Benchmark.Overhead.{BenchmarkOverhead, benchmark_overhead}

-- The values of package runtime.
pub record Host : Type 0 where
  pub go_version : String
  pub os : String
  pub arch : String
  pub cpus : ℕ

pub record BenchmarkReport : Type 0 where
  pub schema_version : ℕ
  pub successful : Bool
  pub host : Host
  pub config : BenchmarkConfig
  pub measurements : List BenchmarkMeasurement
  pub overhead : List BenchmarkOverhead

-- What the phases meet, whether the context has ended after a phase, and whether the output takes
-- the report.
pub record RunEnv : Type 0 where
  pub host : Host
  pub world : PhaseSpec → Connection → PhaseEnv
  pub ended_after : PhaseSpec → Bool
  pub writes : Bool

-- How `Benchmark` returns: with an error before any report or after one, or with nil.
pub data RunResult : Type 0 where
  bad_config : ConfigError → RunResult
  write_failed : RunResult
  benchmark_failed : BenchmarkReport → RunResult
  passed : BenchmarkReport → RunResult

abbrev pub direct_and_gateway : String → String → (tool : String) → ℤ → ℕ → List PhaseSpec
direct_and_gateway first second tool n repetition =
    record { target = first; tool = tool; concurrency = n; repetition = repetition }
    ∷ record { target = second; tool = tool; concurrency = n; repetition = repetition }
    ∷ []

-- The two targets of a repetition, in the order that alternates.
unfoldable pub targets_of : String → ℤ → ℕ → List PhaseSpec
targets_of tool n repetition =
    if repetition % 2 == 0
    then direct_and_gateway "gateway" "direct" tool n repetition
    else direct_and_gateway "direct" "gateway" tool n repetition

unfoldable pub repetitions_from : String → ℤ → ℕ → (left : ℕ) → List PhaseSpec
repetitions_from tool n repetition zero = []
repetitions_from tool n repetition (suc left) =
    targets_of tool n repetition ++ repetitions_from tool n (suc repetition) left

-- The phases in the order of the nested loops.
unfoldable pub plan : (repetitions : ℕ) → List ℤ → List PhaseSpec
plan repetitions [] = []
plan repetitions (n ∷ ns) =
    repetitions_from read_tool n 1 repetitions
    ++ (repetitions_from stream_tool n 1 repetitions ++ plan repetitions ns)

abbrev pub is_clean : BenchmarkMeasurement → Bool
is_clean m =
    m.attempts == m.planned_calls
    && not (ltb 0 m.errors)
    && not (ltb 0 (length m.initialization_errors + length m.close_errors + length m.warmup_errors))

abbrev pub measured_by : RunEnv → BenchmarkConfig → PhaseSpec → BenchmarkMeasurement
measured_by env c spec = benchmark_phase (env.world spec) c spec

abbrev pub add_measurement : BenchmarkReport → BenchmarkMeasurement → BenchmarkReport
add_measurement r m = record r {
  measurements = r.measurements ++ m ∷ [];
  successful = r.successful && is_clean m;
}

-- The body of the loops. A context that has ended leaves all of them.
unfoldable pub run_phases :
    RunEnv → BenchmarkConfig → List PhaseSpec → BenchmarkReport → BenchmarkReport
run_phases env c [] r = r
run_phases env c (spec ∷ specs) r =
    let next = add_measurement r (measured_by env c spec) in
    let rest = run_phases env c specs next in
    if env.ended_after spec then record next { successful = false } else rest

abbrev pub new_report : RunEnv → BenchmarkConfig → BenchmarkReport
new_report env c = record {
  schema_version = 1;
  successful = true;
  host = env.host;
  config = c;
  measurements = [];
  overhead = [];
}

with_overhead : BenchmarkReport → BenchmarkReport
with_overhead r =
    if r.successful then record r { overhead = benchmark_overhead r.measurements } else r

finish : Bool → BenchmarkReport → RunResult
finish writes r =
    if not writes then write_failed else if not r.successful then benchmark_failed r else passed r

abbrev pub all_phases : RunEnv → BenchmarkConfig → BenchmarkReport
all_phases env c = run_phases env c (plan (pos_part c.repetitions) c.concurrency) (new_report env c)

run_normalized : RunEnv → Normalized → RunResult
unfolding with_overhead finish
run_normalized env (refused c e) = bad_config e
run_normalized env (accepted c) = finish env.writes (with_overhead (all_phases env c))

module _ (valid_target : String → Bool) where
  unfoldable pub benchmark : RunEnv → BenchmarkConfig → RunResult
  unfolding run_normalized
  benchmark env c = run_normalized env (normalize_benchmark valid_target c)
