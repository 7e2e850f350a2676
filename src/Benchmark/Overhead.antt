-- ===== src/Benchmark/Overhead.antt =====
-- `benchmarkOverhead` of internal/democlient/benchmark.go: the gateway against the direct endpoint. A
-- percentage is a fraction of two latencies.
use portkeeper.Common.{
  ℕ, String, Bool, ◌&&◌, List, [], ◌∷◌, ◌++◌, Option, none, some, ◌==◌, if◌then◌else◌, string_equal,
  nat_equal,
}
use portkeeper.Common.Int.{ℤ, pos, ◌-ℤ◌, ◌*ℕ◌, ltb_ℤ, int_equal}
use portkeeper.Benchmark.Latency.{LatencySummary}
use portkeeper.Benchmark.Measurement.{BenchmarkMeasurement}

pub record Fraction : Type 0 where
  pub numerator : ℤ
  pub denominator : ℤ

pub record BenchmarkOverhead : Type 0 where
  pub tool : String
  pub concurrency : ℤ
  pub repetition : ℕ
  pub completion_delta : LatencySummary
  pub p50_completion_percent : Option Fraction
  pub first_progress_delta : LatencySummary

unfoldable pub delta : LatencySummary → LatencySummary → LatencySummary
delta a b = record {
  samples = a.samples;
  p50 = b.p50 -ℤ a.p50;
  p95 = b.p95 -ℤ a.p95;
  p99 = b.p99 -ℤ a.p99;
}

unfoldable pub compare_measurements :
    BenchmarkMeasurement → BenchmarkMeasurement → BenchmarkOverhead
compare_measurements direct gateway =
    let completion = delta direct.completion_latency gateway.completion_latency in
    record {
      tool = direct.tool;
      concurrency = direct.concurrency;
      repetition = direct.repetition;
      completion_delta = completion;
      p50_completion_percent =
          if ltb_ℤ (pos 0) direct.completion_latency.p50
          then some (record {
            numerator = completion.p50 *ℕ 100;
            denominator = direct.completion_latency.p50;
          })
          else none;
      first_progress_delta = delta direct.first_progress_latency gateway.first_progress_latency;
    }

abbrev pub is_counterpart : BenchmarkMeasurement → BenchmarkMeasurement → Bool
is_counterpart direct gateway =
    gateway.target == "gateway"
    && gateway.tool == direct.tool
    && gateway.concurrency == direct.concurrency
    && gateway.repetition == direct.repetition

-- The inner loop.
unfoldable pub against : BenchmarkMeasurement → List BenchmarkMeasurement → List BenchmarkOverhead
against direct [] = []
against direct (gateway ∷ rest) =
    if is_counterpart direct gateway
    then compare_measurements direct gateway ∷ against direct rest
    else against direct rest

-- The outer loop, over the measurements that are left.
unfoldable pub overhead_of :
    List BenchmarkMeasurement → List BenchmarkMeasurement → List BenchmarkOverhead
overhead_of measurements [] = []
overhead_of measurements (direct ∷ rest) =
    if direct.target == "direct"
    then against direct measurements ++ overhead_of measurements rest
    else overhead_of measurements rest

unfoldable pub benchmark_overhead : List BenchmarkMeasurement → List BenchmarkOverhead
benchmark_overhead measurements = overhead_of measurements measurements
