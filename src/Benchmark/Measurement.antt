-- ===== src/Benchmark/Measurement.antt =====
-- The samples of internal/democlient/benchmark.go and `aggregateMeasurement`. A rate per second is
-- the number of calls and the time in nanoseconds that they took.
pub mod Totals
use portkeeper.Common.{
  ℕ, suc, ◌+◌, String, Bool, not, List, [], ◌∷◌, ◌++◌, Option, none, some, ◌==◌, if◌then◌else◌, ltb,
  string_equal,
}
use portkeeper.Common.Dict.{lookup, insert}
use portkeeper.Common.Int.{ℤ, pos, ltb_ℤ}
use portkeeper.Benchmark.Latency.{LatencySummary, latency_summary}

pub record BenchmarkSample : Type 0 where
  pub worker : ℕ
  pub call : ℕ
  pub duration : ℤ
  pub first_progress : ℤ
  pub progress_updates : ℕ
  pub error_category : String
  pub jsonrpc_error_code : Option ℤ

abbrev pub Counts : Type 0
Counts = List (String × ℕ)

pub record Rate : Type 0 where
  pub calls : ℕ
  pub time : ℤ

pub record BenchmarkMeasurement : Type 0 where
  pub target : String
  pub tool : String
  pub concurrency : ℤ
  pub repetition : ℕ
  pub planned_calls : ℕ
  pub attempts : ℕ
  pub successes : ℕ
  pub errors : ℕ
  pub error_categories : Counts
  pub initialization_errors : Counts
  pub close_errors : Counts
  pub warmup_attempts : ℕ
  pub warmup_errors : Counts
  pub wall : ℤ
  pub attempts_per_second : Option Rate
  pub successes_per_second : Option Rate
  pub completion_latency : LatencySummary
  pub success_latency : LatencySummary
  pub first_progress_latency : LatencySummary
  pub samples : List BenchmarkSample

next_count : Option ℕ → ℕ
next_count none = 1
next_count (some n) = suc n

-- `m[category]++`
unfoldable pub tally : String → Counts → Counts
unfolding next_count
tally category m = insert category (next_count (lookup category m)) m

-- The loop over categories of which the empty ones are skipped.
unfoldable pub tally_all : List String → Counts → Counts
tally_all [] m = m
tally_all (category ∷ categories) m =
    tally_all categories (if category == "" then m else tally category m)

-- The variables of the loop over the samples.
pub record Progress : Type 0 where
  pub measurement : BenchmarkMeasurement
  pub completed : List ℤ
  pub successful : List ℤ
  pub progress : List ℤ

abbrev pub failed_sample : BenchmarkSample → Progress → Progress
failed_sample x p = record p {
  measurement = record p.measurement {
    attempts = suc p.measurement.attempts;
    errors = suc p.measurement.errors;
    error_categories = tally x.error_category p.measurement.error_categories;
  };
  completed = p.completed ++ x.duration ∷ [];
}

abbrev pub successful_sample : BenchmarkSample → Progress → Progress
successful_sample x p = record p {
  measurement = record p.measurement {
    attempts = suc p.measurement.attempts;
    successes = suc p.measurement.successes;
  };
  completed = p.completed ++ x.duration ∷ [];
  successful = p.successful ++ x.duration ∷ [];
  progress = if ltb 0 x.progress_updates then p.progress ++ x.first_progress ∷ [] else p.progress;
}

unfoldable pub count_sample : BenchmarkSample → Progress → Progress
count_sample x p = if not (x.error_category == "") then failed_sample x p else successful_sample x p

unfoldable pub count_samples : List BenchmarkSample → Progress → Progress
count_samples [] p = p
count_samples (x ∷ xs) p = count_samples xs (count_sample x p)

unfoldable pub with_rates : BenchmarkMeasurement → BenchmarkMeasurement
with_rates m =
    if ltb_ℤ (pos 0) m.wall
    then record m {
      attempts_per_second = some (record { calls = m.attempts; time = m.wall });
      successes_per_second = some (record { calls = m.successes; time = m.wall });
    }
    else m

unfoldable pub aggregate_measurement : BenchmarkMeasurement → BenchmarkMeasurement
aggregate_measurement m =
    let p =
      count_samples m.samples
        (record { measurement = m; completed = []; successful = []; progress = [] }) in
    with_rates (record p.measurement {
      completion_latency = latency_summary p.completed;
      success_latency = latency_summary p.successful;
      first_progress_latency = latency_summary p.progress;
    })
