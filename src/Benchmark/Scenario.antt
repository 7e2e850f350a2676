-- ===== src/Benchmark/Scenario.antt =====
-- A benchmark of four phases with one worker and one call each, whose endpoints answer as they should.
use portkeeper.Common.{
  ℕ, String, Bool, true, false, not, ◌≡◌, refl, [], ◌∷◌, some, ◌==◌, string_equal,
}
use portkeeper.Common.Dict.{lookup, insert}
use portkeeper.Common.Text.Decimal.{show_ℕ}
use portkeeper.Common.Int.{pos, ◌-ℤ◌, ◌*ℕ◌}
use portkeeper.Benchmark.{BenchmarkConfig, normalize_benchmark, with_defaults}
use portkeeper.Benchmark.Latency.{latency_summary, sort, insert_sorted, percentile}
use portkeeper.Benchmark.Errors.{ContextState, benchmark_error}
use portkeeper.Benchmark.Measurement.{
  tally, tally_all, count_sample, count_samples, with_rates, aggregate_measurement,
}
use portkeeper.Benchmark.Calls.{
  read_tool, stream_tool, text, Returned, returned, Notification, CallReply, progress, progress_all,
  call_token, prepared, reply_category, stream_category, call,
}
use portkeeper.Benchmark.Phase.{
  tools_listed, closed, PhaseEnv, connection_of, workers_from, setup_category, close_category,
  worker_calls, concat, new_measurement, run_workers, benchmark_phase,
}
use portkeeper.Benchmark.Overhead.{
  delta, compare_measurements, against, overhead_of, benchmark_overhead,
}
use portkeeper.Benchmark.Run.{
  BenchmarkReport, RunEnv, RunResult, benchmark_failed, passed, targets_of, repetitions_from, plan,
  run_phases, new_report, benchmark,
}

abbrev pub small : BenchmarkConfig
small = record {
  direct_endpoint = "http://direct";
  gateway_endpoint = "http://gateway";
  credentials = record { token_file = "token"; agent_id = "" };
  concurrency = pos 1 ∷ [];
  calls_per_worker = pos 1;
  warmup_per_worker = pos 1;
  repetitions = pos 1;
  topic = "gateway-routing";
}

abbrev pub nonempty : String → Bool
nonempty s = not (s == "")

abbrev pub told : String → ℕ → Notification
told token at = record { progress_token = token; at = at }

abbrev pub answer : Returned
answer =
    returned
      (some (record { is_error = false; needs_input = false; content = text "# Runbook" ∷ [] }))

-- Three notifications of the call, and one of an earlier call.
abbrev pub good_reply : String → CallReply
good_reply token = record {
  start = 1_000;
  end = 150_001_000;
  notifications =
      told "measured-0-9" 1_500
      ∷ told token 2_000
      ∷ told token 50_002_000
      ∷ told token 100_002_000
      ∷ [];
  reply = answer;
  status = 200;
  ctx = ContextState.live;
}

abbrev pub good_env : PhaseEnv
good_env = record {
  setup = λ i. tools_listed (read_tool ∷ stream_tool ∷ []);
  ended = λ phase i n. false;
  reply = λ phase i n. good_reply (call_token phase i n);
  close = λ i. closed ContextState.live 200;
  wall = pos 150_000_000;
}

abbrev pub good_run : RunEnv
good_run = record {
  host = record { go_version = "go1.25"; os = "linux"; arch = "amd64"; cpus = 8 };
  world = λ spec connection. good_env;
  ended_after = λ spec. false;
  writes = true;
}

abbrev pub report_of : RunResult → BenchmarkReport
report_of (passed r) = r
report_of (benchmark_failed r) = r
report_of _ = new_report good_run small

unfoldable pub benchmark_code : Unit {0}
unfolding lookup insert show_ℕ ◌-ℤ◌ ◌*ℕ◌ normalize_benchmark with_defaults latency_summary sort
    insert_sorted percentile benchmark_error tally tally_all count_sample count_samples with_rates
    aggregate_measurement progress progress_all call_token prepared reply_category stream_category
    call connection_of workers_from setup_category close_category worker_calls concat
    new_measurement run_workers benchmark_phase delta compare_measurements against overhead_of
    benchmark_overhead targets_of repetitions_from plan run_phases benchmark
benchmark_code = tt

abbrev pub small_report : BenchmarkReport
small_report = report_of (benchmark nonempty good_run small)

pub small_passes : benchmark nonempty good_run small ≡ passed small_report
unfolding benchmark_code
small_passes = refl
