-- ===== src/Command/Client.antt =====
-- hack/mcp-client/main.go: the flags, the choice of what is run, and the exit status. What the chosen
-- function meets depends on the deadline that its context gets, and is a `World`.
pub mod Status
pub mod Workers
use portkeeper.Common.{
  ℕ, String, Bool, true, false, ◌||◌, ◌&&◌, not, Option, none, some, List, [], ◌∷◌, ◌==◌,
  if◌then◌else◌, string_equal, nat_equal,
}
use portkeeper.Common.Int.{ℤ, pos, int_equal, leb_ℤ}
use portkeeper.Common.Text.{split, trim, is_space}
use portkeeper.Common.Text.Number.{atoi}
use portkeeper.Client.{Credentials, Url, valid_target}
use portkeeper.Client.Waiting.{Attempt, Waited, wait_for_status}
use portkeeper.Client.Probe.{Dial, Probed, probe_network}
use portkeeper.Client.Workflow.{Session, WorkflowError, Outcome, run}
use portkeeper.Benchmark.{BenchmarkConfig}
use portkeeper.Benchmark.Run.{RunEnv, RunResult, benchmark}

-- The flags after `flag.Parse`. The timeout is `none` unless it was given, in nanoseconds.
pub record Flags : Type 0 where
  pub endpoint : String
  pub agent_id : String
  pub token_file : String
  pub topic : String
  pub timeout : Option ℤ
  pub expect_status : ℤ
  pub expect_network : String
  pub benchmark : Bool
  pub direct_endpoint : String
  pub concurrency : String
  pub calls_per_worker : ℤ
  pub warmup : ℤ
  pub repetitions : ℤ
  pub positional : ℕ

abbrev pub no_flags : Flags
no_flags = record {
  endpoint = "http://127.0.0.1:8080/portkeeper-demo/runbooks/mcp";
  agent_id = "";
  token_file = "";
  topic = "gateway-routing";
  timeout = none;
  expect_status = pos 0;
  expect_network = "";
  benchmark = false;
  direct_endpoint = "";
  concurrency = "1,4,8";
  calls_per_worker = pos 20;
  warmup = pos 3;
  repetitions = pos 2;
  positional = 0;
}

-- 10 minutes for a benchmark, and 30 seconds
default_timeout : Bool → ℤ
default_timeout benchmark = if benchmark then pos 600_000_000_000 else pos 30_000_000_000

given_or : ℤ → Option ℤ → ℤ
given_or def none = def
given_or def (some t) = t

unfoldable pub timeout_of : Flags → ℤ
unfolding default_timeout given_or
timeout_of f = given_or (default_timeout f.benchmark) f.timeout

onto_workers : Option ℤ → Option (List ℤ) → Option (List ℤ)
onto_workers none ns = none
onto_workers (some n) none = none
onto_workers (some n) (some ns) = some (n ∷ ns)

unfoldable pub parse_workers : List String → Option (List ℤ)
unfolding onto_workers
parse_workers [] = some []
parse_workers (v ∷ vs) = onto_workers (atoi (trim is_space v)) (parse_workers vs)

unfoldable pub workers_of : String → Option (List ℤ)
workers_of s = parse_workers (split "," s)

abbrev pub credentials_of : Flags → Credentials
credentials_of f = record { token_file = f.token_file; agent_id = f.agent_id }

abbrev pub config_of : Flags → List ℤ → BenchmarkConfig
config_of f workers = record {
  direct_endpoint = f.direct_endpoint;
  gateway_endpoint = f.endpoint;
  credentials = credentials_of f;
  concurrency = workers;
  calls_per_worker = f.calls_per_worker;
  warmup_per_worker = f.warmup;
  repetitions = f.repetitions;
  topic = f.topic;
}

pub record World : Type 0 where
  pub parse_url : String → Option Url
  pub run_env : RunEnv
  pub lookup_ip : String → Option (List String)
  pub dial : (address port : String) → Dial
  pub writes : Bool
  pub attempts : List Attempt
  pub accepts : List String → Bool
  pub connect : (endpoint : String) → Credentials → Option Session

-- The status, or `none` while the program has not ended.
benchmark_status : RunResult → Option ℕ
benchmark_status (RunResult.passed report) = some 0
benchmark_status _ = some 1

probe_status : Probed → Option ℕ
probe_status Probed.passed = some 0
probe_status _ = some 1

wait_status : Waited → Option ℕ
wait_status Waited.observed = some 0
wait_status (Waited.waiting last) = none
wait_status _ = some 1

errors_status : List WorkflowError → Option ℕ
errors_status [] = some 0
errors_status (e ∷ es) = some 1

-- `none` is the fatal error of a concurrency that is no list of integers.
by_workers : World → Flags → Option (List ℤ) → Option ℕ
unfolding benchmark_status
by_workers w f none = some 1
by_workers w f (some workers) =
    benchmark_status (benchmark (valid_target w.parse_url) w.run_env (config_of f workers))

unfoldable pub run_benchmark : World → Flags → Option ℕ
unfolding by_workers
run_benchmark w f =
    if not (f.expect_status == pos 0) || not (f.expect_network == "")
    then some 1
    else by_workers w f (workers_of f.concurrency)

unfoldable pub run_probe : World → Flags → Option ℕ
unfolding probe_status
run_probe w f =
    if (not (f.expect_network == "allowed") && not (f.expect_network == "blocked"))
      || not (f.expect_status == pos 0)
      || not (f.token_file == "")
    then some 1
    else probe_status (
        probe_network w.parse_url w.lookup_ip w.dial (f.expect_network == "blocked") w.writes
          f.endpoint)

unfoldable pub run_wait : World → Flags → Option ℕ
unfolding wait_status
run_wait w f =
    wait_status (wait_for_status w.parse_url f.endpoint w.writes f.expect_status w.attempts)

unfoldable pub run_workflow : World → Flags → Option ℕ
unfolding errors_status
run_workflow w f =
    errors_status (run w.parse_url w.accepts w.connect f.endpoint (credentials_of f) f.topic).errors

unfoldable pub dispatch : World → Flags → Option ℕ
unfolding run_benchmark run_probe run_wait run_workflow
dispatch w f =
    if f.benchmark
    then run_benchmark w f
    else if not (f.expect_network == "")
    then run_probe w f
    else if not (f.expect_status == pos 0)
    then run_wait w f
    else run_workflow w f

unfoldable pub main : (world : (timeout : ℤ) → World) → Flags → Option ℕ
unfolding timeout_of
main world f =
    if leb_ℤ (timeout_of f) (pos 0) || not (f.positional == 0)
    then some 1
    else dispatch (world (timeout_of f)) f
