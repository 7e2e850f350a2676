-- ===== src/Benchmark/Phase.antt =====
-- `benchmarkPhase` of internal/democlient/benchmark.go: the workers of one measurement. What a worker
-- meets at its endpoint is a `PhaseEnv`. Each worker writes to places of its own, so that the list of
-- what the workers do, in their order, stands for every way in which they run side by side.
pub mod Isolation
pub mod Cleanliness
use portkeeper.Common.{
  ℕ, zero, suc, ◌*◌, String, Bool, true, false, ◌&&◌, not, List, [], ◌∷◌, ◌++◌, map, Option, none,
  some, ◌==◌, if◌then◌else◌, leb, length, any, string_equal, nat_equal,
}
use portkeeper.Common.Int.{ℤ, pos, pos_part}
use portkeeper.Client.{Credentials}
use portkeeper.Benchmark.{BenchmarkConfig}
use portkeeper.Benchmark.Latency.{no_latency}
use portkeeper.Benchmark.Errors.{CallError, ContextState, benchmark_error}
use portkeeper.Benchmark.Measurement.{
  BenchmarkSample, BenchmarkMeasurement, Counts, tally_all, aggregate_measurement,
}
use portkeeper.Benchmark.Calls.{CallReply, call}

-- The first failure of a worker's setup, or the tools that it is told of.
pub data SetupReply : Type 0 where
  connect_failed list_failed : ContextState → CallError → (status : ℕ) → SetupReply
  tools_listed : List String → SetupReply

pub data CloseReply : Type 0 where
  close_failed : ContextState → CallError → (status : ℕ) → CloseReply
  closed : ContextState → (status : ℕ) → CloseReply

pub record PhaseEnv : Type 0 where
  pub setup : ℕ → SetupReply
  -- Whether the context has ended before a call of a worker.
  pub ended : (phase : String) (worker call : ℕ) → Bool
  pub reply : (phase : String) (worker call : ℕ) → CallReply
  pub close : ℕ → CloseReply
  pub wall : ℤ

pub record Connection : Type 0 where
  pub endpoint : String
  pub credentials : Credentials

pub record PhaseSpec : Type 0 where
  pub target : String
  pub tool : String
  pub concurrency : ℤ
  pub repetition : ℕ

unfoldable pub connection_of : BenchmarkConfig → (target : String) → Connection
connection_of c target =
    if target == "gateway"
    then record { endpoint = c.gateway_endpoint; credentials = c.credentials }
    else record {
      endpoint = c.direct_endpoint;
      credentials = record { token_file = ""; agent_id = "" };
    }

-- The results of the workers `i`, `i + 1`, and so on.
unfoldable pub workers_from {ℓ} : {A : Type ℓ} → ℕ → (count : ℕ) → (ℕ → A) → List A
workers_from i zero action = []
workers_from i (suc count) action = action i ∷ workers_from (suc i) count action

-- `parallelWorkers`
abbrev pub parallel_workers {ℓ} : {A : Type ℓ} → (count : ℕ) → (ℕ → A) → List A
parallel_workers count action = workers_from 0 count action

unfoldable pub setup_category : (tool : String) → SetupReply → String
setup_category tool (connect_failed ctx err status) = benchmark_error ctx err status
setup_category tool (list_failed ctx err status) = benchmark_error ctx err status
setup_category tool (tools_listed tools) = if any (λ t. t == tool) tools then "" else "missing_tool"

-- `errors.New("close rejected")`
abbrev pub close_rejected : CallError
close_rejected = record {
  deadline_exceeded = false;
  canceled = false;
  unexpected_eof = false;
  eof = false;
  rpc_code = none;
  net_timeout = none;
}

close_session : CloseReply → String
close_session (close_failed ctx err status) = benchmark_error ctx err status
close_session (closed ctx status) =
    if leb 300 status && not (status == 405) then benchmark_error ctx close_rejected status else ""

-- A worker that did not connect has no session to close.
unfoldable pub close_category : SetupReply → CloseReply → String
unfolding close_session
close_category (connect_failed ctx err status) r = ""
close_category (list_failed ctx err status) r = close_session r
close_category (tools_listed tools) r = close_session r

-- The loop of one worker over its calls.
unfoldable pub worker_calls :
    PhaseEnv → (tool phase : String) (worker rounds number : ℕ) → List BenchmarkSample
worker_calls env tool phase worker zero number = []
worker_calls env tool phase worker (suc rounds) number =
    let rest = worker_calls env tool phase worker rounds (suc number) in
    if env.ended phase worker number
    then []
    else call tool phase worker number (env.reply phase worker number) ∷ rest

unfoldable pub concat {ℓ} : {A : Type ℓ} → List (List A) → List A
concat [] = []
concat (xs ∷ xss) = xs ++ concat xss

abbrev pub calls_of_all :
    PhaseEnv → (tool phase : String) (workers rounds : ℕ) → List BenchmarkSample
calls_of_all env tool phase workers rounds =
    concat (parallel_workers workers (λ i. worker_calls env tool phase i rounds 0))

abbrev pub categories_of : List BenchmarkSample → List String
categories_of samples = map (λ s. s.error_category) samples

unfoldable pub new_measurement : BenchmarkConfig → PhaseSpec → BenchmarkMeasurement
new_measurement c spec = record {
  target = spec.target;
  tool = spec.tool;
  concurrency = spec.concurrency;
  repetition = spec.repetition;
  planned_calls = pos_part spec.concurrency * pos_part c.calls_per_worker;
  attempts = 0;
  successes = 0;
  errors = 0;
  error_categories = [];
  initialization_errors = [];
  close_errors = [];
  warmup_attempts = 0;
  warmup_errors = [];
  wall = pos 0;
  attempts_per_second = none;
  successes_per_second = none;
  completion_latency = no_latency;
  success_latency = no_latency;
  first_progress_latency = no_latency;
  samples = [];
}

-- The warm-up and the measured calls.
unfoldable pub run_workers :
    PhaseEnv → BenchmarkConfig → BenchmarkMeasurement → BenchmarkMeasurement
run_workers env c m =
    let warmup =
      calls_of_all env m.tool "warmup" (pos_part m.concurrency) (pos_part c.warmup_per_worker) in
    record m {
      warmup_attempts = length warmup;
      warmup_errors = tally_all (categories_of warmup) [];
      wall = env.wall;
      samples =
          calls_of_all env m.tool "measured" (pos_part m.concurrency) (pos_part c.calls_per_worker);
    }

run_if_ready : PhaseEnv → BenchmarkConfig → BenchmarkMeasurement → Counts → BenchmarkMeasurement
run_if_ready env c m [] = run_workers env c m
run_if_ready env c m (e ∷ es) = record m { initialization_errors = e ∷ es }

unfoldable pub benchmark_phase :
    (Connection → PhaseEnv) → BenchmarkConfig → PhaseSpec → BenchmarkMeasurement
unfolding run_if_ready
benchmark_phase world c spec =
    let env = world (connection_of c spec.target) in
    let workers = pos_part spec.concurrency in
    let setup =
      tally_all (parallel_workers workers (λ i. setup_category spec.tool (env.setup i))) [] in
    let m = run_if_ready env c (new_measurement c spec) setup in
    aggregate_measurement (record m {
      close_errors =
          tally_all (parallel_workers workers (λ i. close_category (env.setup i) (env.close i))) [];
    })
