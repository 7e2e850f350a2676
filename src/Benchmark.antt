-- ===== src/Benchmark.antt =====
-- `normalizeBenchmark` of internal/democlient/benchmark.go: the defaults and the bounds of a benchmark.
-- `validateTarget` is a parameter, which `valid_target` of Client.antt fills. An int is an integer; the
-- product of the calls is only taken of numbers that were found positive and within the bounds, so that
-- it is far from the machine's limits.
pub mod Bounds
pub mod Latency
pub mod Calls
pub mod Phase
pub mod Overhead
pub mod Run
pub mod Measurement
pub mod Transport
pub mod Errors
pub mod Scenario
mod Examples
use portkeeper.Common.{
  ℕ, ◌+◌, ◌*◌, String, Bool, true, false, ◌||◌, ◌&&◌, not, List, [], ◌∷◌, Option, none, some, ◌==◌,
  if◌then◌else◌, any, ltb, length, string_equal,
}
use portkeeper.Common.Int.{ℤ, pos, pos_part, int_equal, ltb_ℤ}
use portkeeper.Client.{Credentials}

pub record BenchmarkConfig : Type 0 where
  pub direct_endpoint : String
  pub gateway_endpoint : String
  pub credentials : Credentials
  pub concurrency : List ℤ
  pub calls_per_worker : ℤ
  pub warmup_per_worker : ℤ
  pub repetitions : ℤ
  pub topic : String

pub data ConfigError : Type 0 where
  invalid_direct invalid_gateway same_endpoints unknown_topic out_of_bounds bad_concurrency
        too_many_calls :
      ConfigError

pub data Normalized : Type 0 where
  accepted : BenchmarkConfig → Normalized
  refused : BenchmarkConfig → ConfigError → Normalized

abbrev pub or_default : ℤ → ℤ → ℤ
or_default n def = if n == pos 0 then def else n

concurrency_default : List ℤ → List ℤ
concurrency_default [] = pos 1 ∷ pos 4 ∷ pos 8 ∷ []
concurrency_default (n ∷ ns) = n ∷ ns

unfoldable pub with_defaults : BenchmarkConfig → BenchmarkConfig
unfolding concurrency_default
with_defaults c = record c {
  concurrency = concurrency_default c.concurrency;
  calls_per_worker = or_default c.calls_per_worker (pos 20);
  warmup_per_worker = or_default c.warmup_per_worker (pos 3);
  repetitions = or_default c.repetitions (pos 2);
  topic = if c.topic == "" then "gateway-routing" else c.topic;
}

-- The bounds on all but the concurrency values.
abbrev pub exceeds : BenchmarkConfig → Bool
exceeds c =
    ltb 8 (length c.concurrency)
    || ltb_ℤ c.calls_per_worker (pos 1)
    || ltb_ℤ (pos 1000) c.calls_per_worker
    || ltb_ℤ c.warmup_per_worker (pos 1)
    || ltb_ℤ (pos 100) c.warmup_per_worker
    || ltb_ℤ c.repetitions (pos 1)
    || ltb_ℤ (pos 10) c.repetitions

-- The loop over the concurrency values, with the values seen and the calls so far.
total_of : BenchmarkConfig → List ℤ → List ℤ → ℕ → Option ℕ
total_of c [] seen total = some total
total_of c (n ∷ ns) seen total =
    let rest =
      total_of c ns (n ∷ seen)
        (total + pos_part n * pos_part c.calls_per_worker * pos_part c.repetitions * 4) in
    if ltb_ℤ n (pos 1) || ltb_ℤ (pos 64) n || any (λ s. s == n) seen then none else rest

by_total : BenchmarkConfig → Option ℕ → Normalized
by_total c none = refused c bad_concurrency
by_total c (some total) = if ltb 100_000 total then refused c too_many_calls else accepted c

bounded : BenchmarkConfig → Normalized
unfolding total_of by_total
bounded c =
    if not (c.topic == "gateway-routing") && not (c.topic == "rate-limiting")
    then refused c unknown_topic
    else if exceeds c
    then refused c out_of_bounds
    else by_total c (total_of c c.concurrency [] 0)

module _ (valid_target : String → Bool) where
  unfoldable pub normalize_benchmark : BenchmarkConfig → Normalized
  unfolding bounded
  normalize_benchmark c =
      if not (valid_target c.direct_endpoint)
      then refused c invalid_direct
      else if not (valid_target c.gateway_endpoint)
      then refused c invalid_gateway
      else if c.direct_endpoint == c.gateway_endpoint || c.credentials.token_file == ""
      then refused c same_endpoints
      else bounded (with_defaults c)
