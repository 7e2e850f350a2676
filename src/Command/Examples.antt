-- ===== src/Command/Examples.antt =====
-- The theorems about the programs at concrete inputs.
use mathlib.Core.List.{reverse}
use portkeeper.Common.{
  ℕ, ◌-◌, ◌≡◌, ◌↔◌, inl, inr, refl, String, true, false, Option, none, some, List, [], ◌∷◌, ◌==◌,
  if◌then◌else◌, string_equal, length, map, arith,
}
use portkeeper.Common.Int.{ℤ, pos, negsuc, ◌≤ℤ◌}
use portkeeper.Common.Text.Split.{join}
use portkeeper.Common.Text.Decimal.{show_ℤ}
use portkeeper.Command.Toy.{wrote, reverse_loop, reverse_string}
use portkeeper.Command.Toy.Reversal.{reverse_string_lem}
use portkeeper.Common.Text.{split, trim, trim_left, trim_right, is_space}
use portkeeper.Common.Text.Number.{atoi}
use portkeeper.Benchmark.Scenario.{good_run}
use portkeeper.Client.{Url, validate_target}
use portkeeper.Client.Probe.{dial_failed, probe_network, dial_all, after_dial}
use portkeeper.Gateway.Accounts.{Reply, failed, new_authenticator}
use portkeeper.Gateway.Limiter.{new_agent_limiter, allow_at, consume, bucket_for, refill, accrued}
use portkeeper.Gateway.Limiter.Calls.{HasRoom}
use portkeeper.Gateway.Limiter.Guarantees.{run}
use portkeeper.Gateway.Limiter.Traces.{Arrival, allowed}
use portkeeper.Common.Dict.{lookup, insert}
use portkeeper.Common.{◌*◌, ◌+◌, ◌≤◌, length}
use portkeeper.Command.Gateway.{
  finite, Floats, Cluster, Started, start_gateway, env_float, env_float32, env_int, is_positive,
  exceeds_float32, is_zero, limiter_of,
}
use portkeeper.Command.Gateway.Startup.{start_gateway-allows}
use portkeeper.Command.Client.{
  Flags, no_flags, timeout_of, World, workers_of, parse_workers, main, dispatch, run_probe,
  run_benchmark,
}
use portkeeper.Command.Client.Status.{Achieves, main_iff}
use portkeeper.Command.Client.Workers.{workers_of-join}

abbrev bytes : List ℕ
bytes = 104 ∷ 101 ∷ 121 ∷ []

reverse_string_lem_example :
    (reverse_loop 3 0 (length bytes - 1) bytes ≡ reverse bytes)
    × (reverse_string (some bytes) ≡ wrote (reverse bytes))
reverse_string_lem_example = reverse_string_lem 3 bytes (omega arith)

abbrev workers : List ℤ
workers = pos 12 ∷ negsuc 0 ∷ []

workers_of-join_example :
    workers_of (join "," (map show_ℤ (pos 4 ∷ workers))) ≡ some (pos 4 ∷ workers)
workers_of-join_example =
    workers_of-join (pos 4) workers
      ((omega arith, omega arith), ((omega arith, omega arith), ((omega arith, omega arith), tt)))

abbrev parse : String → Option Url
parse s = some (record {
  scheme = "http";
  user = false;
  host = "gateway:8080";
  port = "8080";
  hostname = "gateway";
  raw_query = "";
  fragment = "";
})

-- A cluster in which the gateway does not answer.
abbrev world : (timeout : ℤ) → World
world timeout = record {
  parse_url = parse;
  run_env = good_run;
  lookup_ip = λ host. some ("10.0.0.1" ∷ []);
  dial = λ address port. dial_failed true false;
  writes = true;
  attempts = [];
  accepts = λ lines. true;
  connect = λ endpoint c. none;
}

abbrev probe_flags : Flags
probe_flags = record no_flags { expect_network = "blocked" }

main_iff_example : (main world probe_flags ≡ some 0) ↔ (
    (pos 1 ≤ℤ timeout_of probe_flags)
    × (probe_flags.positional ≡ 0)
    × Achieves (world (timeout_of probe_flags)) probe_flags)
main_iff_example = main_iff world probe_flags

blocked_succeeds : main world probe_flags ≡ some 0
unfolding main dispatch run_probe probe_network dial_all after_dial validate_target
blocked_succeeds = refl

no_list_fails : main world (record no_flags { benchmark = true; concurrency = "4, x" }) ≡ some 1
unfolding main dispatch run_benchmark workers_of parse_workers split trim is_space atoi
no_list_fails = refl

abbrev settings : String → String
settings name = if name == "GATEWAY_RATE_LIMIT_RPS" then "2.5" else ""

abbrev floats : Floats
floats = record {
  parse = λ s. if s == "2.5" then some (finite (pos 5) 1) else none;
  to_float32 = λ v. v;
}

abbrev review : String → List String → Reply
review token audiences = failed

abbrev cluster : Cluster
cluster = record { configured = true; reviewer = some review; registry = true }

abbrev started : Started
started = record {
  addr = ":8080";
  limiter = record {
    buckets = [];
    rate = 5;
    one = 2_000_000_000;
    burst = 20_000_000_000;
    max_agents = 10000;
    idle_ttl = 900_000_000_000;
  };
  auth = record { reviewer = review; audience = "portkeeper"; inflight = 0 };
  review_qps = finite (pos 5) 0;
  review_burst = pos 10;
}

gateway_starts : start_gateway settings floats cluster ≡ some started
unfolding start_gateway env_float env_float32 env_int is_positive exceeds_float32 is_zero limiter_of
    new_agent_limiter new_authenticator trim trim_left trim_right is_space
gateway_starts = refl

-- Two calls in the first second, at 2.5 in a second.
abbrev two_calls : List Arrival
two_calls = record { agent = "ann"; at = 0 } ∷ record { agent = "bob"; at = 1_000_000_000 } ∷ []

two_buckets :
    (length (run started.limiter two_calls).buckets ≡ 2)
    × ((run started.limiter two_calls).max_agents ≡ 10_000)
unfolding run allow_at consume bucket_for lookup refill accrued insert portkeeper.Common.Int.◌+ℤ◌
    portkeeper.Common.Int.◌*ℕ◌
two_buckets = (refl, refl)

has_room : HasRoom (run started.limiter two_calls) 1_400_000_000
has_room = inl (omega (arith, two_buckets.0, two_buckets.1))

rate_set :
    env_float settings floats "GATEWAY_RATE_LIMIT_RPS" (finite (pos 5) 0) ≡ some (finite (pos 5) 1)
unfolding env_float is_positive
rate_set = refl

burst_set : env_int settings "GATEWAY_RATE_LIMIT_BURST" (pos 10) ≡ some (pos 10)
unfolding env_int
burst_set = refl

start_gateway-allows_example :
    (1 ≤ 5)
    × (1 ≤ 10)
    × ((allow_at (run started.limiter two_calls) "ann" 1_400_000_000).1 ≡ true)
    × (allowed "ann" started.limiter two_calls * (1_000_000_000 * 2)
        ≤ 10 * (1_000_000_000 * 2) + 1_000_000_000 * 5)
start_gateway-allows_example =
    start_gateway-allows settings floats cluster started (pos 5) 1 (pos 10) "ann" 0 1_000_000_000
      1_400_000_000 two_calls gateway_starts rate_set burst_set
      (omega arith, (omega arith, omega arith)) (omega arith) (omega arith) (inr has_room)
