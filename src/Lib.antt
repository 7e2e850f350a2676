-- ===== src/Lib.antt =====
-- PortKeeper: a gateway in front of MCP servers that run in a Kubernetes cluster.
--
-- The program. A controller (internal/controller) keeps a Deployment and a Service for every
-- MCPServer resource (api/v1alpha1) and writes its status. The gateway (internal/gateway,
-- cmd/gateway) polls the resources into a registry, and for each HTTP request it authenticates the
-- ServiceAccount by a TokenReview, resolves the path to a backend, asks the limiter for a token of
-- that agent, checks the policy and the readiness of the backend, and proxies the request. What it
-- did is counted in Prometheus metrics. internal/democlient is a client that checks a gateway from the
-- outside and measures it against a direct endpoint; internal/runbookmcp is an MCP server with two tools
-- that stands behind the gateway; hack/ holds programs that start these.
--
-- The modules, and the code they are about.
--   Common     what the parts share: Boolean tests and lists over the native numbers, integers,
--              association lists for Go's maps (Common/Dict), and the functions of Go's `strings` and
--              `strconv` that the code calls (Common/Text: Split, TrimFunc, Fields, EqualFold, Itoa, Atoi).
--   Api        api/v1alpha1/mcpserver_types.go and readiness.go: the resource, and `IsReady`.
--              Api.DeepCopy is zz_generated.deepcopy.go, with the slices of Api.Memory.
--   Gateway.Limiter   internal/gateway/ratelimit.go: `allowAt` is `allow_at`, in the steps that it
--              takes: `bucket_for` with the sweep `evict`, `refill`, `consume`.
--   Gateway.Registry  internal/gateway/registry.go: `refresh`, `Resolve` (`resolve`, with the loop
--              `scan`), `HasSynced`, and `allows`; Gateway.Registry.Polling is the loop of
--              `Start` with its ticker.
--   Gateway.Accounts  internal/gateway/auth.go: `Authenticate` (`authenticate`), the channel of
--              reviews under way (`enter`, `leave`), `validServiceAccount`.
--   Gateway.Metrics   internal/gateway/metrics.go: `boundedLabels.admit` (`admit`) and the recorders.
--   Gateway.Paths     `parsePath` of internal/gateway/router.go.
--   Gateway.Headers   `http.Header`.
--   Gateway.Router    `ServeHTTP` of internal/gateway/router.go: `serve_http` passes the state of
--              the limiter and of the metrics through the handler, and returns an answer or the
--              request that is sent upstream.
--   Gateway.Scenario, Gateway.Tests, Gateway.Examples   runs on concrete inputs.
--   Controller        internal/controller/mcpserver_controller.go: `checkOwnership`, and the functions
--              that `reconcileDeployment` and `reconcileService` hand to `CreateOrUpdate`
--              (`mutate_deployment`, `mutate_service`).
--   Controller.Status `deploymentReadiness`, and the status that `updateStatus` writes (`with_status`).
--   Controller.Reconcile   `Reconcile` with `updateStatus`: what it patches and which errors it returns.
--   Client            internal/democlient/client.go: the `RoundTripper` (`round_trip`) and
--              `validateTarget`; Client.Workflow is `Run` with `readRunbook`, Client.Waiting is
--              `WaitForStatus`, and Client.Probe is `ProbeNetwork`. Client.Delivery puts the
--              `RoundTripper` in front of the gateway's `Authenticate`.
--   Benchmark         internal/democlient/benchmark.go: `normalizeBenchmark`; then, from the inside out,
--              Benchmark.Errors (`benchmarkError`), Benchmark.Calls (the worker and one call),
--              Benchmark.Latency (`latencySummary`), Benchmark.Measurement (`aggregateMeasurement`),
--              Benchmark.Phase (`benchmarkPhase`), Benchmark.Overhead (`benchmarkOverhead`) and
--              Benchmark.Run (`Benchmark`); Benchmark.Transport is `statusTransport`.
--   Runbook           internal/runbookmcp/server.go: `readRunbook` and `streamRunbook`; Runbook.Metrics is
--              `observe` of internal/runbookmcp/metrics.go, and Runbook.Protocol puts the streaming tool
--              behind a call of the benchmark.
--   Command           the programs: Command.Gateway is `envFloat`, `envInt`, the configuration and
--              `/readyz` of cmd/gateway/main.go, Command.Client is hack/mcp-client/main.go, and
--              Command.Toy the handlers of hack/toy-mcp-server/main.go.
-- A file below a module, such as Gateway/Router/Identity.antt, holds theorems about it; Controller.Runs
-- and the Examples of the other modules hold runs on concrete inputs.
--
-- Numbers, bounds and fuel. Times are nanoseconds in the natural numbers, read from one clock. The
-- tokens of the limiter are exact: a token is `one` units and `rate` units are added in a nanosecond,
-- so that a rate is a ratio; the code computes in float64. Ports and generations are integers. No
-- definition needs fuel but the loop that reverses a body in Command.Toy, which is given the length of the
-- body: every other loop runs over a list, or a number of turns, that is given. A Go map is an association
-- list with distinct keys, and the theorems that depend on its order say so.
--
-- The benchmark's seconds, floats in the code, are whole nanoseconds, and its rates and percentages are
-- fractions; its phases and calls are bounded by the configuration, and those loops are over lists. The
-- wait for a status runs over the attempts that it is given, which may not be enough.
--
-- Parameters. What stands outside the repository is an argument: the TokenReview API
-- (`ServiceAccountAuthenticator.reviewer`), the DNS-1123 rules of k8s.io/apimachinery (`NameRules`),
-- `meta.FindStatusCondition` and the deep copies of apimachinery's own types, what the Kubernetes client
-- returns, the headers that the reverse proxy
-- hands to `Rewrite` and what comes back from upstream (`Env`); for the controller, the Kubernetes API,
-- `CreateOrUpdate`, `SetControllerReference`, `SetStatusCondition` and deep equality (`Api`); for the
-- clients, `url.Parse`, the resolver, the dialer, the file system, and what a session of the MCP SDK
-- hands to them (`CallReply`, `PhaseEnv`, `RunEnv`, `Attempt`, `Session`); for the runbook server, the
-- embedded files and what a turn of its loop meets (`Turn`); for the programs, the environment, the flags
-- after `flag.Parse`, `strconv.ParseFloat` and the conversion to float32 (`Floats`), the clients of
-- Kubernetes (`Cluster`), and what the function that is chosen meets (`World`). The readings of the clock are among these.
--
-- Not modelled: logging; the query of the URL and the bodies, which the gateway does
-- not read; the mutexes, each of which makes one operation of the model atomic, and the interleaving of the
-- workers of a phase, which share no state; the start of the processes and of their servers
-- (cmd/controller, `SetupWithManager`, `NewRegistry`, hack/runbook-mcp-server, what main of cmd/gateway
-- hands to net/http); the messages of `log.Fatal`; the registration of the scheme.
pub mod Common
pub mod Api
pub mod Benchmark
pub mod Client
pub mod Command
pub mod Controller
pub mod Gateway
pub mod Runbook
