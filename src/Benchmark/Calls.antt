-- ===== src/Benchmark/Calls.antt =====
-- `benchmarkWorker` of internal/democlient/benchmark.go: one call of a tool, with the progress
-- notifications that come in during it. The MCP session and its transport are a `CallReply`: what they
-- hand to the worker, and the readings of the clock, in nanoseconds.
pub mod Streams
use portkeeper.Common.{
  ℕ, suc, ◌+◌, String, Bool, true, false, ◌||◌, not, List, [], ◌∷◌, Option, none, some, ◌==◌,
  if◌then◌else◌, ltb, string_equal, nat_equal, any, ◌&&◌,
}
use portkeeper.Common.Text.{append}
use portkeeper.Common.Text.Decimal.{show_ℕ}
use portkeeper.Common.Int.{ℤ, pos, sub_ℕ, ltb_ℤ}
use portkeeper.Benchmark.Errors.{CallError, ContextState, benchmark_error}
use portkeeper.Benchmark.Measurement.{BenchmarkSample}

-- `runbookmcp.ReadTool` and `runbookmcp.StreamTool`
abbrev pub read_tool : String
read_tool = "read_runbook"

abbrev pub stream_tool : String
stream_tool = "stream_runbook"

pub data Content : Type 0 where
  text : String → Content
  other_content : Content

pub record ToolResult : Type 0 where
  pub is_error : Bool
  pub needs_input : Bool
  pub content : List Content

-- What `CallTool` returns. A nil result without an error is `returned none`.
pub data Returned : Type 0 where
  call_failed : CallError → Returned
  returned : Option ToolResult → Returned

-- A progress notification: its token, and the clock when it is handled.
pub record Notification : Type 0 where
  pub progress_token : String
  pub at : ℕ

pub record CallReply : Type 0 where
  pub start : ℕ
  pub end : ℕ
  pub notifications : List Notification
  pub reply : Returned
  -- The status that the transport stored last, 0 if none.
  pub status : ℕ
  pub ctx : ContextState

-- The fields that the handler of notifications shares with the call.
pub record BenchmarkWorker : Type 0 where
  pub token : String
  pub first : Option ℕ
  pub updates : ℕ

keep_first : Option ℕ → ℕ → Option ℕ
keep_first none now = some now
keep_first (some first) now = some first

unfoldable pub progress : BenchmarkWorker → Notification → BenchmarkWorker
unfolding keep_first
progress w n =
    if not (n.progress_token == w.token) || w.token == ""
    then w
    else record w { first = keep_first w.first n.at; updates = suc w.updates }

unfoldable pub progress_all : BenchmarkWorker → List Notification → BenchmarkWorker
progress_all w [] = w
progress_all w (n ∷ ns) = progress_all (progress w n) ns

unfoldable pub call_token : (phase : String) (worker call : ℕ) → String
call_token phase worker call =
    append phase (append "-" (append (show_ℕ worker) (append "-" (show_ℕ call))))

-- The worker that a call starts with: what a call before it left is cleared.
unfoldable pub prepared : (tool phase : String) (worker call : ℕ) → BenchmarkWorker
prepared tool phase worker call = record {
  token = if tool == stream_tool then call_token phase worker call else "";
  first = none;
  updates = 0;
}

abbrev pub is_text : Content → Bool
is_text (text s) = not (s == "")
is_text other_content = false

content_category : List Content → String
content_category [] = "invalid_content"
content_category (c ∷ cs) = if any (λ d. not (is_text d)) (c ∷ cs) then "invalid_content" else ""

result_category : ToolResult → String
unfolding content_category
result_category r =
    if r.is_error
    then "tool_error"
    else if r.needs_input
    then "input_required"
    else content_category r.content

unfoldable pub reply_category : ContextState → ℕ → Returned → String
unfolding result_category
reply_category ctx status (call_failed err) = benchmark_error ctx err status
reply_category ctx status (returned none) = "invalid_content"
reply_category ctx status (returned (some r)) = result_category r

rpc_code_of : Returned → Option ℤ
rpc_code_of (call_failed err) = err.rpc_code
rpc_code_of (returned r) = none

-- 25 milliseconds
abbrev pub stream_margin : ℕ
stream_margin = 25_000_000

late : (start end first : ℕ) → String
late start end first =
    if ltb first start || ltb_ℤ (sub_ℕ end first) (pos stream_margin)
    then "stream_late_progress"
    else ""

unfoldable pub stream_category : (start end : ℕ) → Option ℕ → ℕ → String
unfolding late
stream_category start end none updates = "stream_missing_progress"
stream_category start end (some first) updates =
    if not (updates == 3) then "stream_missing_progress" else late start end first

first_after : ℕ → Option ℕ → ℤ
first_after start none = pos 0
first_after start (some first) = sub_ℕ first start

unfoldable pub call : (tool phase : String) (worker call : ℕ) → CallReply → BenchmarkSample
unfolding rpc_code_of first_after
call tool phase worker number r =
    let w = progress_all (prepared tool phase worker number) r.notifications in
    let category = reply_category r.ctx r.status r.reply in
    record {
      worker = worker;
      call = number;
      duration = sub_ℕ r.end r.start;
      first_progress = first_after r.start w.first;
      progress_updates = w.updates;
      error_category =
          if category == "" && tool == stream_tool
          then stream_category r.start r.end w.first w.updates
          else category;
      jsonrpc_error_code = rpc_code_of r.reply;
    }
