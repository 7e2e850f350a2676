-- ===== src/Runbook.antt =====
-- internal/runbookmcp/server.go: the tools of the runbook server. The embedded files are a parameter;
-- the session that takes the progress notifications, the context and the timer are what each turn of
-- the loop meets. Times are nanoseconds.
pub mod Topics
pub mod Metrics
pub mod Streaming
pub mod Protocol
mod Examples
use portkeeper.Common.{
  ℕ, zero, suc, String, Bool, true, false, ◌||◌, Option, none, some, List, [], ◌∷◌, ◌==◌,
  if◌then◌else◌, string_equal,
}
use portkeeper.Common.Text.{append}
use portkeeper.Benchmark.Calls.{ToolResult, Content, text}

-- `notify_failed` tells whether the error wraps one of the context.
pub data ServerError : Type 0 where
  unknown_runbook unreadable_runbook context_ended : ServerError
  notify_failed : (cancelled : Bool) → ServerError

-- The values that a handler returns.
pub record Completed : Type 0 where
  pub result : Option ToolResult
  pub error : Option ServerError

abbrev pub failed : ServerError → Completed
failed e = record { result = none; error = some e }

abbrev pub succeeded : ToolResult → Completed
succeeded r = record { result = some r; error = none }

abbrev pub text_result : String → ToolResult
text_result s = record { is_error = false; needs_input = false; content = text s ∷ [] }

abbrev pub is_topic : String → Bool
is_topic topic = topic == "gateway-routing" || topic == "rate-limiting"

abbrev pub file_of : String → String
file_of topic = append "runbooks/" (append topic ".md")

of_file : Option String → Completed
of_file none = failed unreadable_runbook
of_file (some content) = succeeded (text_result content)

unfoldable pub read_runbook : (read_file : String → Option String) → (topic : String) → Completed
unfolding of_file
read_runbook read_file topic =
    if is_topic topic then of_file (read_file (file_of topic)) else failed unknown_runbook

-- What a turn of the loop meets: whether the context has ended, when the notification is sent and what
-- comes of it, and whether the context ends before the timer fires.
pub record Turn : Type 0 where
  pub over : Bool
  pub sent_at : ℕ
  pub notify_error : Option ServerError
  pub ended : Bool
  pub fired_at : ℕ

pub record Progress : Type 0 where
  pub progress_token : String
  pub progress : ℕ
  pub total : ℕ
  pub at : ℕ

-- The notifications that were sent, and what the handler returns.
pub record Streamed : Type 0 where
  pub sent : List Progress
  pub completed : Completed

abbrev pub stopped : ServerError → Streamed
stopped e = record { sent = []; completed = failed e }

unfoldable pub after_wait : Turn → (rest : Streamed) → Streamed
after_wait t rest = if t.ended then stopped context_ended else rest

unfoldable pub after_notify : Option ServerError → Progress → (rest : Streamed) → Streamed
after_notify (some e) p rest = stopped e
after_notify none p rest = record rest { sent = p ∷ rest.sent }

unfoldable pub notify : (token : Option String) (step : ℕ) → Turn → (rest : Streamed) → Streamed
unfolding after_notify
notify none step t rest = rest
notify (some token) step t rest =
    after_notify t.notify_error
      (record { progress_token = token; progress = step; total = 3; at = t.sent_at }) rest

-- The loop from `step` on, with `left` turns to go.
unfoldable pub stream_steps :
    (token : Option String) (turn : ℕ → Turn) (result : Option ToolResult) (step left : ℕ)
    → Streamed
unfolding after_wait notify
stream_steps token turn result step zero = record {
  sent = [];
  completed = record { result = result; error = none };
}
stream_steps token turn result step (suc left) =
    let rest = stream_steps token turn result (suc step) left in
    if (turn step).over
    then stopped context_ended
    else notify token step (turn step) (after_wait (turn step) rest)

after_read :
    (token : Option String) (turn : ℕ → Turn) → Option ToolResult → Option ServerError → Streamed
after_read token turn result (some e) = stopped e
after_read token turn result none = stream_steps token turn result 1 3

unfoldable pub stream_runbook :
    (read_file : String → Option String) (token : Option String) (turn : ℕ → Turn)
    → (topic : String) → Streamed
unfolding after_read
stream_runbook read_file token turn topic =
    let read = read_runbook read_file topic in after_read token turn read.result read.error
