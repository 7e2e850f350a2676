-- ===== src/Client/Workflow.antt =====
-- `Run` and `readRunbook` of internal/democlient/client.go: the tools are listed and the read-only one is
-- called. The session of the MCP SDK is what it answers; the writer accepts a line or fails, which may
-- depend on what was written before.
pub mod Transcript
pub mod Lines
pub mod Completion
use portkeeper.Common.{
  String, Bool, true, false, Option, none, some, List, [], ◌∷◌, ◌++◌, ◌==◌, if◌then◌else◌, not,
  string_equal, any, map,
}
use portkeeper.Common.Text.{append}
use portkeeper.Benchmark.Calls.{read_tool, ToolResult, Content, text, other_content}
use portkeeper.Client.{Url, TargetError, validate_target, Credentials}

pub data WorkflowError : Type 0 where
  bad_target : TargetError → WorkflowError
  no_token_file not_connected write_failed not_discovered not_advertised : WorkflowError
  call_failed rejected no_content bad_content close_failed : WorkflowError

-- What the session answers; `none` is an error.
pub record Session : Type 0 where
  pub list_tools : Option (List String)
  pub call_tool : (name topic : String) → Option ToolResult
  pub closes : Bool

-- What was written, and the error that ended it.
pub record Output : Type 0 where
  pub lines : List String
  pub error : Option WorkflowError

abbrev pub done : List String → Output
done lines = record { lines = lines; error = none }

abbrev pub stop : WorkflowError → List String → Output
stop e lines = record { lines = lines; error = some e }

unfoldable pub after_error : Option WorkflowError → List String → (List String → Output) → Output
after_error none lines next = next lines
after_error (some e) lines next = stop e lines

-- `if err := ...; err != nil { return err }`
abbrev pub after : Output → (List String → Output) → Output
after o next = after_error o.error o.lines next

module _ (accepts : List String → Bool) where
  unfoldable pub write : String → List String → Output
  write line lines = if accepts lines then done (lines ++ line ∷ []) else stop write_failed lines

  unfoldable pub write_tools : List String → List String → Output
  write_tools [] lines = done lines
  write_tools (t ∷ ts) lines = after (write (append "Discovered tool: " t) lines) (write_tools ts)

  unfoldable pub write_content : Content → List String → Output
  write_content other_content lines = stop bad_content lines
  write_content (text s) lines = if s == "" then stop bad_content lines else write s lines

  unfoldable pub write_contents : List Content → List String → Output
  write_contents [] lines = done lines
  write_contents (c ∷ cs) lines = after (write_content c lines) (write_contents cs)

  unfoldable pub write_answer : List Content → List String → Output
  write_answer [] lines = stop no_content lines
  write_answer (c ∷ cs) lines =
      after (write_contents (c ∷ cs) lines) (write "MCP discovery and tool call completed.")

  unfoldable pub complete : ToolResult → List String → Output
  complete r lines = if r.is_error then stop rejected lines else write_answer r.content lines

  unfoldable pub by_call : Option ToolResult → List String → Output
  by_call none lines = stop call_failed lines
  by_call (some r) lines = complete r lines

  unfoldable pub by_tools : Session → (topic : String) → Option (List String) → List String → Output
  by_tools session topic none lines = stop not_discovered lines
  by_tools session topic (some tools) lines = after (write_tools tools lines) (λ written.
      if any (λ t. t == "read_runbook") tools
      then by_call (session.call_tool "read_runbook" topic) written
      else stop not_advertised written)

  unfoldable pub read_through : Session → (endpoint topic : String) → Output
  read_through session endpoint topic =
      after (write (append "Connected to " endpoint) []) (by_tools session topic session.list_tools)

-- What was written, and the errors that are joined.
pub record Outcome : Type 0 where
  pub lines : List String
  pub errors : List WorkflowError

abbrev pub refused : WorkflowError → Outcome
refused e = record { lines = []; errors = e ∷ [] }

errors_of : Option WorkflowError → List WorkflowError
errors_of none = []
errors_of (some e) = e ∷ []

close : Bool → Output → Outcome
unfolding errors_of
close closes o = record {
  lines = o.lines;
  errors = errors_of o.error ++ (if closes then [] else close_failed ∷ []);
}

by_session : (accepts : List String → Bool) (endpoint topic : String) → Option Session → Outcome
unfolding close
by_session accepts endpoint topic none = refused not_connected
by_session accepts endpoint topic (some s) = close s.closes (read_through accepts s endpoint topic)

by_target :
    (accepts : List String → Bool) (connect : (endpoint : String) → Credentials → Option Session)
    (endpoint : String) (c : Credentials) (topic : String)
    → Option TargetError
    → Outcome
unfolding by_session
by_target accepts connect endpoint c topic (some e) = refused (bad_target e)
by_target accepts connect endpoint c topic none =
    if c.token_file == ""
    then refused no_token_file
    else by_session accepts endpoint topic (connect endpoint c)

unfoldable pub run :
    (parse_url : String → Option Url) (accepts : List String → Bool)
    (connect : (endpoint : String) → Credentials → Option Session) (endpoint : String)
    (c : Credentials) (topic : String)
    → Outcome
unfolding by_target
run parse_url accepts connect endpoint c topic =
    by_target accepts connect endpoint c topic (validate_target parse_url endpoint)
