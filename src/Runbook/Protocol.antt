-- ===== src/Runbook/Protocol.antt =====
-- The tool `stream_runbook` behind a call of the benchmark: the worker is handed the notifications that
-- the handler sends, and its result.
use portkeeper.Common.{
  ℕ, suc, ◌+◌, ◌≤◌, String, true, ◌≡◌, ◌≢◌, refl, ◌∙◌, ap, Option, some, List, ◌==◌, string_equal,
  map, inl, inr, Bool-cases, arith,
}
use portkeeper.Benchmark.Calls.{
  stream_tool, ToolResult, Returned, returned, Notification, CallReply, call_token, call,
  stream_margin,
}
use portkeeper.Benchmark.Calls.Streams.{IsAnswer, IsTimely, stream_call_iff}
use portkeeper.Runbook.{succeeded, Turn, Progress, text_result, stream_runbook}
use portkeeper.Runbook.Topics.{IsRead}
use portkeeper.Runbook.Streaming.{notice, IsStreamed, stream_runbook_iff}

-- A notification as the worker handles it, some time after it was sent.
abbrev pub delivered : (delay : Progress → ℕ) → Progress → Notification
delivered delay p = record { progress_token = p.progress_token; at = p.at + delay p }

-- 50 milliseconds, and what the worker's margin leaves of three of them
abbrev pub step_time : ℕ
step_time = 50_000_000

abbrev pub delay_limit : ℕ
delay_limit = 125_000_000

-- The clock of a run of the loop: a timer of 50 ms follows each notification, and the next turn comes
-- after it.
pub record IsPaced (turn : ℕ → Turn) (start end : ℕ) : Type 0 where
  pub begun : start ≤ (turn 1).sent_at
  pub waits : (step : ℕ) → (turn step).sent_at + step_time ≤ (turn step).fired_at
  pub follows : (step : ℕ) → (turn step).fired_at ≤ (turn (suc step)).sent_at
  pub ends : (turn 3).fired_at ≤ end

IsPaced-margin :
    (turn : ℕ → Turn) (start end delay : ℕ)
    → IsPaced turn start end
    → delay ≤ delay_limit
    → (turn 1).sent_at + delay + stream_margin ≤ end
IsPaced-margin turn start end delay paced small = omega (
  arith,
  paced.waits 1,
  paced.follows 1,
  paced.waits 2,
  paced.follows 2,
  paced.waits 3,
  paced.ends,
  small,
)

same_token : (token : String) → (token == token) ≡ true
same_token token = (string_equal.equal_iff token token).1 refl

IsRead-IsAnswer :
    (read_file : String → Option String) (topic : String) (result : ToolResult) (reply : Returned)
    → IsRead read_file topic result
    → result ≢ text_result ""
    → reply ≡ returned (some result)
    → IsAnswer reply
IsRead-IsAnswer read_file topic result reply read nonempty e = record {
  result = text_result read.content;
  returns = rw (e, read.whole) refl;
  no_error = refl;
  complete = refl;
  nonempty = λ h. cc;
  texts = elim (Bool-cases (read.content == "")) [
    | inr filled ↦ rw filled refl
    | inl blank ↦
        absurd (
          nonempty (read.whole ∙ ap text_result ((string_equal.equal_iff read.content "").0 blank)))
  ];
}

IsStreamed-IsTimely :
    (read_file : String → Option String) (token : String) (turn : ℕ → Turn) (topic : String)
    (result : ToolResult) (sent : List Progress) (delay : Progress → ℕ) (r : CallReply)
    → IsStreamed read_file token turn topic result sent
    → IsPaced turn r.start r.end
    → ((p : Progress) → p.progress ≡ 1 → delay p ≤ delay_limit)
    → r.notifications ≡ map (delivered delay) sent
    → IsTimely token r
IsStreamed-IsTimely read_file token turn topic result sent delay r s paced prompt notifications =
    let lag = delay (notice token 1 (turn 1)) in
    record {
      three = rw (notifications, s.notices, same_token token) refl;
      first = (turn 1).sent_at + lag;
      earliest = rw (notifications, s.notices, same_token token) refl;
      started = omega (arith, paced.begun);
      margin = IsPaced-margin turn r.start r.end lag paced (prompt (notice token 1 (turn 1)) refl);
    }

-- A stream of the runbook server that succeeds makes the benchmark's call a success, if the runbook is not
-- empty, each of the three turns of the server takes 50 ms or more between the start and the end of the
-- call, and the worker handles the notifications in the order in which they were sent, the first of them at
-- most 125 ms after it was sent, which a buffered response may not.
pub stream_call-succeeds :
    (read_file : String → Option String) (turn : ℕ → Turn) (topic phase : String)
    (worker number : ℕ) (result : ToolResult) (sent : List Progress) (delay : Progress → ℕ)
    (r : CallReply)
    → stream_runbook read_file (some (call_token phase worker number)) turn topic
      ≡ record { sent = sent; completed = succeeded result }
    → result ≢ text_result ""
    → IsPaced turn r.start r.end
    → ((p : Progress) → p.progress ≡ 1 → delay p ≤ delay_limit)
    → r.notifications ≡ map (delivered delay) sent
    → r.reply ≡ returned (some result)
    → (call stream_tool phase worker number r).error_category ≡ ""
stream_call-succeeds read_file turn topic phase worker number result sent delay r streams nonempty
      paced prompt notifications reply =
    let token : String = call_token phase worker number in
    let s = (stream_runbook_iff read_file token turn topic result sent).0 streams in
    (stream_call_iff phase worker number r).1 (
      IsRead-IsAnswer read_file topic result r.reply s.read nonempty reply,
      IsStreamed-IsTimely read_file token turn topic result sent delay r s paced prompt
          notifications,
    )
