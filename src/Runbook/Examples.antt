-- ===== src/Runbook/Examples.antt =====
-- The theorems about the runbook server at concrete inputs.
use portkeeper.Common.{
  ℕ, ◌+◌, ◌*◌, ◌≡◌, ◌≢◌, refl, String, false, Option, none, some, List, [], ◌∷◌, ◌==◌,
  if◌then◌else◌, string_equal, map, arith,
}
use portkeeper.Benchmark.Errors.{ContextState}
use portkeeper.Benchmark.Calls.{stream_tool, returned, CallReply, call_token, call}
use portkeeper.Runbook.{
  succeeded, text_result, read_runbook, Turn, Progress, stream_steps, stream_runbook,
}
use portkeeper.Runbook.Streaming.{notice}
use portkeeper.Common.{◌≤◌, nat_equal}
use portkeeper.Runbook.Protocol.{delivered, delay_limit, step_time, IsPaced, stream_call-succeeds}

abbrev limiting : String
limiting = "# Rate limiting"

abbrev runbooks : String → Option String
runbooks path = if path == "runbooks/rate-limiting.md" then some limiting else none

abbrev ticking : ℕ → Turn
ticking step = record {
  over = false;
  sent_at = step * step_time;
  notify_error = none;
  ended = false;
  fired_at = step * step_time + step_time;
}

abbrev notices : String → List Progress
notices token =
    notice token 1 (ticking 1) ∷ notice token 2 (ticking 2) ∷ notice token 3 (ticking 3) ∷ []

ticking_streams :
    stream_runbook runbooks (some (call_token "measure" 1 7)) ticking "rate-limiting" ≡ record {
      sent = notices (call_token "measure" 1 7);
      completed = succeeded (text_result limiting);
    }
unfolding stream_runbook read_runbook stream_steps
ticking_streams = refl

-- The first notification takes 1 ms, and the others 2 ms.
abbrev arrival_delay : Progress → ℕ
arrival_delay p = if p.progress == 1 then 1_000_000 else 2_000_000

arrival_delay_small : (p : Progress) → p.progress ≡ 1 → arrival_delay p ≤ delay_limit
arrival_delay_small p e = ground arith

abbrev ticking_reply : CallReply
ticking_reply = record {
  start = step_time;
  end = 4 * step_time;
  notifications = map (delivered arrival_delay) (notices (call_token "measure" 1 7));
  reply = returned (some (text_result limiting));
  status = 200;
  ctx = ContextState.live;
}

ticking-IsPaced : IsPaced ticking step_time (4 * step_time)
ticking-IsPaced = record {
  begun = omega arith;
  waits = λ step. omega arith;
  follows = λ step. omega arith;
  ends = omega arith;
}

limiting-ne : text_result limiting ≢ text_result ""
limiting-ne h = cc

stream_call-succeeds_example : (call stream_tool "measure" 1 7 ticking_reply).error_category ≡ ""
stream_call-succeeds_example =
    stream_call-succeeds runbooks ticking "rate-limiting" "measure" 1 7 (text_result limiting)
      (notices (call_token "measure" 1 7)) arrival_delay ticking_reply ticking_streams limiting-ne
      ticking-IsPaced arrival_delay_small refl refl
