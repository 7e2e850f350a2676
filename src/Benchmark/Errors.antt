-- ===== src/Benchmark/Errors.antt =====
-- `benchmarkError` of internal/democlient/benchmark.go. An error is known by what `errors.Is` and
-- `errors.As` find in it.
pub mod Categories
use portkeeper.Common.{
  ℕ, String, Bool, true, false, ◌||◌, Option, none, some, ◌==◌, if◌then◌else◌, leb, nat_equal,
}
use portkeeper.Common.Int.{ℤ}

pub record CallError : Type 0 where
  pub deadline_exceeded : Bool
  pub canceled : Bool
  pub unexpected_eof : Bool
  pub eof : Bool
  pub rpc_code : Option ℤ
  -- Of a `net.Error`: whether it is a timeout.
  pub net_timeout : Option Bool

-- `ctx.Err()`
pub data ContextState : Type 0 where
  live canceled deadline_exceeded : ContextState

abbrev pub is_canceled : ContextState → Bool
is_canceled ContextState.canceled = true
is_canceled _ = false

abbrev pub is_deadline : ContextState → Bool
is_deadline ContextState.deadline_exceeded = true
is_deadline _ = false

by_net : Option Bool → String
by_net none = "protocol_or_transport"
by_net (some timeout) = if timeout then "transport_timeout" else "transport"

by_rpc : Option Bool → Option ℤ → String
by_rpc timeout none = by_net timeout
by_rpc timeout (some code) = "jsonrpc_error"

unfoldable pub benchmark_error : ContextState → CallError → (status : ℕ) → String
unfolding by_net by_rpc
benchmark_error ctx err status =
    if err.deadline_exceeded || is_deadline ctx
    then "deadline"
    else if err.canceled || is_canceled ctx
    then "cancelled"
    else if status == 401
    then "http_401"
    else if status == 403
    then "http_403"
    else if status == 429
    then "http_429"
    else if leb 500 status
    then "http_5xx"
    else if leb 300 status
    then "http_other"
    else if err.unexpected_eof
    then "unexpected_eof"
    else if err.eof
    then "eof"
    else by_rpc err.net_timeout err.rpc_code
