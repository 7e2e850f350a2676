-- ===== src/Client/Waiting.antt =====
-- `WaitForStatus` of internal/democlient/client.go: a loop of GET requests until the wanted status. The
-- world is the list of the attempts, each with its answer and with what the `select` after it chose.
pub mod Ending
use portkeeper.Common.{
  ℕ, String, Bool, true, false, ◌||◌, Option, none, some, List, [], ◌∷◌, ◌==◌, if◌then◌else◌,
  nat_equal,
}
use portkeeper.Common.Int.{ℤ, pos, int_equal, ltb_ℤ}
use portkeeper.Client.{Url, TargetError, validate_target}

pub data Answer : Type 0 where
  no_answer : (error : String) → Answer
  answered : (status : ℤ) (text : String) (closes : Bool) → Answer

pub record Attempt : Type 0 where
  -- Whether the request could be built.
  pub built : Bool
  pub answer : Answer
  pub ended : Bool

pub data Waited : Type 0 where
  bad_target : TargetError → Waited
  bad_status bad_request close_failed write_failed observed : Waited
  gave_up : (last : String) → Waited
  -- The attempts that are given have not been enough.
  waiting : (last : String) → Waited

pub data Turn : Type 0 where
  done : Waited → Turn
  again : (last : String) → Turn

unfoldable pub judge : (writes : Bool) (want : ℤ) → Answer → Turn
judge writes want (no_answer error) = again error
judge writes want (answered status text closes) =
    if closes
    then (if status == want then done (if writes then observed else write_failed) else again text)
    else done close_failed

-- One turn of the loop, up to the `select`.
unfoldable pub attempt_once : (writes : Bool) (want : ℤ) (built : Bool) → Answer → Turn
attempt_once writes want true answer = judge writes want answer
attempt_once writes want false answer = done bad_request

-- The `select`, with the rest of the loop.
turn : Bool → (String → Waited) → Turn → Waited
turn ended rest (done w) = w
turn ended rest (again last) = if ended then gave_up last else rest last

unfoldable pub wait : (writes : Bool) (want : ℤ) → (last : String) → List Attempt → Waited
unfolding turn
wait writes want last [] = waiting last
wait writes want last (a ∷ rest) =
    turn a.ended (λ l. wait writes want l rest) (attempt_once writes want a.built a.answer)

checked : Option TargetError → (writes : Bool) (want : ℤ) → List Attempt → Waited
checked (some e) writes want attempts = bad_target e
checked none writes want attempts =
    if ltb_ℤ want (pos 100) || ltb_ℤ (pos 599) want
    then bad_status
    else wait writes want "no response" attempts

unfoldable pub wait_for_status :
    (parse_url : String → Option Url) (endpoint : String) (writes : Bool) (want : ℤ)
    → List Attempt
    → Waited
unfolding checked
wait_for_status parse_url endpoint writes want attempts =
    checked (validate_target parse_url endpoint) writes want attempts
