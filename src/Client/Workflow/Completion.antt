-- ===== src/Client/Workflow/Completion.antt =====
-- When the workflow succeeds, and what it has written then.
use portkeeper.Common.{
  String, Bool, true, false, ◌≡◌, ◌≢◌, ◌↔◌, refl, ◌∙◌, ap, Option, none, some, List, [], ◌∷◌, ◌++◌,
  ◌==◌, if◌then◌else◌, string_equal, any, map, inl, inr, Bool-cases, Option-cases,
}
use portkeeper.Common.Text.{append}
use portkeeper.Benchmark.Calls.{ToolResult}
use portkeeper.Client.{Url, validate_target, Credentials}
use portkeeper.Client.Workflow.{
  WorkflowError, refused, no_token_file, not_advertised, Session, Output, done, stop, after, write,
  write_tools, by_call, by_tools, read_through, Outcome, close, errors_of, by_session, by_target,
  run,
}
use portkeeper.Client.Workflow.Transcript.{Accepted, Prints, Prints-after, after_iff}
use portkeeper.Client.Workflow.Lines.{
  text_of, discovered, last_line, write-Prints, write_tools-Prints, IsGood, complete-Prints,
}

abbrev pub answer_lines : ToolResult → List String
answer_lines r = map text_of r.content ++ last_line ∷ []

abbrev pub transcript : (endpoint : String) → List String → ToolResult → List String
transcript endpoint tools r =
    append "Connected to " endpoint ∷ map discovered tools ++ answer_lines r

abbrev pub advertises : List String → Bool
advertises tools = any (λ t. t == "read_runbook") tools

-- A session in which the tool is found, and its answer is texts.
pub record IsAnswered (accepts : List String → Bool) (s : Session) (endpoint topic : String)
    (lines : List String) : Type 0 where
  pub tools : List String
  pub listed : s.list_tools ≡ some tools
  pub advertised : advertises tools ≡ true
  pub result : ToolResult
  pub called : s.call_tool "read_runbook" topic ≡ some result
  pub good : IsGood result
  pub accepted : Accepted accepts [] (transcript endpoint tools result)
  pub written : lines ≡ transcript endpoint tools result

module _ (accepts : List String → Bool) (s : Session) (endpoint topic : String) where
  after_tools : List String → List String → Output
  after_tools tools lines =
      if advertises tools
      then by_call accepts (s.call_tool "read_runbook" topic) lines
      else stop not_advertised lines

  after_tools-Prints :
      (tools : List String) (r : ToolResult)
      → s.call_tool "read_runbook" topic ≡ some r
      → Prints accepts ((advertises tools ≡ true) × IsGood r) (answer_lines r) (after_tools tools)
  unfolding after_tools by_call
  after_tools-Prints tools r called lines end = elim (Bool-cases (advertises tools)) [
    | inr hidden ↦ rw hidden ((λ h. cc), λ (p, taken, e). cc (p.0))
    | inl shown ↦
        let answer = complete-Prints accepts r lines end in
        rw (shown, called)
          (
            (λ h. ((refl, (answer.0 h).0), (answer.0 h).1, (answer.0 h).2)),
            λ (p, taken, e). answer.1 (p.1, taken, e),
          )
  ]

  after_tools-missing :
      (tools lines end : List String)
      → s.call_tool "read_runbook" topic ≡ none
      → after_tools tools lines ≢ done end
  unfolding after_tools by_call
  after_tools-missing tools lines end missing h = elim (Bool-cases (advertises tools)) [
    | inl shown ↦ cc (rw (shown, missing) at h)
    | inr hidden ↦ cc (rw hidden at h)
  ]

  connected : String
  connected = append "Connected to " endpoint

  by_tools-Prints :
      (tools : List String) (r : ToolResult)
      → s.call_tool "read_runbook" topic ≡ some r
      → Prints accepts
          (Unit × (Unit × ((advertises tools ≡ true) × IsGood r)))
          (transcript endpoint tools r)
          (λ lines. after (write accepts connected lines) (by_tools accepts s topic (some tools)))
  unfolding by_tools after_tools connected
  by_tools-Prints tools r called =
      Prints-after accepts Unit (Unit × ((advertises tools ≡ true) × IsGood r)) (connected ∷ [])
        (map discovered tools ++ answer_lines r) (write accepts connected)
        (by_tools accepts s topic (some tools)) (write-Prints accepts connected)
        (Prints-after accepts Unit ((advertises tools ≡ true) × IsGood r) (map discovered tools)
          (answer_lines r) (write_tools accepts tools) (after_tools tools)
          (write_tools-Prints accepts tools) (after_tools-Prints tools r called))

  read_through-called :
      (end : List String)
      → read_through accepts s endpoint topic ≡ done end
      → (tools : List String) × (s.list_tools ≡ some tools)
        × (r : ToolResult) × (s.call_tool "read_runbook" topic ≡ some r)
  unfolding read_through by_tools after_tools connected
  read_through-called end h =
      let first = write accepts connected [] in
      let (lines, said, rest) =
        (after_iff first.error first.lines (by_tools accepts s topic s.list_tools) end).0 h in
      elim (Option-cases s.list_tools) [
        | inl silent ↦ absurd (cc (rw silent at rest))
        | inr (tools, listed) ↦
            let second = write_tools accepts tools lines in
            let (lines2, told, last) =
              (after_iff second.error second.lines (after_tools tools) end).0 (rw listed at rest) in
            elim (Option-cases (s.call_tool "read_runbook" topic)) [
              | inl missing ↦ absurd (after_tools-missing tools lines2 end missing last)
              | inr (r, called) ↦ (tools, listed, r, called)
            ]
      ]

  pub read_through_iff :
      (lines : List String)
      → (read_through accepts s endpoint topic ≡ done lines)
        ↔ IsAnswered accepts s endpoint topic lines
  unfolding read_through connected by_tools
  read_through_iff lines = (
    (λ h.
        let (tools, listed, r, called) = read_through-called lines h in
        let (guard, taken, e) = (by_tools-Prints tools r called [] lines).0 (rw listed at h) in
        record {
          tools = tools;
          listed = listed;
          advertised = guard.1.1.0;
          result = r;
          called = called;
          good = guard.1.1.1;
          accepted = taken;
          written = e;
        }),
    λ a. rw (a.listed) (
        (by_tools-Prints a.tools a.result a.called [] lines).1
          ((tt, (tt, (a.advertised, a.good))), a.accepted, a.written)),
  )

-- A run without an error.
pub record IsCompleted (parse_url : String → Option Url) (accepts : List String → Bool)
    (connect : (endpoint : String) → Credentials → Option Session) (endpoint : String)
    (c : Credentials) (topic : String) (lines : List String) : Type 0 where
  pub valid : validate_target parse_url endpoint ≡ none
  pub named : c.token_file ≢ ""
  pub session : Session
  pub made : connect endpoint c ≡ some session
  pub closed : session.closes ≡ true
  pub answered : IsAnswered accepts session endpoint topic lines

close_iff :
    (closes : Bool) (error : Option WorkflowError) (written lines : List String)
    → (close closes (record { lines = written; error = error })
        ≡ record { lines = lines; errors = [] })
      ↔ ((closes ≡ true)
          × (◌≡◌ {A = Output} (record { lines = written; error = error }) (done lines)))
unfolding close errors_of
close_iff closes (some e) written lines = ((λ h. cc), λ h. cc (h.1))
close_iff closes none written lines = elim (Bool-cases closes) [
  | inl closed ↦ rw closed (
    (λ h. (refl, ap (λ o. done o.lines) h)),
    λ h. ap (λ o. record { lines = o.lines; errors = [] }) (h.1),
  )
  | inr broken ↦ rw broken ((λ h. cc), λ h. cc (h.0))
]

by_session_iff :
    (accepts : List String → Bool) (endpoint topic : String) (reply : Option Session)
    (lines : List String)
    → (by_session accepts endpoint topic reply ≡ record { lines = lines; errors = [] }) ↔ (
        (s : Session) × (reply ≡ some s)
        × (s.closes ≡ true)
        × IsAnswered accepts s endpoint topic lines)
unfolding by_session
by_session_iff accepts endpoint topic none lines = ((λ h. cc), λ (s, e, closed, answered). cc (e))
by_session_iff accepts endpoint topic (some s) lines =
    let o : Output = read_through accepts s endpoint topic in
    let closing = close_iff s.closes o.error o.lines lines in
    let reading = read_through_iff accepts s endpoint topic lines in
    (
      (λ h. let (closed, read) = closing.0 h in (s, refl, closed, reading.0 read)),
      λ (t, e, closed, answered).
          let same : s ≡ t = cc (e) in
          closing.1 (ap (λ u. u.closes) same ∙ closed, reading.1 (rw same answered)),
    )

token_iff :
    (blank : Bool) (made : Outcome) (lines : List String)
    → ((if blank then refused no_token_file else made) ≡ record { lines = lines; errors = [] })
      ↔ ((blank ≡ false) × (made ≡ record { lines = lines; errors = [] }))
token_iff true made lines = ((λ h. cc), λ h. cc (h.0))
token_iff false made lines = ((λ h. (refl, h)), λ h. h.1)

not_true : (b : Bool) → b ≢ true → b ≡ false
not_true true h = absurd (h refl)
not_true false h = refl

-- The workflow ends without an error exactly if the target is valid, there is a token file, the session
-- is made and closed, it lists the runbook tool, the tool answers with texts, none of them empty,
-- and the writer accepts every line. What was written is then the endpoint, the tools in their order,
-- those texts and the last line.
pub run_iff :
    (parse_url : String → Option Url) (accepts : List String → Bool)
    (connect : (endpoint : String) → Credentials → Option Session) (endpoint : String)
    (c : Credentials) (topic : String) (lines : List String)
    → (run parse_url accepts connect endpoint c topic ≡ record { lines = lines; errors = [] })
      ↔ IsCompleted parse_url accepts connect endpoint c topic lines
unfolding run by_target
run_iff parse_url accepts connect endpoint c topic lines =
    elim (Option-cases (validate_target parse_url endpoint)) [
      | inr (e, bad) ↦ rw bad ((λ h. cc), λ d. cc (d.valid))
      | inl valid ↦
          let token =
            token_iff (c.token_file == "") (by_session accepts endpoint topic (connect endpoint c))
              lines in
          let session = by_session_iff accepts endpoint topic (connect endpoint c) lines in
          let named = string_equal.equal_iff c.token_file "" in
          rw valid (
            (λ h.
                let (filled, made) = token.0 h in
                let (s, e, closed, answered) = session.0 made in
                record {
                  valid = valid;
                  named = λ e. cc (named.1 e, filled);
                  session = s;
                  made = e;
                  closed = closed;
                  answered = answered;
                }),
            λ d. token.1 (
              not_true (c.token_file == "") (λ e. d.named (named.0 e)),
              session.1 (d.session, d.made, d.closed, d.answered),
            ),
          )
    ]
