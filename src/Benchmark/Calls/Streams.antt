-- ===== src/Benchmark/Calls/Streams.antt =====
-- Which calls count as successes.
use text.Mathlib.TextLemmas.{append-eq-nil_iff}
use portkeeper.Common.{
  ℕ, suc, ◌+◌, ◌≤◌, String, true, false, ◌&&◌, ◌||◌, not, ◌≡◌, ◌≢◌, ◌↔◌, refl, ◌∙◌, List, [], ◌∷◌,
  Option, none, some, ◌==◌, if◌then◌else◌, ltb, string_equal, nat_equal, any, all, count, arith,
  inl, inr, Bool-cases, Option-cases,
}
use portkeeper.Common.Int.{pos, sub_ℕ, ltb_ℤ}
use portkeeper.Benchmark.Errors.{ContextState}
use portkeeper.Benchmark.Errors.Categories.{benchmark_error-ne}
use portkeeper.Benchmark.Calls.{
  stream_tool, Content, ToolResult, Returned, call_failed, returned, Notification, CallReply,
  keep_first, progress, progress_all, call_token, prepared, is_text, content_category,
  result_category, reply_category, stream_margin, late, stream_category, call,
}

-- The tool answered: with a result that is no error, asks for nothing, and holds texts only, at least
-- one, none of them empty.
pub record IsAnswer (reply : Returned) : Type 0 where
  pub result : ToolResult
  pub returns : reply ≡ returned (some result)
  pub no_error : result.is_error ≡ false
  pub complete : result.needs_input ≡ false
  pub nonempty : result.content ≢ []
  pub texts : all is_text result.content ≡ true

any-not : (cs : List Content) → any (λ d. not (is_text d)) cs ≡ not (all is_text cs)
any-not [] = refl
any-not (c ∷ cs) = ground (arith, any-not cs)

content_category_iff :
    (cs : List Content)
    → ((content_category cs == "") ≡ true) ↔ ((cs ≢ []) × (all is_text cs ≡ true))
unfolding content_category
content_category_iff [] = ((λ h. cc), λ h. absurd (h.0 refl))
content_category_iff (c ∷ cs) = elim (Bool-cases (all is_text (c ∷ cs))) [
  | inl good ↦ rw (any-not (c ∷ cs), good) ((λ h. ((λ e. cc), refl)), λ h. refl)
  | inr bad ↦ rw (any-not (c ∷ cs), bad) ((λ h. cc), λ h. cc (h.1))
]

result_category_iff :
    (r : ToolResult)
    → ((result_category r == "") ≡ true) ↔ (
        (r.is_error ≡ false)
        × (r.needs_input ≡ false)
        × (r.content ≢ [])
        × (all is_text r.content ≡ true))
unfolding result_category
result_category_iff r = elim (Bool-cases r.is_error) [
  | inl wrong ↦ rw (wrong, if◌then◌else◌) ((λ h. cc), λ h. cc (h.0))
  | inr fine ↦ elim (Bool-cases r.needs_input) [
    | inl asks ↦ rw (fine, asks) ((λ h. cc), λ h. cc (h.1))
    | inr done ↦
        rw (fine, done)
          (
            (λ h. (
              refl,
              refl,
              ((content_category_iff r.content).0 h).0,
              ((content_category_iff r.content).0 h).1,
            )),
            λ h. (content_category_iff r.content).1 (h.2, h.3),
          )
  ]
]

reply_category_iff :
    (ctx : ContextState) (status : ℕ) (reply : Returned)
    → ((reply_category ctx status reply == "") ≡ true) ↔ IsAnswer reply
unfolding reply_category
reply_category_iff ctx status (call_failed err) =
    ((λ h. cc (benchmark_error-ne ctx err status)), λ a. cc (a.returns))
reply_category_iff ctx status (returned none) = ((λ h. cc), λ a. cc (a.returns))
reply_category_iff ctx status (returned (some r)) = (
  (λ h.
      let (no_error, complete, nonempty, texts) = (result_category_iff r).0 h in
      record {
        result = r;
        returns = refl;
        no_error = no_error;
        complete = complete;
        nonempty = nonempty;
        texts = texts;
      }),
  λ a.
      let same : r ≡ a.result = cc (a.returns) in
      (result_category_iff r).1 (rw same (a.no_error, a.complete, a.nonempty, a.texts)),
)

-- When the first notification of a token was handled.
abbrev pub first_of : String → List Notification → Option ℕ
first_of token [] = none
first_of token (n ∷ ns) = if n.progress_token == token then some n.at else first_of token ns

earlier : Option ℕ → Option ℕ → Option ℕ
earlier none other = other
earlier (some first) other = some first

module _ (token : String) (named : (token == "") ≡ false) where
  progress_all_lem :
      (first : Option ℕ) (updates : ℕ) (ns : List Notification)
      → progress_all (record { token = token; first = first; updates = updates }) ns ≡ record {
        token = token;
        first = earlier first (first_of token ns);
        updates = updates + count (λ n. n.progress_token == token) ns;
      }
  unfolding progress_all progress keep_first earlier
  progress_all_lem none updates [] = ground arith
  progress_all_lem (some first) updates [] = ground arith
  progress_all_lem none updates (n ∷ ns) = elim (Bool-cases (n.progress_token == token)) [
    | inl mine ↦ rw (mine, named) (progress_all_lem (some n.at) (suc updates) ns ∙ ground arith)
    | inr other ↦ rw other (progress_all_lem none updates ns ∙ ground arith)
  ]
  progress_all_lem (some first) updates (n ∷ ns) = elim (Bool-cases (n.progress_token == token)) [
    | inl mine ↦ rw (mine, named) (progress_all_lem (some first) (suc updates) ns ∙ ground arith)
    | inr other ↦ rw other (progress_all_lem (some first) updates ns ∙ ground arith)
  ]

-- Three notifications came, the first one during the call and well before its end.
pub record IsTimely (token : String) (r : CallReply) : Type 0 where
  pub three : count (λ n. n.progress_token == token) r.notifications ≡ 3
  pub first : ℕ
  pub earliest : first_of token r.notifications ≡ some first
  pub started : r.start ≤ first
  pub margin : first + stream_margin ≤ r.end

stream_some_iff :
    (start end first updates : ℕ)
    → ((stream_category start end (some first) updates == "") ≡ true)
      ↔ ((updates ≡ 3) × (start ≤ first) × (first + stream_margin ≤ end))
unfolding stream_category late
stream_some_iff start end first updates = elim (Bool-cases (updates == 3)) [
  | inr fewer ↦ rw fewer ((λ h. cc), λ h. absurd (ground (arith, h.0)))
  | inl three ↦ elim (Bool-cases (ltb first start || ltb_ℤ (sub_ℕ end first) (pos stream_margin))) [
    | inl slow ↦ rw (three, slow) ((λ h. cc), λ h. absurd (ground (arith, h.1, h.2)))
    | inr timely ↦ rw (three, timely) ((λ h. (ground arith, ground arith, ground arith)), λ h. refl)
  ]
]

stream_category_iff :
    (token : String) (r : CallReply)
    → ((stream_category r.start r.end
            (first_of token r.notifications)
            (count (λ n. n.progress_token == token) r.notifications)
          == "")
        ≡ true)
      ↔ IsTimely token r
stream_category_iff token r = elim (Option-cases (first_of token r.notifications)) [
  | inl silent ↦ rw silent (unfold stream_category in ((λ h. cc), λ t. cc (t.earliest)))
  | inr (first, e) ↦
      let iff =
        stream_some_iff r.start r.end first
          (count (λ n. n.progress_token == token) r.notifications) in
      rw e (
        (λ h. record {
          three = (iff.0 h).0;
          first = first;
          earliest = e;
          started = (iff.0 h).1;
          margin = (iff.0 h).2;
        }),
        λ t.
            let same : t.first ≡ first = cc (t.earliest) in
            iff.1 (t.three, rw same at t.started, rw same at t.margin),
      )
]

call_token-ne :
    (phase : String) (worker number : ℕ) → (call_token phase worker number == "") ≡ false
unfolding call_token
call_token-ne phase worker number = elim (Bool-cases (call_token phase worker number == "")) [
  | inr named ↦ named
  | inl blank ↦
      let rest =
        (append-eq-nil_iff.0
          ((string_equal.equal_iff (call_token phase worker number) "").0 blank)).1 in
      cc ((append-eq-nil_iff.0 rest).0)
]

fresh_progress :
    (token : String) (ns : List Notification)
    → (token == "") ≡ false
    → progress_all (record { token = token; first = none; updates = 0 }) ns ≡ record {
      token = token;
      first = first_of token ns;
      updates = count (λ n. n.progress_token == token) ns;
    }
unfolding earlier
fresh_progress token ns named = progress_all_lem token named none 0 ns ∙ ground arith

-- The category of the answer, and that of the stream where the answer has none.
both_blank :
    (answer stream : String)
    → ((if answer == "" && true then stream else answer) ≡ "")
      ↔ (((answer == "") ≡ true) × ((stream == "") ≡ true))
both_blank answer stream =
    ground (arith, string_equal.equal_iff answer "", string_equal.equal_iff stream "")

-- A measured or warm-up call of the streaming tool is a success exactly if the tool answered with
-- texts, and exactly three notifications with the token of this very call came, the first one after the
-- start of the call and at least 25 ms before its end. Notifications of other calls do not count.
pub stream_call_iff :
    (phase : String) (worker number : ℕ) (r : CallReply)
    → ((call stream_tool phase worker number r).error_category ≡ "")
      ↔ (IsAnswer r.reply × IsTimely (call_token phase worker number) r)
unfolding call prepared
stream_call_iff phase worker number r =
    let token : String = call_token phase worker number in
    let answer = reply_category_iff r.ctx r.status r.reply in
    let timely = stream_category_iff token r in
    let both = both_blank (reply_category r.ctx r.status r.reply) (
      stream_category r.start r.end (first_of token r.notifications)
        (count (λ n. n.progress_token == token) r.notifications)) in
    rw (fresh_progress token r.notifications (call_token-ne phase worker number)) (
      (λ h. (answer.0 (both.0 h).0, timely.0 (both.0 h).1)),
      λ h. both.1 (answer.1 h.0, timely.1 h.1),
    )
