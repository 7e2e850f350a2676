-- ===== src/Runbook/Streaming.antt =====
-- When the tool `stream_runbook` succeeds, and what it has sent then.
use portkeeper.Common.{
  ℕ, suc, String, false, ◌≡◌, ◌↔◌, refl, ◌∙◌, sym, ap, Option, none, some, List, [], ◌∷◌,
  string_equal, inl, inr, Bool-cases, Option-cases,
}
use portkeeper.Benchmark.Calls.{ToolResult}
use portkeeper.Runbook.{
  ServerError, Completed, succeeded, Turn, Progress, read_runbook, after_wait, after_notify, notify,
  stream_steps, after_read, stream_runbook,
}
use portkeeper.Runbook.Topics.{IsRead, read_runbook_iff}

-- The context lasts through a turn, and the notification is sent.
pub record IsLive (t : Turn) : Type 0 where
  pub lasts : t.over ≡ false
  pub notified : t.notify_error ≡ none
  pub waits : t.ended ≡ false

abbrev pub notice : String → ℕ → Turn → Progress
notice token step t = record { progress_token = token; progress = step; total = 3; at = t.sent_at }

module _ (token : String) (turn : ℕ → Turn) (result : Option ToolResult) where
  stream_steps-live :
      (step left : ℕ)
      → IsLive (turn step)
      → stream_steps (some token) turn result step (suc left) ≡ record {
        sent =
            notice token step (turn step)
            ∷ (stream_steps (some token) turn result (suc step) left).sent;
        completed = (stream_steps (some token) turn result (suc step) left).completed;
      }
  unfolding stream_steps notify after_notify after_wait
  stream_steps-live step left live = rw (live.lasts, live.notified, live.waits) refl

  stream_steps-IsLive :
      (step left : ℕ)
      → (stream_steps (some token) turn result step (suc left)).completed.error ≡ none
      → IsLive (turn step)
        × ((stream_steps (some token) turn result (suc step) left).completed.error ≡ none)
  unfolding stream_steps notify after_notify after_wait
  stream_steps-IsLive step left h = elim (Bool-cases (turn step).over) [
    | inl over ↦ absurd (cc (rw over at h))
    | inr lasts ↦ elim (Option-cases (turn step).notify_error) [
      | inr (e, wrong) ↦ absurd (cc (rw (lasts, wrong) at h))
      | inl notified ↦ elim (Bool-cases (turn step).ended) [
        | inl ended ↦ absurd (cc (rw (lasts, notified, ended) at h))
        | inr waits ↦ (
          record { lasts = lasts; notified = notified; waits = waits },
          rw (lasts, notified, waits) at h,
        )
      ]
    ]
  ]

  stream_steps-three :
      IsLive (turn 1)
      → IsLive (turn 2)
      → IsLive (turn 3)
      → stream_steps (some token) turn result 1 3 ≡ record {
        sent = notice token 1 (turn 1) ∷ notice token 2 (turn 2) ∷ notice token 3 (turn 3) ∷ [];
        completed = record { result = result; error = none };
      }
  stream_steps-three l1 l2 l3 =
      rw (stream_steps-live 1 2 l1, stream_steps-live 2 1 l2, stream_steps-live 3 0 l3)
        (unfold stream_steps in refl)

  stream_steps-AllLive :
      (stream_steps (some token) turn result 1 3).completed.error ≡ none
      → IsLive (turn 1) × IsLive (turn 2) × IsLive (turn 3)
  stream_steps-AllLive h =
      let (l1, h1) = stream_steps-IsLive 1 2 h in
      let (l2, h2) = stream_steps-IsLive 2 1 h1 in (l1, l2, (stream_steps-IsLive 3 0 h2).0)

-- What a stream that succeeds amounts to.
pub record IsStreamed (read_file : String → Option String) (token : String) (turn : ℕ → Turn)
    (topic : String) (result : ToolResult) (sent : List Progress) : Type 0 where
  pub read : IsRead read_file topic result
  pub first : IsLive (turn 1)
  pub second : IsLive (turn 2)
  pub third : IsLive (turn 3)
  pub notices :
      sent ≡ notice token 1 (turn 1) ∷ notice token 2 (turn 2) ∷ notice token 3 (turn 3) ∷ []

after_read_iff :
    (token : String) (turn : ℕ → Turn) (r : Option ToolResult) (error : Option ServerError)
    (result : ToolResult) (sent : List Progress)
    → (after_read (some token) turn r error ≡ record { sent = sent; completed = succeeded result })
      ↔ ((◌≡◌ {A = Completed} (record { result = r; error = error }) (succeeded result))
          × IsLive (turn 1)
          × IsLive (turn 2)
          × IsLive (turn 3)
          × (sent
              ≡ notice token 1 (turn 1) ∷ notice token 2 (turn 2) ∷ notice token 3 (turn 3) ∷ []))
unfolding after_read
after_read_iff token turn r (some e) result sent = ((λ h. cc), λ h. cc (h.0))
after_read_iff token turn r none result sent = (
  (λ h.
      let (l1, l2, l3) = stream_steps-AllLive token turn r (ap (λ s. s.completed.error) h) in
      let shape = sym (stream_steps-three token turn r l1 l2 l3) ∙ h in
      (ap (λ s. s.completed) shape, l1, l2, l3, sym (ap (λ s. s.sent) shape))),
  λ (same, l1, l2, l3, notices). stream_steps-three token turn r l1 l2 l3 ∙ cc (same, notices),
)

pub stream_runbook_iff :
    (read_file : String → Option String) (token : String) (turn : ℕ → Turn) (topic : String)
    (result : ToolResult) (sent : List Progress)
    → (stream_runbook read_file (some token) turn topic
        ≡ record { sent = sent; completed = succeeded result })
      ↔ IsStreamed read_file token turn topic result sent
unfolding stream_runbook after_read
stream_runbook_iff read_file token turn topic result sent =
    let steps =
      after_read_iff token turn (read_runbook read_file topic).result
        (read_runbook read_file topic).error result sent in
    let read = read_runbook_iff read_file topic result in
    (
      (λ h.
          let (answer, l1, l2, l3, notices) = steps.0 h in
          record { read = read.0 answer; first = l1; second = l2; third = l3; notices = notices }),
      λ s. steps.1 (read.1 s.read, s.first, s.second, s.third, s.notices),
    )
