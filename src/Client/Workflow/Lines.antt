-- ===== src/Client/Workflow/Lines.antt =====
-- The lines that each step of the workflow writes.
use mathlib.Core.List.{append-nil}
use portkeeper.Common.{
  String, Bool, true, false, ◌&&◌, ◌≡◌, ◌≢◌, ◌↔◌, refl, ◌∙◌, sym, ap, List, [], ◌∷◌, ◌++◌, ◌==◌,
  string_equal, all, map, inl, inr, Bool-cases, arith,
}
use portkeeper.Common.Text.{append}
use portkeeper.Benchmark.Calls.{ToolResult, Content, text, other_content, is_text}
use portkeeper.Client.Workflow.{
  Output, done, write, write_tools, write_content, write_contents, write_answer, complete,
}
use portkeeper.Client.Workflow.Transcript.{Prints, Prints-after}

abbrev pub text_of : Content → String
text_of (text s) = s
text_of other_content = ""

abbrev pub discovered : String → String
discovered t = append "Discovered tool: " t

abbrev pub last_line : String
last_line = "MCP discovery and tool call completed."

-- An answer that is no error and holds texts only, at least one, none of them empty.
abbrev pub IsGood : ToolResult → Type 0
IsGood r = (r.is_error ≡ false) × ((r.content ≢ []) × (all is_text r.content ≡ true))

module _ (accepts : List String → Bool) where
  Prints-iff :
      (P Q : Type 0) (todo : List String) (step : List String → Output)
      → P ↔ Q
      → Prints accepts P todo step
      → Prints accepts Q todo step
  Prints-iff P Q todo step same prints lines end = (
    (λ h. let (p, taken, e) = (prints lines end).0 h in (same.0 p, taken, e)),
    λ (q, taken, e). (prints lines end).1 (same.1 q, taken, e),
  )

  pub write-Prints : (line : String) → Prints accepts Unit (line ∷ []) (write accepts line)
  unfolding write
  write-Prints line lines end = elim (Bool-cases (accepts lines)) [
    | inl ok ↦ rw ok ((λ h. (tt, (refl, tt), sym (ap (λ o. o.lines) h))), λ h. ap done (sym (h.2)))
    | inr full ↦ rw full ((λ h. cc), λ (p, taken, e). cc (taken.0))
  ]

  nothing-Prints : Prints accepts Unit [] done
  nothing-Prints lines end = (
    (λ h. (tt, tt, sym (ap (λ o. o.lines) h) ∙ sym (append-nil lines))),
    λ (p, taken, e). ap done (sym (e ∙ append-nil lines)),
  )

  pub write_tools-Prints :
      (ts : List String) → Prints accepts Unit (map discovered ts) (write_tools accepts ts)
  unfolding write_tools
  write_tools-Prints [] = nothing-Prints
  write_tools-Prints (t ∷ ts) =
      Prints-iff (Unit × Unit) Unit (map discovered (t ∷ ts)) (write_tools accepts (t ∷ ts))
        ((λ h. tt), λ h. (tt, tt))
        (Prints-after accepts Unit Unit (discovered t ∷ []) (map discovered ts)
          (write accepts (discovered t)) (write_tools accepts ts) (write-Prints (discovered t))
          (write_tools-Prints ts))

  write_content-Prints :
      (c : Content) → Prints accepts (is_text c ≡ true) (text_of c ∷ []) (write_content accepts c)
  unfolding write_content
  write_content-Prints other_content lines end = ((λ h. cc), λ (p, taken, e). cc (p))
  write_content-Prints (text s) lines end = elim (Bool-cases (s == "")) [
    | inl blank ↦ rw blank ((λ h. cc), λ (p, taken, e). cc (p))
    | inr filled ↦ rw filled (
      (λ h. (refl, ((write-Prints s lines end).0 h).1, ((write-Prints s lines end).0 h).2)),
      λ (p, taken, e). (write-Prints s lines end).1 (tt, taken, e),
    )
  ]

  both_true : (a b : Bool) → ((a ≡ true) × (b ≡ true)) ↔ ((a && b) ≡ true)
  both_true a b = ground arith

  write_contents-Prints :
      (cs : List Content)
      → Prints accepts (all is_text cs ≡ true) (map text_of cs) (write_contents accepts cs)
  unfolding write_contents
  write_contents-Prints [] =
      Prints-iff Unit (◌≡◌ {A = Bool} true true) [] done ((λ h. refl), λ h. tt) nothing-Prints
  write_contents-Prints (c ∷ cs) =
      Prints-iff ((is_text c ≡ true) × (all is_text cs ≡ true)) (all is_text (c ∷ cs) ≡ true)
        (map text_of (c ∷ cs)) (write_contents accepts (c ∷ cs))
        (both_true (is_text c) (all is_text cs))
        (Prints-after accepts (is_text c ≡ true) (all is_text cs ≡ true) (text_of c ∷ [])
          (map text_of cs) (write_content accepts c) (write_contents accepts cs)
          (write_content-Prints c) (write_contents-Prints cs))

  write_answer-Prints :
      (cs : List Content)
      → Prints accepts
          ((cs ≢ []) × (all is_text cs ≡ true))
          (map text_of cs ++ last_line ∷ [])
          (write_answer accepts cs)
  unfolding write_answer
  write_answer-Prints [] = λ lines end. ((λ h. cc), λ (p, taken, e). absurd (p.0 refl))
  write_answer-Prints (c ∷ cs) =
      Prints-iff ((all is_text (c ∷ cs) ≡ true) × Unit)
        ((c ∷ cs ≢ []) × (all is_text (c ∷ cs) ≡ true)) (map text_of (c ∷ cs) ++ last_line ∷ [])
        (write_answer accepts (c ∷ cs)) ((λ h. ((λ e. cc), h.0)), λ h. (h.1, tt))
        (Prints-after accepts (all is_text (c ∷ cs) ≡ true) Unit (map text_of (c ∷ cs))
          (last_line ∷ []) (write_contents accepts (c ∷ cs)) (write accepts last_line)
          (write_contents-Prints (c ∷ cs)) (write-Prints last_line))

  pub complete-Prints :
      (r : ToolResult)
      → Prints accepts (IsGood r) (map text_of r.content ++ last_line ∷ []) (complete accepts r)
  unfolding complete
  complete-Prints r lines end = elim (Bool-cases r.is_error) [
    | inl wrong ↦ rw wrong ((λ h. cc), λ (p, taken, e). cc (p.0))
    | inr fine ↦
        let answer = write_answer-Prints r.content lines end in
        rw fine (
          (λ h. ((refl, (answer.0 h).0), (answer.0 h).1, (answer.0 h).2)),
          λ (p, taken, e). answer.1 (p.1, taken, e),
        )
  ]
