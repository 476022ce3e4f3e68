-- ===== src/Reasoning/Frame/Gates.antt =====
-- The gates before an answer leave the counts, the bans and the marks of a turn alone
-- (internal/implementation/orchestrator/reasoning_loop.go).
use eywa.Prelude.{
  ℕ, zero, suc, ◌≤◌, ◌≡◌, refl, Bool, true, false, List, [], ◌∷◌, length, String, Option, none,
  some, if◌then◌else◌, Option-cases, inl, inr, arith,
}
use eywa.Entities.Value.{Value}
use eywa.Entities.Policies.{GroundingViolationAction, revise_once, annotate, block, Confidence}
use eywa.Reasoning.Oracle.{OracleMessage, OracleRequest, OracleResponse}
use eywa.Reasoning.Confidence.{Verdict}
use eywa.Reasoning.Plan.{PlanState}
use eywa.Reasoning.Turn.{ReasoningService, TurnState}
use eywa.Reasoning.Answer.{
  accrue_tokens, tiering_active, ask, call_llm, request_of, payload_of, synthesized,
  synthesize_final, structured_from, finalize_structured,
}
use eywa.Reasoning.Gates.{
  set_last, Gate, pass, revise, deliver, and_pass, resynthesize, plan_gate, reflect,
  reflection_gate, violation, nudge, formatted, taken_over, with_confidence, enforce_grounding,
  grounding_gate, handoff_gate, deliver_answer, finalize_terminal_response, with_answer, judged,
  weighed, verdict_of, nudged, reworked, sent_back, with_citations, plan_nudge_message,
  reflection_revision_message, citation_revision_message, undelivered, critique_request,
  resynthesized, critiqued, reflected,
}
use eywa.Reasoning.Frame.{Frame, kept, same, appended, Frame-trans, accrue_tokens-Frame}

length-set_last : (s : String) (ms : List OracleMessage) → length (set_last s ms) ≡ length ms
unfolding set_last
length-set_last s [] = refl
length-set_last s (m ∷ []) = refl
length-set_last s (m ∷ m' ∷ ms) = omega (arith, length-set_last s (m' ∷ ms))

pub data FrameGate (ts : TurnState) : Gate → Type 0 where
  on_pass : {ts' : TurnState} → Frame ts ts' → FrameGate ts (pass ts')
  on_revise : {ts' : TurnState} → Frame ts ts' → FrameGate ts (revise ts')
  on_deliver : {ts' : TurnState} → Frame ts ts' → FrameGate ts (deliver ts')

FrameGate-trans : {ts ts' : TurnState} {g : Gate} → Frame ts ts' → FrameGate ts' g → FrameGate ts g
FrameGate-trans f (on_pass h) = on_pass (Frame-trans f h)
FrameGate-trans f (on_revise h) = on_revise (Frame-trans f h)
FrameGate-trans f (on_deliver h) = on_deliver (Frame-trans f h)

and_pass-Frame :
    {ts : TurnState} {g : Gate} (next : TurnState → Gate)
    → FrameGate ts g
    → ((ts' : TurnState) → FrameGate ts' (next ts'))
    → FrameGate ts (and_pass g next)
and_pass-Frame next (on_revise f) n = on_revise f
and_pass-Frame next (on_deliver f) n = on_deliver f
and_pass-Frame next (on_pass {ts'} f) n = FrameGate-trans f (n ts')

if-FrameGate :
    (b : Bool) {ts : TurnState} {g h : Gate}
    → FrameGate ts g
    → FrameGate ts h
    → FrameGate ts (if b then g else h)
if-FrameGate true x y = x
if-FrameGate false x y = y

passes : (ts : TurnState) → FrameGate ts (pass ts)
passes ts = on_pass (kept (same ts))

module _ (svc : ReasoningService) where
  synthesized-Frame :
      (o : Option OracleResponse) (ts : TurnState) → Frame ts (synthesized svc (o, ts)).1
  synthesized-Frame none ts = kept (same ts)
  synthesized-Frame (some resp) ts = accrue_tokens-Frame "" resp.tokens_used ts

  ask-Frame : (q : OracleRequest) (ts : TurnState) → Frame ts (ask q ts)
  ask-Frame q ts = kept (same ts)

  pub synthesize_final-Frame : (ts : TurnState) → Frame ts (synthesize_final svc ts).1
  unfolding synthesize_final call_llm
  synthesize_final-Frame ts = Frame-trans (ask-Frame _ ts) (synthesized-Frame _ (ask _ ts))

  structured_from-Frame :
      (left : ℕ) (schema : Value) (native : Bool) (base hint last : String) (ts : TurnState)
      → Frame ts (structured_from svc left schema native base hint last ts).1
  unfolding structured_from call_llm
  structured_from-Frame zero schema native base hint last ts = kept (same ts)
  structured_from-Frame (suc left) schema native base hint last ts =
      let q = request_of ts.req ts.working_context [] hint "" native in
      elim (Option-cases (svc.generate_response q ts.outside)) [
        | inl e ↦ rw e (ask-Frame q ts)
        | inr (resp, e) ↦
            let ts' = accrue_tokens "" resp.tokens_used (ask q ts) in
            let counted : Frame ts ts' =
              Frame-trans (ask-Frame q ts) (accrue_tokens-Frame "" resp.tokens_used (ask q ts)) in
            elim (Option-cases (svc.schema_fault schema (payload_of svc resp))) [
              | inl f ↦ rw (e, f) (Frame-trans counted (kept (same ts')))
              | inr (fault, f) ↦
                  rw (e, f)
                    (Frame-trans counted (structured_from-Frame left schema native base _ _ ts'))
            ]
      ]

  critiqued-Frame :
      (q : OracleRequest) (o : Option OracleResponse) (ts : TurnState)
      → Frame ts (critiqued svc q o ts).1
  critiqued-Frame q none ts = kept (same ts)
  critiqued-Frame q (some resp) ts = kept (same ts)

  nudged-Frame : (open_items : List String) (ts : TurnState) → Frame ts (nudged svc open_items ts)
  nudged-Frame open_items ts = appended (plan_nudge_message open_items) (kept (same ts))

  reworked-Frame : (issues : List String) (ts : TurnState) → Frame ts (reworked svc issues ts)
  reworked-Frame issues ts = appended (reflection_revision_message issues) (kept (same ts))

  sent_back-Frame : (ts : TurnState) → Frame ts (sent_back svc ts)
  sent_back-Frame ts = appended citation_revision_message (kept (same ts))

  with_citations-Frame :
      (cited : List String) (ts : TurnState) → Frame ts (with_citations svc cited ts)
  with_citations-Frame cited ts = kept (same ts)

  nudge-Frame : (p : Option PlanState) (ts : TurnState) → FrameGate ts (nudge svc p ts)
  nudge-Frame none ts = passes ts
  nudge-Frame (some p) ts = if-FrameGate _ (on_revise (nudged-Frame _ ts)) (passes ts)

  reflected-Frame :
      (verdict : Bool × List String) (ts : TurnState) → FrameGate ts (reflected svc (verdict, ts))
  reflected-Frame (true, issues) ts = passes ts
  reflected-Frame (false, issues) ts = on_revise (reworked-Frame issues ts)

  reflection_gate-Frame : (ts : TurnState) → FrameGate ts (reflection_gate svc ts)
  unfolding reflection_gate reflect
  reflection_gate-Frame ts =
      let q = critique_request svc ts.reflection ts in
      let out = critiqued svc q (svc.generate_response q ts.outside) ts in
      if-FrameGate _
        (FrameGate-trans (critiqued-Frame q (svc.generate_response q ts.outside) ts)
          (reflected-Frame out.0 out.1))
        (passes ts)

  violation-Frame :
      (v : GroundingViolationAction) (ts : TurnState) → FrameGate ts (violation svc v ts)
  unfolding violation
  violation-Frame block ts = on_deliver (kept (same ts))
  violation-Frame annotate ts = on_pass (kept (same ts))
  violation-Frame revise_once ts = if-FrameGate _ (passes ts) (on_revise (sent_back-Frame ts))

  weighed-Frame :
      (nothing enough : Bool) (cited : List String) (ts : TurnState)
      → FrameGate ts (weighed svc nothing enough cited ts)
  weighed-Frame true enough cited ts = passes ts
  weighed-Frame false true cited ts = on_pass (with_citations-Frame cited ts)
  weighed-Frame false false cited ts = violation-Frame ts.grounding.on_violation ts

  grounding_gate-Frame :
      (draft : String) (ts : TurnState) → FrameGate ts (grounding_gate svc draft ts)
  unfolding grounding_gate enforce_grounding
  grounding_gate-Frame draft ts = if-FrameGate _ (weighed-Frame _ _ _ ts) (passes ts)

  with_confidence-Frame :
      (c : Option Confidence) (ts : TurnState) → Frame ts (with_confidence svc c ts)
  with_confidence-Frame none ts = kept (same ts)
  with_confidence-Frame (some c) ts = kept (same ts)

  taken_over-Frame : (o : Option String) (ts : TurnState) → FrameGate ts (taken_over svc o ts)
  taken_over-Frame none ts = passes ts
  taken_over-Frame (some message) ts = on_deliver (kept (same ts))

  judged-Frame : (v : Verdict) (ts : TurnState) → FrameGate ts (judged svc v ts)
  judged-Frame v ts =
      FrameGate-trans (with_confidence-Frame v.confidence ts)
        (taken_over-Frame v.holding (with_confidence svc v.confidence ts))

  handoff_gate-Frame :
      (content : String) (ts : TurnState) → FrameGate ts (handoff_gate svc content ts)
  unfolding handoff_gate
  handoff_gate-Frame content ts =
      if-FrameGate (undelivered svc ts ts.handoff.enabled)
        (judged-Frame (verdict_of svc content ts) ts) (passes ts)

  with_answer-Frame : (s : String) (ts : TurnState) → Frame ts (with_answer svc s ts)
  with_answer-Frame s ts = kept (same ts)

  formatted-Frame :
      (o : Option Value) (content : String) (ts : TurnState)
      → FrameGate ts (formatted svc o content ts)
  unfolding finalize_structured
  formatted-Frame none content ts = on_deliver (with_answer-Frame content ts)
  formatted-Frame (some schema) content ts =
      if-FrameGate _ (on_deliver (with_answer-Frame content ts)) (
        on_deliver
          (Frame-trans (structured_from-Frame 2 schema _ _ _ "" ts) (with_answer-Frame _ _)))

  resynthesized-Frame :
      (content : String) (o : Option OracleResponse) (ts ts' : TurnState)
      → Frame ts' (resynthesized svc content ts (o, ts')).1
  resynthesized-Frame content none ts ts' = kept (same ts')
  resynthesized-Frame content (some resp) ts ts' =
      let counted = accrue_tokens "" resp.tokens_used ts' in
      let as_long : length counted.working_context
          ≤ length (set_last resp.content counted.working_context) =
        omega (arith, length-set_last resp.content counted.working_context) in
      Frame-trans (accrue_tokens-Frame "" resp.tokens_used ts')
        (kept (refl, refl, refl, as_long, refl, refl, refl, refl, refl))

  if-Frame :
      (b : Bool) {ts : TurnState} (x y : String × TurnState)
      → Frame ts x.1
      → Frame ts y.1
      → Frame ts (if b then x else y).1
  if-Frame true x y f g = f
  if-Frame false x y f g = g

  resynthesize-Frame :
      (content : String) (ts : TurnState) → Frame ts (resynthesize svc content ts).1
  unfolding resynthesize call_llm
  resynthesize-Frame content ts =
      let q = request_of ts.req ts.working_context [] "" "" false in
      if-Frame (undelivered svc ts (tiering_active ts.req))
        (resynthesized svc content ts (svc.generate_response q ts.outside, ask q ts)) (content, ts)
        (Frame-trans (ask-Frame q ts)
          (resynthesized-Frame content (svc.generate_response q ts.outside) ts (ask q ts)))
        (kept (same ts))

  pub finalize_terminal_response-Frame :
      (resp : OracleResponse) (ts : TurnState)
      → FrameGate ts (finalize_terminal_response svc resp ts)
  unfolding finalize_terminal_response plan_gate deliver_answer
  finalize_terminal_response-Frame resp ts =
      let drafted = resynthesize svc resp.content ts in
      FrameGate-trans (resynthesize-Frame resp.content ts) (
        and_pass-Frame _ (nudge-Frame drafted.1.plan drafted.1) (λ ts'.
          and_pass-Frame _ (reflection_gate-Frame ts') (λ ts''.
            and_pass-Frame _ (grounding_gate-Frame drafted.0 ts'') (λ ts3.
              and_pass-Frame _ (handoff_gate-Frame drafted.0 ts3)
                (λ ts4. formatted-Frame ts4.req.response_format drafted.0 ts4)))))
