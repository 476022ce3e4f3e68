-- ===== src/Reasoning/Liveness.antt =====
-- Each gate that sends an answer back does so a bounded number of times (finalizeTerminalResponse in
-- internal/implementation/orchestrator/reasoning_loop.go).
pub mod Run
use eywa.Prelude.{
  ℕ, zero, suc, ◌+◌, ◌-◌, ◌≤◌, ◌<◌, ◌≡◌, refl, sym, ◌∙◌, subst, Bool, true, false, ◌&&◌, not, List,
  [], ◌∷◌, String, Option, none, some, ltb, if◌then◌else◌, Bool-cases, inl, inr, arith,
}
use eywa.Entities.Value.{Value}
use eywa.Entities.Policies.{GroundingViolationAction, revise_once, annotate, block, Confidence}
use eywa.Reasoning.Oracle.{OracleMessage, OracleUsage, OracleRequest, OracleResponse}
use eywa.Reasoning.Confidence.{Verdict}
use eywa.Reasoning.Plan.{PlanState, incomplete}
use eywa.Reasoning.Turn.{ReasoningService, TurnState}
use eywa.Reasoning.Answer.{
  accrue_tokens, accumulate_model_tokens, tiering_active, ask, call_llm, request_of,
}
use eywa.Reasoning.Gates.{
  Gate, pass, revise, deliver, and_pass, resynthesize, resynthesized, plan_gate, nudge, nudged,
  reflection_gate, reflect, reflected, reworked, critiqued, critique_request, grounding_gate,
  enforce_grounding, weighed, violation, sent_back, with_citations, handoff_gate, judged,
  verdict_of, with_confidence, taken_over, formatted, deliver_answer, finalize_terminal_response,
  with_answer, undelivered,
}

-- How often the gates can still send an answer back.
abbrev pub one_unless : Bool → ℕ
one_unless true = 0
one_unless false = 1

abbrev pub open_gates : TurnState → ℕ
open_gates ts =
    one_unless ts.plan_nudged
    + ((ts.reflection.max_rounds - ts.reflection_rounds) + one_unless ts.grounding_revised)

pub data Calm (ts ts' : TurnState) : Type 0 where
  calm : open_gates ts' ≡ open_gates ts → Calm ts ts'

pub Calm-trans : {ts ts' ts'' : TurnState} → Calm ts ts' → Calm ts' ts'' → Calm ts ts''
Calm-trans (calm p) (calm q) = calm (q ∙ p)

pub data CalmGate (ts : TurnState) : Gate → Type 0 where
  on_pass : {ts' : TurnState} → Calm ts ts' → CalmGate ts (pass ts')
  on_revise : {ts' : TurnState} → open_gates ts' < open_gates ts → CalmGate ts (revise ts')
  on_deliver : {ts' : TurnState} → CalmGate ts (deliver ts')

CalmGate-trans : {ts ts' : TurnState} {g : Gate} → Calm ts ts' → CalmGate ts' g → CalmGate ts g
CalmGate-trans c (on_pass h) = on_pass (Calm-trans c h)
CalmGate-trans {ts} {ts'} (calm p) (on_revise {ts' = ts''} h) =
    on_revise (subst (λ n. open_gates ts'' < n) p h)
CalmGate-trans c on_deliver = on_deliver

and_pass-Calm :
    {ts : TurnState} {g : Gate} (next : TurnState → Gate)
    → CalmGate ts g
    → ((ts' : TurnState) → CalmGate ts' (next ts'))
    → CalmGate ts (and_pass g next)
and_pass-Calm next (on_revise h) n = on_revise h
and_pass-Calm next on_deliver n = on_deliver
and_pass-Calm next (on_pass {ts'} c) n = CalmGate-trans c (n ts')

if-CalmGate :
    (b : Bool) {ts : TurnState} {g h : Gate}
    → (b ≡ true → CalmGate ts g)
    → CalmGate ts h
    → CalmGate ts (if b then g else h)
if-CalmGate true x y = x refl
if-CalmGate false x y = y

unless-CalmGate :
    (b : Bool) {ts : TurnState} {g h : Gate}
    → CalmGate ts g
    → (b ≡ false → CalmGate ts h)
    → CalmGate ts (if b then g else h)
unless-CalmGate true x y = x
unless-CalmGate false x y = y refl

passes : (ts : TurnState) → CalmGate ts (pass ts)
passes ts = on_pass (calm refl)

and_left : (a b : Bool) → (a && b) ≡ true → a ≡ true
and_left true b h = refl
and_left false b h = h

and_right : (a b : Bool) → (a && b) ≡ true → b ≡ true
and_right true b h = h
and_right false b h = cc

one_less : (b : Bool) (n : ℕ) → b ≡ false → 0 + n < one_unless b + n
one_less false n h = omega arith
one_less true n h = cc

last_less : (a m : ℕ) (b : Bool) → b ≡ false → a + (m + 0) < a + (m + one_unless b)
last_less a m false h = omega arith
last_less a m true h = cc

not-true : (b : Bool) → not b ≡ true → b ≡ false
not-true false h = refl
not-true true h = cc

module _ (svc : ReasoningService) where
  nudge-Calm : (p : Option PlanState) (ts : TurnState) → CalmGate ts (nudge svc p ts)
  nudge-Calm none ts = passes ts
  nudge-Calm (some p) ts =
      if-CalmGate _
        (λ e.
          on_revise
            (one_less ts.plan_nudged _ (not-true ts.plan_nudged (and_left _ _ (and_left _ _ e)))))
        (passes ts)

  critiqued-Calm :
      (q : OracleRequest) (o : Option OracleResponse) (ts : TurnState)
      → Calm ts (critiqued svc q o ts).1
  critiqued-Calm q none ts = calm refl
  critiqued-Calm q (some resp) ts = calm refl

  round_less : (max n a b : ℕ) → ltb n max ≡ true → a + ((max - suc n) + b) < a + ((max - n) + b)
  round_less max n a b h = let below : n < max = ground (arith, h) in omega (arith, below)

  reflected-Calm :
      (verdict : Bool × List String) (ts : TurnState)
      → ltb ts.reflection_rounds ts.reflection.max_rounds ≡ true
      → CalmGate ts (reflected svc (verdict, ts))
  reflected-Calm (true, issues) ts h = passes ts
  reflected-Calm (false, issues) ts h = on_revise (
      round_less ts.reflection.max_rounds ts.reflection_rounds (one_unless ts.plan_nudged)
        (one_unless ts.grounding_revised) h)

  critiqued-rounds :
      (q : OracleRequest) (o : Option OracleResponse) (ts : TurnState)
      → ltb
          (critiqued svc q o ts).1.reflection_rounds
          (critiqued svc q o ts).1.reflection.max_rounds
        ≡ ltb ts.reflection_rounds ts.reflection.max_rounds
  critiqued-rounds q none ts = refl
  critiqued-rounds q (some resp) ts = refl

  reflection_gate-Calm : (ts : TurnState) → CalmGate ts (reflection_gate svc ts)
  unfolding reflection_gate reflect
  reflection_gate-Calm ts =
      let q = critique_request svc ts.reflection ts in
      let o = svc.generate_response q ts.outside in
      let out = critiqued svc q o ts in
      if-CalmGate _
        (λ e.
          CalmGate-trans (critiqued-Calm q o ts)
            (reflected-Calm out.0 out.1 (critiqued-rounds q o ts ∙ and_right _ _ (and_left _ _ e))))
        (passes ts)

  violation-Calm :
      (v : GroundingViolationAction) (ts : TurnState) → CalmGate ts (violation svc v ts)
  unfolding violation
  violation-Calm block ts = on_deliver
  violation-Calm annotate ts = on_pass (calm refl)
  violation-Calm revise_once ts =
      unless-CalmGate ts.grounding_revised (passes ts)
        (λ e. on_revise (last_less (one_unless ts.plan_nudged) _ ts.grounding_revised e))

  weighed-Calm :
      (nothing enough : Bool) (cited : List String) (ts : TurnState)
      → CalmGate ts (weighed svc nothing enough cited ts)
  weighed-Calm true enough cited ts = passes ts
  weighed-Calm false true cited ts = on_pass (calm refl)
  weighed-Calm false false cited ts = violation-Calm ts.grounding.on_violation ts

  enforce_grounding-Calm :
      (draft : String) (ts : TurnState) → CalmGate ts (enforce_grounding svc draft ts)
  unfolding enforce_grounding
  enforce_grounding-Calm draft ts = weighed-Calm _ _ _ ts

  grounding_gate-Calm :
      (draft : String) (ts : TurnState) → CalmGate ts (grounding_gate svc draft ts)
  unfolding grounding_gate
  grounding_gate-Calm draft ts =
      if-CalmGate (undelivered svc ts ts.grounding.enabled) (λ e. enforce_grounding-Calm draft ts)
        (passes ts)

  with_confidence-Calm :
      (c : Option Confidence) (ts : TurnState) → Calm ts (with_confidence svc c ts)
  with_confidence-Calm none ts = calm refl
  with_confidence-Calm (some c) ts = calm refl

  taken_over-Calm : (o : Option String) (ts : TurnState) → CalmGate ts (taken_over svc o ts)
  taken_over-Calm none ts = passes ts
  taken_over-Calm (some message) ts = on_deliver

  judged-Calm : (v : Verdict) (ts : TurnState) → CalmGate ts (judged svc v ts)
  judged-Calm v ts =
      CalmGate-trans (with_confidence-Calm v.confidence ts)
        (taken_over-Calm v.holding (with_confidence svc v.confidence ts))

  handoff_gate-Calm :
      (content : String) (ts : TurnState) → CalmGate ts (handoff_gate svc content ts)
  unfolding handoff_gate
  handoff_gate-Calm content ts =
      if-CalmGate (undelivered svc ts ts.handoff.enabled)
        (λ e. judged-Calm (verdict_of svc content ts) ts) (passes ts)

  formatted-Calm :
      (o : Option Value) (content : String) (ts : TurnState)
      → CalmGate ts (formatted svc o content ts)
  formatted-Calm none content ts = on_deliver
  formatted-Calm (some schema) content ts = if-CalmGate _ (λ e. on_deliver) on_deliver

  pub accrue_tokens-Calm :
      (model : String) (usage : OracleUsage) (ts : TurnState)
      → Calm ts (accrue_tokens model usage ts)
  unfolding accrue_tokens
  accrue_tokens-Calm model usage ts = calm refl

  resynthesized-Calm :
      (content : String) (o : Option OracleResponse) (ts ts' : TurnState)
      → Calm ts' (resynthesized svc content ts (o, ts')).1
  resynthesized-Calm content none ts ts' = calm refl
  resynthesized-Calm content (some resp) ts ts' =
      Calm-trans (accrue_tokens-Calm "" resp.tokens_used ts') (calm refl)

  if-Calm :
      (b : Bool) {ts : TurnState} (x y : String × TurnState)
      → Calm ts x.1
      → Calm ts y.1
      → Calm ts (if b then x else y).1
  if-Calm true x y f g = f
  if-Calm false x y f g = g

  resynthesize-Calm : (content : String) (ts : TurnState) → Calm ts (resynthesize svc content ts).1
  unfolding resynthesize call_llm
  resynthesize-Calm content ts =
      let q = request_of ts.req ts.working_context [] "" "" false in
      if-Calm (undelivered svc ts (tiering_active ts.req))
        (resynthesized svc content ts (svc.generate_response q ts.outside, ask q ts)) (content, ts)
        (Calm-trans (calm refl)
          (resynthesized-Calm content (svc.generate_response q ts.outside) ts (ask q ts)))
        (calm refl)

  -- A final answer is delivered, or sent back by a gate that is then open once less.
  pub finalize_terminal_response-Calm :
      (resp : OracleResponse) (ts : TurnState)
      → CalmGate ts (finalize_terminal_response svc resp ts)
  unfolding finalize_terminal_response plan_gate deliver_answer
  finalize_terminal_response-Calm resp ts =
      let drafted = resynthesize svc resp.content ts in
      CalmGate-trans (resynthesize-Calm resp.content ts) (
        and_pass-Calm _ (nudge-Calm drafted.1.plan drafted.1) (λ ts'.
          and_pass-Calm _ (reflection_gate-Calm ts') (λ ts''.
            and_pass-Calm _ (grounding_gate-Calm drafted.0 ts'') (λ ts3.
              and_pass-Calm _ (handoff_gate-Calm drafted.0 ts3)
                (λ ts4. formatted-Calm ts4.req.response_format drafted.0 ts4)))))
