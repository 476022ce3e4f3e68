-- ===== src/Reasoning/Bounds/Resume.antt =====
-- A checkpoint that is read, whatever it says, leaves the whole budget of the run (resumeFromCheckpoint in
-- internal/implementation/orchestrator/reasoning_durable.go).
use eywa.Prelude.{
  ℕ, zero, suc, ◌+◌, ◌≡◌, sym, subst, String, Option, none, some, Bool-cases, inl, inr,
  if◌then◌else◌, arith,
}
use eywa.Prelude.Maps.{lookup}
use eywa.Reasoning.Turn.{ReasoningService, TurnSnapshot, TurnState}
use eywa.Reasoning.Durable.{restore, restored, found, resume_from_checkpoint}
use eywa.Reasoning.Loop.{resumed}
use eywa.Reasoning.Bounds.{executed, Cap, Good, good}

module _ (svc : ReasoningService) (base : ℕ) where
  pub Cap-start : (max : ℕ) → Cap max base (base + 0)
  Cap-start zero = tt
  Cap-start (suc max) = omega arith

  -- A checkpoint is read into any turn that has executed nothing yet.
  restored-Good :
      (snap : TurnSnapshot) (ts : TurnState)
      → executed ts.outside.batches ≡ base
      → Good svc.max_actions_per_cycle base 0 (restore snap ts)
  unfolding restore
  restored-Good snap ts e = good (omega (arith, e)) (
      subst (λ k. Cap svc.max_actions_per_cycle base (k + 0)) (sym e)
        (Cap-start svc.max_actions_per_cycle))

  read-Good :
      (o : Option TurnSnapshot) (ts ts' : TurnState)
      → executed ts.outside.batches ≡ base
      → restored o ts ≡ some ts'
      → Good svc.max_actions_per_cycle base 0 ts'
  read-Good none ts ts' e r = cc
  read-Good (some snap) ts ts' e r =
      let same_turn : restore snap ts ≡ ts' = cc in
      subst (λ (t : TurnState). Good svc.max_actions_per_cycle base 0 t) same_turn
        (restored-Good snap ts e)

  found-Good :
      (o : Option String) (ts ts' : TurnState)
      → executed ts.outside.batches ≡ base
      → found svc o ts ≡ some ts'
      → Good svc.max_actions_per_cycle base 0 ts'
  found-Good none ts ts' e r = cc
  found-Good (some bytes) ts ts' e r = read-Good (svc.unmarshal bytes) ts ts' e r

  pub resumed-Good :
      (id : Option String) (ts ts' : TurnState)
      → executed ts.outside.batches ≡ base
      → resumed svc id ts ≡ some ts'
      → Good svc.max_actions_per_cycle base 0 ts'
  unfolding resume_from_checkpoint
  resumed-Good none ts ts' e r = cc
  resumed-Good (some id) ts ts' e r = elim (Bool-cases (svc.checkpoint_load_up ts.outside)) [
    | inl up ↦ found-Good (lookup id ts.outside.checkpoints) ts ts' e (
        subst
          (λ b. (if b then found svc (lookup id ts.outside.checkpoints) ts else none) ≡ some ts') up
          r)
    | inr down ↦
        let lost : ◌≡◌ {A = Option TurnState} none (some ts') =
          subst
            (λ b. (if b then found svc (lookup id ts.outside.checkpoints) ts else none) ≡ some ts')
            down r in
        cc
  ]
