-- ===== src/Reasoning/Executor/Laws.antt =====
-- The retries of an Action (internal/implementation/orchestrator/tool_executor.go).
use eywa.Prelude.{
  ℕ, zero, suc, ◌+◌, ◌*◌, ◌<◌, ◌≡◌, refl, ◌⊎◌, inl, inr, true, false, Option, none, some, List, [],
  ◌∷◌, length, Bool-cases, arith,
}
use eywa.Prelude.Int.{pos_part}
use eywa.Reasoning.Oracle.{ToolCall}
use eywa.Reasoning.Dispatch.{ActionResult}
use eywa.Reasoning.Executor.{
  Action, ActionRetryConfig, Ran, is_transient, conclude, cut_short, attempt_from, retries,
  described, execute_one,
}

-- Each wait is twice the one before.
abbrev pub Doubling : ℕ → List ℕ → Type 0
Doubling d [] = Unit
Doubling d (w ∷ ws) = (w ≡ d) × Doubling (d * 2) ws

-- From attempt `first` on, m attempts failed for infrastructure, and no wait after them was cut short.
abbrev pub Failures : Action → ℕ → ℕ → Type 0
Failures a first zero = Unit
Failures a first (suc m) =
    (is_transient (a.execute first) ≡ true) × (a.cancelled first ≡ false) × Failures a (suc first) m

-- The ways in which attempt k, the m-th after the first, can be the last one of at most n.
abbrev pub Settles : Action → ActionResult → ℕ → ℕ → ℕ → Ran → Type 0
Settles a r n m k ran =
    ((ran.answer ≡ conclude r (a.execute k))
      × ((is_transient (a.execute k) ≡ false) ⊎ (suc m ≡ n))
      × (length ran.waits ≡ m))
    ⊎ ((ran.answer ≡ cut_short r)
        × (is_transient (a.execute k) ≡ true)
        × (a.cancelled k ≡ true)
        × (length ran.waits ≡ suc m))

abbrev pub LastOf : Action → ActionResult → ℕ → ℕ → ℕ → ℕ → Ran → Type 0
LastOf a r first n m k ran =
    (k ≡ first + m) × (m < n) × (ran.attempts ≡ k) × Failures a first m × Settles a r n m k ran

module _ (a : Action) (r : ActionResult) where
  abbrev Ends : ℕ → ℕ → ℕ → Ran → Type 0
  Ends first n delay ran =
      ((m : ℕ) × ((k : ℕ) × LastOf a r first n m k ran)) × Doubling delay ran.waits

  Settles-later :
      (n m k delay : ℕ) (rest : Ran)
      → Settles a r n m k rest
      → Settles a r (suc n) (suc m) k (record rest { waits = delay ∷ rest.waits })
  Settles-later n m k delay rest (inl (x, inl y, z)) = inl (x, inl y, omega (arith, z))
  Settles-later n m k delay rest (inl (x, inr y, z)) =
      inl (x, inr (omega (arith, y)), omega (arith, z))
  Settles-later n m k delay rest (inr (x, y, z, w)) = inr (x, y, z, omega (arith, w))

  attempt_from-Ends :
      (left first delay : ℕ) → Ends first (suc left) delay (attempt_from a r left first delay)
  unfolding attempt_from
  attempt_from-Ends zero first delay =
      ((0, (first, (omega arith, omega arith, refl, tt, inl (refl, inr refl, refl)))), tt)
  attempt_from-Ends (suc left) first delay = elim (Bool-cases (is_transient (a.execute first))) [
    | inr t ↦ rw t ((0, (first, (omega arith, omega arith, refl, tt, inl (refl, inl t, refl)))), tt)
    | inl t ↦ elim (Bool-cases (a.cancelled first)) [
      | inl c ↦
          rw (t, c)
            ((0, (first, (omega arith, omega arith, refl, tt, inr (refl, t, c, refl)))), (refl, tt))
      | inr c ↦
          let rest = attempt_from a r left (suc first) (delay * 2) in
          let ((m, (k, (at, below, count, before, end))), doubling) =
            attempt_from-Ends left (suc first) (delay * 2) in
          rw (t, c)
            (
              (
                suc m,
                (
                  k,
                  (
                    omega (arith, at),
                    omega (arith, below),
                    count,
                    (t, c, before),
                    Settles-later (suc left) m k delay rest end,
                  ),
                ),
              ),
              (refl, doubling),
            )
    ]
  ]

-- A call whose Action is found and whose arguments are valid is executed at least once and at most as
-- often as the configuration says, once where that is not positive. All executions but the last failed
-- for infrastructure. The call ends with what the last one gave, which is not such a failure unless no
-- attempt is left; or the context ended in the wait after such a failure, and the call fails. Between two
-- executions there is one wait, the first as long as configured and each later one twice as long.
pub execute_one-LastOf :
    (registry : ToolCall → Option Action) (cfg : ActionRetryConfig) (call : ToolCall) (a : Action)
    → registry call ≡ some a
    → a.validate call.arguments ≡ none
    → ((m : ℕ) × ((k : ℕ) × LastOf a
            (described a call)
            1
            (suc (retries cfg))
            m
            k
            (execute_one registry cfg call)))
      × Doubling (pos_part cfg.base_delay) (execute_one registry cfg call).waits
unfolding execute_one
execute_one-LastOf registry cfg call a found valid =
    rw (found, valid, execute_one)
      (attempt_from-Ends a (described a call) (retries cfg) 1 (pos_part cfg.base_delay))
