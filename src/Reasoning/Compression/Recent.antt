-- ===== src/Reasoning/Compression/Recent.antt =====
-- Which iterations compression leaves alone in the loop
-- (internal/implementation/orchestrator/reasoning_loop.go and context_compression.go).
use eywa.Prelude.{
  ℕ, ◌-◌, ◌≤◌, ◌<◌, ◌≡◌, refl, ap, ◌⊎◌, inl, inr, Option, none, some, List, [], ◌∷◌, ◌++◌, length,
  take, drop, length-append, String, leb, is_empty, Bool-cases, arith,
}
use eywa.Chunking.Windows.{trim_space}
use eywa.Entities.Policies.{CompressionPolicy}
use eywa.Reasoning.Oracle.{OracleMessage, OracleUsage}
use eywa.Reasoning.Compression.{
  Working, context_chars, render_messages_for_ledger, get_elem?, ledger, kept_iterations, collapse,
  compress_at, maybe_compress, end_iteration,
}
use eywa.Reasoning.Compression.Laws.{slice-inside}

get_elem?-last : (bs : List ℕ) (m : ℕ) → get_elem? (bs ++ m ∷ []) (length bs) ≡ some m
get_elem?-last [] m = refl
get_elem?-last (b ∷ bs) m = get_elem?-last bs m

drop-all : (ms : List OracleMessage) → drop (length ms) ms ≡ []
drop-all [] = refl
drop-all (m ∷ ms) = drop-all ms

-- The messages are as they were, or the pinned prefix and one ledger.
abbrev pub AllOrPrefix : ℕ → Working → Working → Type 0
AllOrPrefix offset w r =
    (r.messages ≡ w.messages)
    ⊎ ((summary : String) × (r.messages ≡ take offset w.messages ++ ledger summary ∷ []))

module _ (generate_response : String → Option (String × OracleUsage)) where
  abbrev Ends : ℕ → Working → Option Working → Type 0
  Ends offset w o = (r : Working) × ((o ≡ some r) × AllOrPrefix offset w r)

  collapse-AllOrPrefix :
      (offset : ℕ) (w : Working) (answer : Option (String × OracleUsage))
      → AllOrPrefix offset w (collapse generate_response offset (length w.messages) w answer)
  unfolding collapse
  collapse-AllOrPrefix offset w none = inl refl
  collapse-AllOrPrefix offset w (some (summary, usage)) =
      elim (Bool-cases (is_empty (trim_space summary))) [
        | inl e ↦ rw e (inl refl)
        | inr e ↦ rw e (
            inr (
              summary,
              ap (λ recent. take offset w.messages ++ ledger summary ∷ recent)
                  (drop-all w.messages),
            ))
      ]

  compress_at-end :
      (offset : ℕ) (w : Working)
      → Ends offset w (compress_at generate_response offset (length w.messages) w)
  unfolding compress_at
  compress_at-end offset w = elim (Bool-cases (leb (length w.messages) offset)) [
    | inl e ↦ rw e (w, (refl, inl refl))
    | inr e ↦
        let lt : offset < length w.messages = ground (arith, e) in
        let span = take (length w.messages - offset) (drop offset w.messages) in
        let answer = generate_response (render_messages_for_ledger span) in
        rw
          (e, slice-inside generate_response offset (length w.messages) w.messages lt (omega arith))
          (
            collapse generate_response offset (length w.messages) w answer,
            (refl, collapse-AllOrPrefix offset w answer),
          )
  ]

  -- With KeepRecent at most 1, the end of an iteration returns a context that is either as it was, or the
  -- pinned prefix and one ledger: the iteration that has just ended is then not kept.
  pub end_iteration-keeps_none :
      (policy : CompressionPolicy) (offset : ℕ) (w : Working)
      → policy.keep_recent ≤ 1
      → (r : Working) × ((end_iteration generate_response policy offset w ≡ some r)
          × AllOrPrefix offset w r)
  unfolding end_iteration maybe_compress kept_iterations
  end_iteration-keeps_none policy offset w h =
      let noted : Working = record w { boundaries = w.boundaries ++ length w.messages ∷ [] } in
      let one : kept_iterations policy ≡ 1 = ground (arith, h) in
      let before : length noted.boundaries - 1 ≡ length w.boundaries =
        omega (arith, length-append w.boundaries (length w.messages ∷ [])) in
      elim (Bool-cases (leb (context_chars w.messages) policy.max_context_chars)) [
        | inl e ↦ rw e (noted, (refl, inl refl))
        | inr e ↦ elim (Bool-cases (leb (length noted.boundaries) 1)) [
          | inl l ↦ rw (e, one, l) (noted, (refl, inl refl))
          | inr l ↦
              rw (e, one, l, before, get_elem?-last w.boundaries (length w.messages))
                (compress_at-end offset noted)
        ]
      ]
