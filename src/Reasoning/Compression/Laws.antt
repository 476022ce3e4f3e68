-- ===== src/Reasoning/Compression/Laws.antt =====
-- What compression keeps of a working context
-- (internal/implementation/orchestrator/context_compression.go).
use eywa.Prelude.{
  ℕ, zero, suc, ◌-◌, ◌≤◌, ◌<◌, ◌≡◌, refl, ◌⊎◌, inl, inr, false, Option, none, some, List, [], ◌∷◌,
  ◌++◌, length, take, drop, length-append, length-take, length-drop, All, String, leb, is_empty,
  Bool-cases, arith,
}
use eywa.Chunking.Windows.{trim_space}
use eywa.Entities.Policies.{CompressionPolicy}
use eywa.Reasoning.Oracle.{OracleMessage, OracleUsage}
use eywa.Reasoning.Compression.{
  Working, context_chars, render_messages_for_ledger, get_elem?, slice, ledger, kept_iterations,
  collapse, compress_at, maybe_compress,
}

-- The pinned prefix and the iterations end inside the context.
abbrev pub WellFormed : ℕ → Working → Type 0
WellFormed offset w = (offset ≤ length w.messages) × All (λ b. b ≤ length w.messages) w.boundaries

-- A span after the prefix has become one ledger.
abbrev pub Collapsed : ℕ → Working → Working → Type 0
Collapsed offset w r =
    (start : ℕ) × ((summary : String) × ((offset < start)
        × ((start ≤ length w.messages)
            × ((is_empty (trim_space summary) ≡ false)
                × (r.messages
                    ≡ take offset w.messages ++ ledger summary ∷ drop start w.messages)))))

abbrev pub Kept : ℕ → Working → Working → Type 0
Kept offset w r =
    WellFormed offset r
    × ((length r.messages ≤ length w.messages) × ((r ≡ w) ⊎ Collapsed offset w r))

get_elem?-bound :
    (m : ℕ) (bs : List ℕ) (n : ℕ)
    → n < length bs
    → All (λ b. b ≤ m) bs
    → (b : ℕ) × ((get_elem? bs n ≡ some b) × (b ≤ m))
get_elem?-bound m [] n h hs = absurd (omega (arith, h))
get_elem?-bound m (b ∷ bs) zero h hs = (b, (refl, hs.0))
get_elem?-bound m (b ∷ bs) (suc n) h hs = get_elem?-bound m bs n (omega (arith, h)) hs.1

pub unchanged : (offset : ℕ) (w : Working) → WellFormed offset w → Kept offset w w
unchanged offset w h = (h, (omega arith, inl refl))

module _ (generate_response : String → Option (String × OracleUsage)) where
  collapse-Kept :
      (offset start : ℕ) (w : Working) (answer : Option (String × OracleUsage))
      → offset < start
      → start ≤ length w.messages
      → WellFormed offset w
      → Kept offset w (collapse generate_response offset start w answer)
  unfolding collapse
  collapse-Kept offset start w none lt le h = unchanged offset w h
  collapse-Kept offset start w (some (summary, usage)) lt le h =
      elim (Bool-cases (is_empty (trim_space summary))) [
        | inl e ↦ rw e (unchanged offset w h)
        | inr e ↦
            let size =
              length-append (take offset w.messages) (ledger summary ∷ drop start w.messages) in
            let pinned = length-take offset w.messages in
            let recent = length-drop start w.messages in
            rw e (
              (omega (arith, size, pinned, recent, h.0), (omega arith, tt)),
              (
                omega (arith, size, pinned, recent, h.0, lt, le),
                inr (start, (summary, (lt, (le, (e, refl))))),
              ),
            )
      ]

  pub slice-inside :
      (offset start : ℕ) (ms : List OracleMessage)
      → offset < start
      → start ≤ length ms
      → slice offset start ms ≡ some (take (start - offset) (drop offset ms))
  unfolding slice
  slice-inside offset start ms lt le = ground (arith, lt, le)

  abbrev Ends : ℕ → Working → Option Working → Type 0
  Ends offset w o = (r : Working) × ((o ≡ some r) × Kept offset w r)

  compress_at-Ends :
      (offset start : ℕ) (w : Working)
      → start ≤ length w.messages
      → WellFormed offset w
      → Ends offset w (compress_at generate_response offset start w)
  unfolding compress_at
  compress_at-Ends offset start w le h = elim (Bool-cases (leb start offset)) [
    | inl e ↦ rw e (w, (refl, unchanged offset w h))
    | inr e ↦
        let lt : offset < start = ground (arith, e) in
        let span = take (start - offset) (drop offset w.messages) in
        let answer = generate_response (render_messages_for_ledger span) in
        rw (e, slice-inside offset start w.messages lt le)
          (
            collapse generate_response offset start w answer,
            (refl, collapse-Kept offset start w answer lt le h),
          )
  ]

  kept_iterations_pos : (policy : CompressionPolicy) → 0 < kept_iterations policy
  unfolding kept_iterations
  kept_iterations_pos policy = ground arith

  -- Compression of a working context whose prefix and iterations end inside it does not panic and keeps
  -- that so. The context gets no longer: it is unchanged, or what stands after the pinned prefix and before
  -- a later start has become one ledger with a summary that is not blank, and the rest is as it was.
  pub maybe_compress-keeps :
      (policy : CompressionPolicy) (offset : ℕ) (w : Working)
      → WellFormed offset w
      → (r : Working) × ((maybe_compress generate_response policy offset w ≡ some r)
          × Kept offset w r)
  unfolding maybe_compress
  maybe_compress-keeps policy offset w h =
      let keep = kept_iterations policy in
      elim (Bool-cases (leb (context_chars w.messages) policy.max_context_chars)) [
        | inl e ↦ rw e (w, (refl, unchanged offset w h))
        | inr e ↦ elim (Bool-cases (leb (length w.boundaries) keep)) [
          | inl l ↦ rw (e, l) (w, (refl, unchanged offset w h))
          | inr l ↦
              let inside : length w.boundaries - keep < length w.boundaries =
                ground (arith, l, kept_iterations_pos policy) in
              let found =
                get_elem?-bound (length w.messages) w.boundaries (length w.boundaries - keep) inside
                  h.1 in
              rw (e, l, found.1.0) (compress_at-Ends offset found.0 w found.1.1 h)
        ]
      ]
