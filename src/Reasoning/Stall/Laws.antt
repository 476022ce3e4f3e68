-- ===== src/Reasoning/Stall/Laws.antt =====
-- How long the reasoning loop can go on before it is called stalled
-- (internal/implementation/orchestrator/progress_stall.go).
use native.Mathlib.Nat.{suc-mul}
use eywa.Prelude.{
  ℕ, zero, suc, ◌+◌, ◌*◌, ◌≤◌, ◌<◌, ◌≡◌, refl, subst, ◌⊎◌, inl, inr, Bool, true, false, List, [],
  ◌∷◌, String, contains, length, ltb, leb, ltb→lt, eq_iff, All, Bool-cases, if◌then◌else◌, arith,
}
use eywa.Prelude.Int.{ℤ, le_zero, pos_part}
use eywa.Reasoning.Stall.{StallTracker, new_stall_tracker, note_calls, observe, survives}

-- How many of the signatures have not been seen.
abbrev pub fresh : List String → List String → ℕ
fresh [] seen = 0
fresh (u ∷ us) seen = (if contains seen u then 0 else 1) + fresh us seen

fresh-cons-le : (us seen : List String) (c : String) → fresh us (c ∷ seen) ≤ fresh us seen
fresh-cons-le [] seen c = omega arith
fresh-cons-le (u ∷ us) seen c = ground (arith, fresh-cons-le us seen c)

fresh-cons-lt :
    (us seen : List String) (c : String)
    → contains us c ≡ true
    → contains seen c ≡ false
    → fresh us (c ∷ seen) < fresh us seen
fresh-cons-lt [] seen c m n = cc m
fresh-cons-lt (u ∷ us) seen c m n =
    ground (arith, fresh-cons-le us seen c, eq_iff u c, eq_iff c u, fresh-cons-lt us seen c)

abbrev pub Among : List String → List String → Type 0
Among us = All (λ c. contains us c ≡ true)

fewer :
    (us sigs seen old : List String)
    → ((note_calls sigs seen).1 ≡ true) × (fresh us (note_calls sigs seen).0 < fresh us seen)
      ⊎ ((note_calls sigs seen).1 ≡ false) × ((note_calls sigs seen).0 ≡ seen)
    → fresh us seen < fresh us old
    → fresh us (note_calls sigs seen).0 < fresh us old
fewer us sigs seen old (inl p) h = omega (arith, p.1)
fewer us sigs seen old (inr p) h = rw (p.1) h

-- A new signature makes fewer fresh ones; otherwise the seen ones stay.
note_calls-progress :
    (us sigs seen : List String)
    → Among us sigs
    → ((note_calls sigs seen).1 ≡ true) × (fresh us (note_calls sigs seen).0 < fresh us seen)
      ⊎ ((note_calls sigs seen).1 ≡ false) × ((note_calls sigs seen).0 ≡ seen)
unfolding note_calls
note_calls-progress us [] seen a = inr (refl, refl)
note_calls-progress us (c ∷ cs) seen a = elim (Bool-cases (contains seen c)) [
  | inl h ↦ rw h (note_calls-progress us cs seen a.1)
  | inr h ↦ rw h (
      inl (
        refl,
        fewer us cs (c ∷ seen) seen (note_calls-progress us cs (c ∷ seen) a.1)
            (fresh-cons-lt us seen c a.0 h),
      ))
]

quota : (k k' w : ℕ) → k' < k → suc k' * w ≤ k * w
quota zero k' w h = elim h [ ]
quota (suc k) k' w h = elim (Bool-cases (ltb k' k)) [
  | inl l ↦ omega (arith, quota k k' w (ltb→lt k' k l), suc-mul k w)
  | inr l ↦ let e : k' ≡ k = ground arith in rw e (omega arith)
]

observe-new :
    (sigs : List String) (s : StallTracker)
    → le_zero s.window ≡ false
    → (note_calls sigs s.seen).1 ≡ true
    → observe sigs s ≡ (false, record s { seen = (note_calls sigs s.seen).0; streak = 0 })
unfolding observe
observe-new sigs s w p = ground (arith, w, p)

observe-old :
    (sigs : List String) (s : StallTracker)
    → le_zero s.window ≡ false
    → (note_calls sigs s.seen).1 ≡ false
    → (note_calls sigs s.seen).0 ≡ s.seen
    → observe sigs s ≡ (leb (pos_part s.window) (suc s.streak), record s { streak = suc s.streak })
unfolding observe
observe-old sigs s w p q = ground (arith, w, p, q)

survives-cons :
    (sigs : List String) (rounds : List (List String)) (s : StallTracker)
    → survives (sigs ∷ rounds) s ≡ true
    → ((observe sigs s).0 ≡ false) × (survives rounds (observe sigs s).1 ≡ true)
unfolding survives
survives-cons sigs rounds s h = ground (arith, h)

survives-cons_at :
    (sigs : List String) (rounds : List (List String)) (s s' : StallTracker) (b : Bool)
    → observe sigs s ≡ (b, s')
    → survives (sigs ∷ rounds) s ≡ true
    → (b ≡ false) × (survives rounds s' ≡ true)
survives-cons_at sigs rounds s s' b e h =
    subst (λ (o : Bool × StallTracker). (o.0 ≡ false) × (survives rounds o.1 ≡ true)) e
      (survives-cons sigs rounds s h)

fresh-nil : (us : List String) → fresh us [] ≡ length us
fresh-nil [] = refl
fresh-nil (u ∷ us) = omega (arith, fresh-nil us)

positive : (z : ℤ) → le_zero z ≡ false → 0 < pos_part z
positive z h = ground arith

survives-bound_from :
    (us : List String) (rounds : List (List String)) (s : StallTracker)
    → All (Among us) rounds
    → le_zero s.window ≡ false
    → s.streak < pos_part s.window
    → survives rounds s ≡ true
    → length rounds + s.streak < suc (fresh us s.seen) * pos_part s.window
survives-bound_from us [] s a w k h =
    omega (arith, k, suc-mul (fresh us s.seen) (pos_part s.window))
survives-bound_from us (sigs ∷ rounds) s a w k h = elim (note_calls-progress us sigs s.seen a.0) [
  | inl p ↦
      let s' : StallTracker = record s { seen = (note_calls sigs s.seen).0; streak = 0 } in
      let n = survives-cons_at sigs rounds s s' false (observe-new sigs s w (p.0)) h in
      omega (
        arith,
        survives-bound_from us rounds s' a.1 w (omega (arith, k)) n.1,
        quota (fresh us s.seen) (fresh us s'.seen) (pos_part s.window) (p.1),
        suc-mul (fresh us s.seen) (pos_part s.window),
        k,
      )
  | inr p ↦
      let s' : StallTracker = record s { streak = suc s.streak } in
      let n =
        survives-cons_at sigs rounds s s' (leb (pos_part s.window) (suc s.streak))
          (observe-old sigs s w (p.0) (p.1)) h in
      omega (arith, survives-bound_from us rounds s' a.1 w (ground (arith, n.0)) n.1)
]

-- Where the tracker has a positive window of w rounds and every call of the turn is one of a list of
-- signatures, the loop is called stalled before it has gone through w rounds for each signature of the
-- list and w more.
pub survives-bound :
    (us : List String) (rounds : List (List String)) (window : ℤ)
    → All (Among us) rounds
    → le_zero window ≡ false
    → survives rounds (new_stall_tracker window) ≡ true
    → length rounds < suc (length us) * pos_part window
unfolding new_stall_tracker
survives-bound us rounds window a w h =
    let from_start : length rounds + 0 < suc (fresh us []) * pos_part window =
      survives-bound_from us rounds (new_stall_tracker window) a w (positive window w) h in
    let counted =
      subst (λ n. length rounds + 0 < suc n * pos_part window) (fresh-nil us) from_start in
    omega (arith, counted)
