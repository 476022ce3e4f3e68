-- ===== src/Chunking/Bounds.antt =====
-- How long a chunk can get (internal/helpers/chunking/chunking.go).
use text.Mathlib.TextLemmas.{cons-append, nil-append}
use eywa.Prelude.{
  ℕ, suc, ◌+◌, ◌-◌, ◌*◌, ◌≤◌, ◌<◌, ◌≡◌, refl, ◌∙◌, ap, Bool, true, false, List, [], ◌∷◌, ◌++◌,
  String, concat, ltb, length, length-append, All, All-append, Bool-cases, inl, inr, if◌then◌else◌,
  arith,
}
use eywa.Chunking.{
  runes, join_spaced, flush, trim_front, overflows, carried, merge_from, merge_atoms,
}

pub runes-concat : (s t : String) → runes (concat s t) ≡ runes s + runes t
unfolding runes
runes-concat String.[] t = ap runes (nil-append t) ∙ omega arith
runes-concat (String.◌∷◌ c s) t = ap runes (cons-append c s t) ∙ omega (arith, runes-concat s t)

abbrev total : List String → ℕ
total [] = 0
total (a ∷ cur) = runes a + total cur

runes-join_spaced :
    (a : String) (cur : List String)
    → suc (runes (join_spaced (a ∷ cur))) ≡ total (a ∷ cur) + length (a ∷ cur)
unfolding join_spaced runes
runes-join_spaced a [] = omega arith
runes-join_spaced a (b ∷ cur) = omega (
  arith,
  runes-concat a (concat " " (join_spaced (b ∷ cur))),
  runes-concat " " (join_spaced (b ∷ cur)),
  runes-join_spaced b cur,
)

abbrev Positive : List String → Type 0
Positive = All (λ a. 0 < runes a)

length-total : (cur : List String) → Positive cur → length cur ≤ total cur
length-total [] h = omega arith
length-total (a ∷ cur) h = omega (arith, h.0, length-total cur h.1)

total-append : (cur : List String) (a : String) → total (cur ++ a ∷ []) ≡ total cur + runes a
total-append [] a = omega arith
total-append (b ∷ cur) a = omega (arith, total-append cur a)

total-trim_front :
    (overlap : ℕ) (cur : List String) (n : ℕ)
    → n ≡ total cur
    → ((trim_front overlap cur n).1 ≡ total (trim_front overlap cur n).0)
      × ((trim_front overlap cur n).1 ≤ overlap)
unfolding trim_front
total-trim_front overlap [] n h = (h, omega (arith, h))
total-trim_front overlap (a ∷ cur) n h =
    ground (arith, h, total-trim_front overlap cur (n - runes a) (omega (arith, h)))

trim_front-Positive :
    (overlap : ℕ) (cur : List String) (n : ℕ) → Positive cur → Positive (trim_front overlap cur n).0
unfolding trim_front
trim_front-Positive overlap [] n h = h
trim_front-Positive overlap (a ∷ cur) n h = elim (Bool-cases (ltb overlap n)) [
  | inl e ↦ rw e (trim_front-Positive overlap cur (n - runes a) h.1)
  | inr e ↦ rw e h
]

module _ (size overlap : ℕ) where
  -- What the loop keeps of the current atoms and their length.
  unfoldable Current : List String → ℕ → Type 0
  Current cur n = (n ≡ total cur) × Positive cur × (n + length cur ≤ suc (size + 2 * overlap))

  abbrev Small : String → Type 0
  Small chunk = runes chunk ≤ size + 2 * overlap

  flush-Small : (cur : List String) (n : ℕ) → Current cur n → All Small (flush cur)
  unfolding flush Current
  flush-Small [] n h = tt
  flush-Small (a ∷ cur) n h = (omega (arith, h.0, h.2, runes-join_spaced a cur), tt)

  carried-Current :
      (a : String) (cur : List String) (n : ℕ)
      → 0 < runes a
      → runes a ≤ size
      → Current cur n
      → Current
          ((carried size overlap a cur n).0 ++ a ∷ [])
          ((carried size overlap a cur n).1 + runes a)
  unfolding carried Current
  carried-Current a cur n p s h = elim (Bool-cases (overflows size a cur n)) [
    | inl e ↦
        let t = total-trim_front overlap cur n h.0 in
        let kept = (trim_front overlap cur n).0 in
        let q = trim_front-Positive overlap cur n h.1 in
        rw e (
          omega (arith, t.0, total-append kept a),
          All-append (λ b. 0 < runes b) kept (a ∷ []) q (p, tt),
          omega (arith, t.0, t.1, s, length-append kept (a ∷ []), length-total kept q),
        )
    | inr e ↦ rw e (
      omega (arith, h.0, total-append cur a),
      All-append (λ b. 0 < runes b) cur (a ∷ []) h.1 (p, tt),
      fits cur n s (h.0) e,
    )
  ]
    where
      fits :
          (cur : List String) (n : ℕ)
          → runes a ≤ size
          → n ≡ total cur
          → overflows size a cur n ≡ false
          → n + runes a + length (cur ++ a ∷ []) ≤ suc (size + 2 * overlap)
      fits [] n s t e = omega (arith, s, t)
      fits (b ∷ cur) n s t e = ground (arith, length-append (b ∷ cur) (a ∷ []), e)

  All-flushed :
      (b : Bool) (out rest : List String)
      → All Small out
      → All Small rest
      → All Small (if b then out ++ rest else rest)
  All-flushed true out rest h k = All-append Small out rest h k
  All-flushed false out rest h k = k

  merge_from-Small :
      (atoms cur : List String) (n : ℕ)
      → Positive atoms
      → All (λ a. runes a ≤ size) atoms
      → Current cur n
      → All Small (merge_from size overlap atoms cur n)
  unfolding merge_from
  merge_from-Small [] cur n p s h = flush-Small cur n h
  merge_from-Small (a ∷ atoms) cur n p s h =
      let kept = carried size overlap a cur n in
      let rest =
        merge_from-Small atoms (kept.0 ++ a ∷ []) (kept.1 + runes a) p.1 s.1
          (carried-Current a cur n p.0 s.0 h) in
      All-flushed (overflows size a cur n) (flush cur)
        (merge_from size overlap atoms (kept.0 ++ a ∷ []) (kept.1 + runes a)) (flush-Small cur n h)
        rest

-- Chunks made of non-empty atoms of at most `size` runes each have at most `size + 2 * overlap` runes;
-- without overlap that is `size`.
pub merge_atoms-bound :
    (atoms : List String) (size overlap : ℕ)
    → All (λ a. 0 < runes a) atoms
    → All (λ a. runes a ≤ size) atoms
    → All (λ chunk. runes chunk ≤ size + 2 * overlap) (merge_atoms atoms size overlap)
unfolding merge_atoms Current
merge_atoms-bound atoms size overlap p s =
    merge_from-Small size overlap atoms [] 0 p s (refl, tt, omega arith)
