-- ===== src/Chunking/Recursive.antt =====
-- The chunks of a whole text (Recursive of internal/helpers/chunking/chunking.go).
use mathlib.Core.Bool.{true≢false}
use eywa.Prelude.{
  ℕ, zero, suc, ◌+◌, ◌-◌, ◌*◌, ◌≤◌, ◌<◌, ◌≡◌, refl, ap, false, ◌||◌, List, [], ◌∷◌, ◌++◌, String,
  leb, All, All-append, Option, some, Bool-cases, inl, inr, if◌then◌else◌, is_empty, arith,
}
use eywa.Chunking.{runes, merge_atoms}
use eywa.Chunking.Bounds.{merge_atoms-bound}
use eywa.Chunking.Windows.{
  trim_left, trim_right, trim_space, before, after, keep, and_then, hard_from, hard_split,
  split_from, both, each_part, split_to_atoms, separators, fitting_overlap, merged, recursive,
}

runes-trim_left : (s : String) → runes (trim_left s) ≤ runes s
unfolding trim_left runes
runes-trim_left String.[] = omega arith
runes-trim_left (String.◌∷◌ c s) = ground (arith, runes-trim_left s)

runes-trim_right : (s : String) → runes (trim_right s) ≤ runes s
unfolding trim_right runes
runes-trim_right String.[] = omega arith
runes-trim_right (String.◌∷◌ c s) = ground (arith, runes-trim_right s)

runes-trim_space : (s : String) → runes (trim_space s) ≤ runes s
unfolding trim_space
runes-trim_space s = omega (arith, runes-trim_left s, runes-trim_right (trim_left s))

pub runes-before : (n : ℕ) (s : String) → runes (before n s) ≤ n
unfolding before runes
runes-before n String.[] = omega arith
runes-before zero (String.◌∷◌ c s) = omega arith
runes-before (suc n) (String.◌∷◌ c s) = omega (arith, runes-before n s)

pub runes-after : (n : ℕ) (s : String) → runes (after n s) ≡ runes s - n
unfolding after runes
runes-after n String.[] = omega arith
runes-after zero (String.◌∷◌ c s) = omega arith
runes-after (suc n) (String.◌∷◌ c s) = omega (arith, runes-after n s)

-- An atom has from 1 to `size` runes.
abbrev Atom : ℕ → String → Type 0
Atom size w = (0 < runes w) × (runes w ≤ size)

abbrev Found : ℕ → Option (List String) → Type 0
Found size o = (ws : List String) × ((o ≡ some ws) × All (Atom size) ws)

runes_pos : (s : String) → is_empty s ≡ false → 0 < runes s
unfolding runes
runes_pos String.[] h = absurd (true≢false h)
runes_pos (String.◌∷◌ c s) h = omega arith

keep-Atom :
    (size : ℕ) (w : String) (ws : List String)
    → runes w ≤ size
    → All (Atom size) ws
    → All (Atom size) (keep w ws)
unfolding keep runes
keep-Atom size String.[] ws h hs = hs
keep-Atom size (String.◌∷◌ c s) ws h hs = ((omega arith, h), hs)

and_then-Found :
    (size : ℕ) (ps : List String) (o : Option (List String))
    → All (Atom size) ps
    → Found size o
    → Found size (and_then ps o)
and_then-Found size ps o h f =
    (ps ++ f.0, (ap (and_then ps) f.1.0, All-append (Atom size) ps f.0 h f.1.1))

both-Found :
    (size : ℕ) (o p : Option (List String)) → Found size o → Found size p → Found size (both o p)
both-Found size o p f g = rw f.1.0 (and_then-Found size f.0 p f.1.1 g)

window-Atom : (size : ℕ) (rest : String) → All (Atom size) (keep (trim_space (before size rest)) [])
window-Atom size rest =
    keep-Atom size (trim_space (before size rest)) []
      (omega (arith, runes-trim_space (before size rest), runes-before size rest)) tt

module _ (size step : ℕ) (size_pos : 0 < size) (step_pos : 0 < step) where
  -- A window moves by at least one rune, so one more than the runes left is enough fuel.
  hard_from-Found :
      (fuel : ℕ) (rest : String) → runes rest < fuel → Found size (hard_from fuel rest size step)
  unfolding hard_from
  hard_from-Found zero rest h = absurd (omega (arith, h))
  hard_from-Found (suc fuel) rest h = elim (Bool-cases (leb (runes rest) size)) [
    | inl e ↦ rw e (keep (trim_space (before size rest)) [], (refl, window-Atom size rest))
    | inr e ↦
        let shorter : runes (after step rest) < fuel = ground (arith, runes-after step rest) in
        rw e (
          and_then-Found size (keep (trim_space (before size rest)) [])
            (hard_from fuel (after step rest) size step) (window-Atom size rest)
            (hard_from-Found fuel (after step rest) shorter))
  ]

hard_split-Found :
    (text : String) (size overlap : ℕ) → 0 < size → Found size (hard_split text size overlap)
unfolding hard_split
hard_split-Found text size overlap h =
    hard_from-Found size (if leb size overlap then size else size - overlap) h (ground (arith, h))
      (suc (runes text)) text (omega arith)

module _ (size : ℕ) where
  part-Found :
      (part : String) (deeper rest : Option (List String))
      → Found size deeper
      → Found size rest
      → Found size (
          if is_empty (trim_space part)
          then rest
          else if leb (runes part) size
          then and_then (trim_space part ∷ []) rest
          else both deeper rest)
  part-Found part deeper rest f g = elim (Bool-cases (is_empty (trim_space part))) [
    | inl e ↦ rw e g
    | inr e ↦ elim (Bool-cases (leb (runes part) size)) [
      | inl l ↦
          let short : runes part ≤ size = ground (arith, l) in
          let atom : Atom size (trim_space part) =
            (runes_pos (trim_space part) e, omega (arith, short, runes-trim_space part)) in
          rw (e, l) (and_then-Found size (trim_space part ∷ []) rest (atom, tt) g)
      | inr l ↦ rw (e, l) (both-Found size deeper rest f g)
    ]
  ]

  each_part-Found :
      (deeper : String → Option (List String))
      → ((part : String) → Found size (deeper part))
      → (parts : List String) → Found size (each_part size deeper parts)
  unfolding each_part
  each_part-Found deeper f [] = ([], (refl, tt))
  each_part-Found deeper f (part ∷ parts) =
      part-Found part (deeper part) (each_part size deeper parts) (f part)
        (each_part-Found deeper f parts)

module _ (size overlap : ℕ) (size_pos : 0 < size) where
  split_to_atoms-Found :
      (seps : List String) (text : String) → Found size (split_to_atoms text size overlap seps)
  unfolding split_to_atoms
  split_to_atoms-Found [] text = hard_split-Found text size overlap size_pos
  split_to_atoms-Found (sep ∷ seps) text = elim (Bool-cases (is_empty sep)) [
    | inl e ↦ rw e (hard_split-Found text size overlap size_pos)
    | inr e ↦ rw e (
        each_part-Found size (λ part. split_to_atoms part size overlap seps)
          (split_to_atoms-Found seps) (split_from sep 0 text))
  ]

fitting_overlap-le : (size overlap : ℕ) → fitting_overlap size overlap ≤ overlap
unfolding fitting_overlap
fitting_overlap-le size overlap = elim (Bool-cases (leb size overlap)) [
  | inl e ↦ let le : size ≤ overlap = ground (arith, e) in rw e (omega (arith, le))
  | inr e ↦ rw e (omega arith)
]

All-pair :
    (size : ℕ) (ws : List String)
    → All (Atom size) ws
    → All (λ w. 0 < runes w) ws × All (λ w. runes w ≤ size) ws
All-pair size [] h = (tt, tt)
All-pair size (w ∷ ws) h = let rest = All-pair size ws h.1 in ((h.0.0, rest.0), (h.0.1, rest.1))

All-widen :
    (m n : ℕ) → m ≤ n → (ws : List String) → All (λ w. runes w ≤ m) ws → All (λ w. runes w ≤ n) ws
All-widen m n le [] h = tt
All-widen m n le (w ∷ ws) h = (omega (arith, le, h.0), All-widen m n le ws h.1)

abbrev Chunked : ℕ → Option (List String) → Type 0
Chunked bound o = (ws : List String) × ((o ≡ some ws) × All (λ w. runes w ≤ bound) ws)

merged-Chunked :
    (size overlap o : ℕ) (found : Option (List String))
    → o ≤ overlap
    → Found size found
    → Chunked (size + 2 * overlap) (merged size o found)
merged-Chunked size overlap o found le f =
    let h = All-pair size f.0 f.1.1 in
    (
      merge_atoms f.0 size o,
      (
        ap (merged size o) f.1.0,
        All-widen (size + 2 * o) (size + 2 * overlap) (omega (arith, le)) (merge_atoms f.0 size o)
            (merge_atoms-bound f.0 size o h.0 h.1),
      ),
    )

whole-Chunked :
    (t : String) (size overlap : ℕ) (found : Option (List String))
    → 0 < size
    → Chunked (size + 2 * overlap) found
    → Chunked (size + 2 * overlap) (
        if is_empty t
        then some []
        else if leb size 0 || leb (runes t) size
        then some (t ∷ [])
        else found)
whole-Chunked t size overlap found h f = elim (Bool-cases (is_empty t)) [
  | inl e ↦ rw e ([], (refl, tt))
  | inr e ↦ elim (Bool-cases (leb size 0 || leb (runes t) size)) [
    | inl l ↦
        let short : runes t ≤ size + 2 * overlap = ground (arith, h, l) in
        rw (e, l) (t ∷ [], (refl, (short, tt)))
    | inr l ↦ rw (e, l) f
  ]
]

-- For a positive size the split of any text ends, also where no separator reduces it, and its chunks
-- have at most `size + 2 * overlap` runes each.
pub recursive-bound :
    (text : String) (size overlap : ℕ)
    → 0 < size
    → (chunks : List String) × ((recursive text size overlap ≡ some chunks)
        × All (λ chunk. runes chunk ≤ size + 2 * overlap) chunks)
unfolding recursive
recursive-bound text size overlap h =
    let o = fitting_overlap size overlap in
    whole-Chunked (trim_space text) size overlap
      (merged size o (split_to_atoms (trim_space text) size o separators)) h
      (merged-Chunked size overlap o (split_to_atoms (trim_space text) size o separators)
        (fitting_overlap-le size overlap)
        (split_to_atoms-Found size o h separators (trim_space text)))
