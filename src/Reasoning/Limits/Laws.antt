-- ===== src/Reasoning/Limits/Laws.antt =====
-- What is left of a truncated result (internal/implementation/orchestrator/tool_shaping.go).
use eywa.Prelude.{
  ℕ, zero, suc, ◌+◌, ◌-◌, ◌*◌, ◌/◌, ◌≡◌, ◌≤◌, ◌<◌, refl, sym, ap, ◌∙◌, Bool, true, false, ◌&&◌,
  ◌||◌, Option, none, some, String, concat, Bool-cases, inl, inr, arith,
}
use text.Mathlib.TextLemmas.{cons-append, nil-append}
use eywa.Prelude.Int.{ℤ, pos, negsuc, pos_part, le_zero, add, below}
use eywa.Chunking.{runes}
use eywa.Chunking.Windows.{before, after}
use eywa.Chunking.Recursive.{runes-after}
use eywa.Reasoning.Limits.{
  ToolResultLimits, default_split, resolve_head_tail, fits, cut_middle, truncate_tool_result,
}

abbrev pub is_negative : ℤ → Bool
is_negative (pos n) = false
is_negative (negsuc n) = true

before-after : (n : ℕ) (s : String) → concat (before n s) (after n s) ≡ s
unfolding before after
before-after n String.[] = nil-append ""
before-after zero (String.◌∷◌ c s) = nil-append (String.◌∷◌ c s)
before-after (suc n) (String.◌∷◌ c s) =
    cons-append c (before n s) (after n s) ∙ ap (λ t. String.◌∷◌ c t) (before-after n s)

after-after : (m n : ℕ) (s : String) → after m (after n s) ≡ after (n + m) s
unfolding after
after-after m n String.[] = refl
after-after m zero (String.◌∷◌ c s) =
    let left : m ≡ 0 + m = omega arith in ap (λ k. after k (String.◌∷◌ c s)) left
after-after m (suc n) (String.◌∷◌ c s) =
    let next : suc (n + m) ≡ suc n + m = omega arith in
    after-after m n s ∙ ap (λ k. after k (String.◌∷◌ c s)) next

-- A text falls into what stands before m, between m and n, and after n.
three_parts :
    (m n : ℕ) (s : String)
    → m ≤ n
    → concat (before m s) (concat (before (n - m) (after m s)) (after n s)) ≡ s
three_parts m n s le =
    let there : after (n - m) (after m s) ≡ after n s =
      after-after (n - m) m s ∙ ap (λ k. after k s) (omega (arith, le)) in
    ap (λ t. concat (before m s) (concat (before (n - m) (after m s)) t)) (sym there)
    ∙ ap (λ t. concat (before m s) t) (before-after (n - m) (after m s))
    ∙ before-after m s

runes-before-le : (n : ℕ) (s : String) → n ≤ runes s → runes (before n s) ≡ n
unfolding before runes
runes-before-le n String.[] le = omega (arith, le)
runes-before-le zero (String.◌∷◌ c s) le = refl
runes-before-le (suc n) (String.◌∷◌ c s) le = omega (arith, runes-before-le n s (omega (arith, le)))

-- The text falls into a head of h runes, a middle and a tail of t runes; the result has the head and the tail,
-- and between them the notice of the number of runes in the middle.
abbrev pub Cut : (ℕ → String) → String → ℕ → ℕ → String → Type 0
Cut notice content h t result =
    (head : String) × ((middle : String) × ((tail : String) × ((content
            ≡ concat head (concat middle tail))
          × (result ≡ concat head (concat (notice (runes middle)) tail))
          × (runes head ≡ h)
          × (runes tail ≡ t))))

-- What becomes of a text under limits: it stays whole; or it keeps the head and the tail that are configured,
-- where these are no more than the maximum; or, where they are not positive or too much together, 70 and 30
-- percent of the maximum; or, where one of them is negative and the other is positive and not too much, there is
-- a panic.
pub data Truncation (notice : ℕ → String) (content : String) (l : ToolResultLimits)
    : Option String → Type 0 where
  whole : fits l content ≡ true → Truncation notice content l (some content)
  kept :
      {result : String} (h t : ℕ)
      → l.keep_head ≡ pos h
      → l.keep_tail ≡ pos t
      → 0 < h + t
      → h + t ≤ pos_part l.max_chars
      → fits l content ≡ false
      → Cut notice content h t result
      → Truncation notice content l (some result)
  split :
      {result : String}
      → (le_zero l.keep_head && le_zero l.keep_tail
          || below (pos_part l.max_chars) (add l.keep_head l.keep_tail))
        ≡ true
      → fits l content ≡ false
      → Cut notice content
          (pos_part l.max_chars * 70 / 100)
          (pos_part l.max_chars - pos_part l.max_chars * 70 / 100)
          result
      → Truncation notice content l (some result)
  fault :
      (is_negative l.keep_head || is_negative l.keep_tail) ≡ true
      → (le_zero l.keep_head && le_zero l.keep_tail
          || below (pos_part l.max_chars) (add l.keep_head l.keep_tail))
        ≡ false
      → fits l content ≡ false
      → Truncation notice content l none

concat-Cut :
    (notice : ℕ → String) (content : String) (h t : ℕ)
    → h + t < runes content
    → Cut notice content h t (
        concat
          (before h content)
          (concat (notice (runes content - (h + t))) (after (runes content - t) content)))
concat-Cut notice content h t lt = (
  before h content,
  (
    before (runes content - t - h) (after h content),
    (
      after (runes content - t) content,
      (
        sym (three_parts h (runes content - t) content (omega (arith, lt))),
        ap (λ n. concat (before h content) (concat (notice n) (after (runes content - t) content)))
            (omega (
              arith,
              lt,
              runes-after h content,
              runes-before-le (runes content - t - h) (after h content)
                  (omega (arith, lt, runes-after h content)),
            )),
        runes-before-le h content (omega (arith, lt)),
        omega (arith, lt, runes-after (runes content - t) content),
      ),
    ),
  ),
)

kept_or_fault :
    (notice : ℕ → String) (content : String) (l : ToolResultLimits) (head tail : ℤ)
    → l.keep_head ≡ head
    → l.keep_tail ≡ tail
    → (le_zero head && le_zero tail || below (pos_part l.max_chars) (add head tail)) ≡ false
    → fits l content ≡ false
    → Truncation notice content l (cut_middle notice content (head, tail))
kept_or_fault notice content l (pos h) (pos t) eh et b f =
    kept h t eh et (positive h t b) (ground (arith, b)) f
      (concat-Cut notice content h t (ground (arith, b, f)))
  where
    positive :
        (h t : ℕ)
        → (le_zero (pos h) && le_zero (pos t) || below (pos_part l.max_chars) (pos (h + t))) ≡ false
        → 0 < h + t
    positive zero zero b = cc
    positive zero (suc t) b = omega arith
    positive (suc h) t b = omega arith
kept_or_fault notice content l (pos h) (negsuc t) eh et b f =
    fault (rw (eh, et) refl) (rw (eh, et) b) f
kept_or_fault notice content l (negsuc h) (pos t) eh et b f = fault (rw eh refl) (rw (eh, et) b) f
kept_or_fault notice content l (negsuc h) (negsuc t) eh et b f = cc

split-Cut :
    (notice : ℕ → String) (content : String) (l : ToolResultLimits)
    → (le_zero l.keep_head && le_zero l.keep_tail
        || below (pos_part l.max_chars) (add l.keep_head l.keep_tail))
      ≡ true
    → fits l content ≡ false
    → Truncation notice content l (cut_middle notice content (default_split (pos_part l.max_chars)))
split-Cut notice content l b f = split b f (
    concat-Cut notice content (pos_part l.max_chars * 70 / 100)
      (pos_part l.max_chars - pos_part l.max_chars * 70 / 100) (ground (arith, f)))

resolved :
    (notice : ℕ → String) (content : String) (l : ToolResultLimits)
    → fits l content ≡ false
    → Truncation notice content l (cut_middle notice content (resolve_head_tail l))
unfolding resolve_head_tail
resolved notice content l f = elim (Bool-cases (le_zero l.keep_head && le_zero l.keep_tail)) [
  | inl e ↦ rw e (split-Cut notice content l (rw e refl) f)
  | inr e ↦ elim (Bool-cases (below (pos_part l.max_chars) (add l.keep_head l.keep_tail))) [
    | inl o ↦ rw (e, o) (split-Cut notice content l (rw (e, o) refl) f)
    | inr o ↦
        rw (e, o)
          (kept_or_fault notice content l l.keep_head l.keep_tail refl refl (rw (e, o) refl) f)
  ]
]

-- A text that fits, or a limit that is not positive, leaves the text whole. A longer text keeps its first
-- KeepHead and its last KeepTail runes where these are positive together, neither is negative and they are at
-- most the maximum together; where both are zero or less, or too much together, it keeps the first 70 and the
-- last 30 percent of the maximum; between them stands the notice with the exact number of runes left out. In
-- the remaining case, a negative one beside a positive one that do not exceed the maximum together, the
-- truncation panics.
pub truncate_tool_result-Cut :
    (notice : ℕ → String) (content : String) (l : ToolResultLimits)
    → Truncation notice content l (truncate_tool_result notice content l)
unfolding truncate_tool_result
truncate_tool_result-Cut notice content l = elim (Bool-cases (fits l content)) [
  | inl f ↦ rw f (whole f)
  | inr f ↦ rw f (resolved notice content l f)
]
