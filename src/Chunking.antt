-- ===== src/Chunking.antt =====
-- The merge of atoms into chunks (internal/helpers/chunking/chunking.go). Atoms are the non-empty pieces
-- that splitToAtoms makes (Windows.antt); a text is measured in characters, Go's runes.
pub mod Bounds
pub mod Recursive
pub mod Windows
use eywa.Prelude.{
  ℕ, zero, suc, ◌+◌, ◌-◌, Bool, true, false, not, ◌&&◌, List, [], ◌∷◌, ◌++◌, String, concat, ltb,
  length, if◌then◌else◌,
}

-- utf8.RuneCountInString
unfoldable pub runes : String → ℕ
runes String.[] = 0
runes (String.◌∷◌ c s) = suc (runes s)

-- strings.Join(texts, " ")
unfoldable pub join_spaced : List String → String
join_spaced [] = ""
join_spaced (t ∷ ts) = elim ts [ [] ↦ t | t' ∷ ts' ↦ concat t (concat " " (join_spaced ts)) ]

-- The chunk of the current atoms, if there are any.
unfoldable pub flush : List String → List String
unfolding join_spaced
flush [] = []
flush (a ∷ as') = join_spaced (a ∷ as') ∷ []

-- The inner loop: atoms leave at the front until at most `overlap` runes are left.
unfoldable pub trim_front : ℕ → List String → ℕ → List String × ℕ
trim_front overlap [] n = ([], n)
trim_front overlap (a ∷ cur) n =
    let rest = trim_front overlap cur (n - runes a) in if ltb overlap n then rest else (a ∷ cur, n)

abbrev is_nil : List String → Bool
is_nil [] = true
is_nil (a ∷ as') = false

abbrev pub overflows : ℕ → String → List String → ℕ → Bool
overflows size a cur n = ltb size (n + runes a + length cur) && not (is_nil cur)

-- The atoms that the next one joins.
unfoldable pub carried : ℕ → ℕ → String → List String → ℕ → List String × ℕ
unfolding trim_front runes
carried size overlap a cur n = if overflows size a cur n then trim_front overlap cur n else (cur, n)

-- The loop over the atoms, with the current atoms and their length.
unfoldable pub merge_from : ℕ → ℕ → List String → List String → ℕ → List String
unfolding flush carried runes
merge_from size overlap [] cur n = flush cur
merge_from size overlap (a ∷ atoms) cur n =
    let kept = carried size overlap a cur n in
    let rest = merge_from size overlap atoms (kept.0 ++ a ∷ []) (kept.1 + runes a) in
    if overflows size a cur n then flush cur ++ rest else rest

unfoldable pub merge_atoms : List String → ℕ → ℕ → List String
unfolding merge_from
merge_atoms atoms size overlap = merge_from size overlap atoms [] 0
