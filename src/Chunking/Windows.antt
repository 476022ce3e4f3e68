-- ===== src/Chunking/Windows.antt =====
-- The split of a text into atoms and its hard windows (splitToAtoms, hardSplit and Recursive of
-- internal/helpers/chunking/chunking.go), over strings.TrimSpace and strings.Split of Go's library.
use Prim.Native.Char.{Char, code}
use eywa.Prelude.{
  ℕ, zero, suc, ◌-◌, ◌/◌, Bool, true, false, ◌&&◌, ◌||◌, List, [], ◌∷◌, ◌++◌, String, leb, Option,
  none, some, if◌then◌else◌, is_empty,
}
use eywa.Chunking.{runes, merge_atoms}

abbrev one_of : ℕ → List ℕ → Bool
one_of n [] = false
one_of n (m ∷ ms) = leb n m && leb m n || one_of n ms

-- unicode.IsSpace
unfoldable pub is_space : Char → Bool
is_space c =
    leb 9 (code c) && leb (code c) 13
    || leb 8192 (code c) && leb (code c) 8202
    || one_of (code c) (32 ∷ 133 ∷ 160 ∷ 5760 ∷ 8232 ∷ 8233 ∷ 8239 ∷ 8287 ∷ 12288 ∷ [])

unfoldable pub trim_left : String → String
trim_left String.[] = ""
trim_left (String.◌∷◌ c s) = let rest = trim_left s in if is_space c then rest else String.◌∷◌ c s

unfoldable pub trim_right : String → String
trim_right String.[] = ""
trim_right (String.◌∷◌ c s) =
    let rest = trim_right s in if is_empty rest && is_space c then "" else String.◌∷◌ c rest

-- strings.TrimSpace
unfoldable pub trim_space : String → String
unfolding trim_left trim_right
trim_space s = trim_right (trim_left s)

-- runes[:n] and runes[n:]
unfoldable pub before : ℕ → String → String
before n String.[] = ""
before zero (String.◌∷◌ c s) = ""
before (suc n) (String.◌∷◌ c s) = String.◌∷◌ c (before n s)

unfoldable pub after : ℕ → String → String
after n String.[] = ""
after zero (String.◌∷◌ c s) = String.◌∷◌ c s
after (suc n) (String.◌∷◌ c s) = after n s

-- A piece of blanks is left out.
unfoldable pub keep : String → List String → List String
keep piece pieces = if is_empty piece then pieces else piece ∷ pieces

abbrev pub and_then : List String → Option (List String) → Option (List String)
and_then ps none = none
and_then ps (some qs) = some (ps ++ qs)

-- The loop over the windows: `rest` is runes[i:]. Without fuel there is no result.
unfoldable pub hard_from : ℕ → String → ℕ → ℕ → Option (List String)
unfolding trim_space before after keep runes
hard_from zero rest size step = none
hard_from (suc fuel) rest size step =
    let window = keep (trim_space (before size rest)) [] in
    let later = hard_from fuel (after step rest) size step in
    if leb (runes rest) size then some window else and_then window later

-- The step is size - overlap, or size where that is not positive.
unfoldable pub hard_split : String → ℕ → ℕ → Option (List String)
unfolding hard_from runes
hard_split text size overlap =
    hard_from (suc (runes text)) text size (if leb size overlap then size else size - overlap)

unfoldable pub starts_with : String → String → Bool
starts_with String.[] text = true
starts_with (String.◌∷◌ d sep) String.[] = false
starts_with (String.◌∷◌ d sep) (String.◌∷◌ c text) =
    leb (code d) (code c) && leb (code c) (code d) && starts_with sep text

abbrev push : Char → List String → List String
push c [] = String.◌∷◌ c "" ∷ []
push c (p ∷ ps) = String.◌∷◌ c p ∷ ps

-- strings.Split for a separator that is not empty; `skip` runes of the last match are still to be left out.
unfoldable pub split_from : String → ℕ → String → List String
unfolding starts_with runes
split_from sep skip String.[] = "" ∷ []
split_from sep zero (String.◌∷◌ c s) =
    let matched = starts_with sep (String.◌∷◌ c s) in
    let rest = split_from sep (if matched then runes sep - 1 else 0) s in
    if matched then "" ∷ rest else push c rest
split_from sep (suc skip) (String.◌∷◌ c s) = split_from sep skip s

abbrev pub both : Option (List String) → Option (List String) → Option (List String)
both none found = none
both (some ps) found = and_then ps found

-- The loop over the parts of a text; `deeper` splits a part that is still too long.
unfoldable pub each_part : ℕ → (String → Option (List String)) → List String → Option (List String)
unfolding trim_space runes
each_part size deeper [] = some []
each_part size deeper (part ∷ parts) =
    let rest = each_part size deeper parts in
    if is_empty (trim_space part)
    then rest
    else if leb (runes part) size
    then and_then (trim_space part ∷ []) rest
    else both (deeper part) rest

unfoldable pub split_to_atoms : String → ℕ → ℕ → List String → Option (List String)
unfolding hard_split each_part split_from
split_to_atoms text size overlap [] = hard_split text size overlap
split_to_atoms text size overlap (sep ∷ seps) =
    let parts =
      each_part size (λ part. split_to_atoms part size overlap seps) (split_from sep 0 text) in
    if is_empty sep then hard_split text size overlap else parts

abbrev pub separators : List String
separators = "\n\n" ∷ "\n" ∷ ". " ∷ " " ∷ "" ∷ []

-- The overlap that is less than the size.
unfoldable pub fitting_overlap : ℕ → ℕ → ℕ
fitting_overlap size overlap = if leb size overlap then size / 2 else overlap

abbrev pub merged : ℕ → ℕ → Option (List String) → Option (List String)
merged size overlap none = none
merged size overlap (some atoms) = some (merge_atoms atoms size overlap)

-- Recursive; a size or an overlap below 0 acts as 0.
unfoldable pub recursive : String → ℕ → ℕ → Option (List String)
unfolding trim_space runes fitting_overlap split_to_atoms merge_atoms
recursive text size overlap =
    let t = trim_space text in
    let o = fitting_overlap size overlap in
    if is_empty t
    then some []
    else if leb size 0 || leb (runes t) size
    then some (t ∷ [])
    else merged size o (split_to_atoms t size o separators)
