-- ===== src/Tests/Chunking.antt =====
-- The merge of atoms and the split of whole texts on concrete texts.
use eywa.Prelude.{String, List, some, ◌≡◌, ◌≤◌, ◌+◌, ◌*◌, refl, [], ◌∷◌, All, arith}
use eywa.Chunking.{runes, merge_atoms, flush, join_spaced, carried, trim_front}
use eywa.Chunking.Bounds.{merge_atoms-bound}
use eywa.Chunking.Recursive.{recursive-bound}
use eywa.Chunking.Windows.{
  recursive, split_to_atoms, fitting_overlap, each_part, split_from, starts_with, hard_split,
  hard_from, trim_space, trim_left, trim_right, is_space, before, after, keep,
}

-- An overlap can push a chunk past the size: this one has 16 runes.
overlapping : merge_atoms ("aaaaa" ∷ "bbbbbbbbbb" ∷ []) 10 5 ≡ "aaaaa" ∷ "aaaaa bbbbbbbbbb" ∷ []
unfolding merge_atoms flush join_spaced carried trim_front runes
overlapping = refl

merge_atoms-bound_example :
    All (λ chunk. runes chunk ≤ 10 + 2 * 5) (merge_atoms ("aaaaa" ∷ "bbbbbbbbbb" ∷ []) 10 5)
unfolding runes
merge_atoms-bound_example =
    merge_atoms-bound ("aaaaa" ∷ "bbbbbbbbbb" ∷ []) 10 5 (omega arith, (omega arith, tt))
      (omega arith, (omega arith, tt))

split_words : recursive "  ab cd efg" 5 0 ≡ some ("ab cd" ∷ "efg" ∷ [])
unfolding recursive split_to_atoms fitting_overlap each_part split_from starts_with hard_split
    hard_from trim_space trim_left trim_right is_space before after keep merge_atoms flush
    join_spaced carried trim_front runes
split_words = refl

cut_windows : hard_split "abcdefgh" 4 1 ≡ some ("abcd" ∷ "defg" ∷ "gh" ∷ [])
unfolding hard_split hard_from trim_space trim_left trim_right is_space before after keep runes
cut_windows = refl

recursive-bound_example :
    (chunks : List String) × ((recursive "abcdefgh ij" 4 1 ≡ some chunks)
      × All (λ chunk. runes chunk ≤ 4 + 2 * 1) chunks)
recursive-bound_example = recursive-bound "abcdefgh ij" 4 1 (omega arith)
