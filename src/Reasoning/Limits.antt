-- ===== src/Reasoning/Limits.antt =====
-- The truncation of long results of Actions: truncateToolResult and resolveHeadTail of
-- internal/implementation/orchestrator/tool_shaping.go, with the limits of internal/domain/ports/action.go.
pub mod Laws
use eywa.Prelude.{
  ℕ, zero, suc, ◌+◌, ◌-◌, ◌*◌, ◌/◌, Bool, ◌&&◌, ◌||◌, Option, none, some, String, concat, leb,
  if◌then◌else◌,
}
use eywa.Prelude.Int.{ℤ, pos, negsuc, pos_part, le_zero, add, below}
use eywa.Chunking.{runes}
use eywa.Chunking.Windows.{before, after}

-- A strategy that is not set is truncate.
pub data ToolShapeStrategy : Type 0 where
  truncate summarize : ToolShapeStrategy

-- Nothing rejects a limit below 0.
pub record ToolResultLimits : Type 0 where
  pub max_chars : ℤ
  pub strategy : ToolShapeStrategy
  pub keep_head : ℤ
  pub keep_tail : ℤ

-- A split of 70 to 30.
abbrev pub default_split : ℕ → ℤ × ℤ
default_split max = (pos (max * 70 / 100), pos (max - max * 70 / 100))

-- Asked for a positive MaxChars only.
unfoldable pub resolve_head_tail : ToolResultLimits → ℤ × ℤ
resolve_head_tail l =
    if le_zero l.keep_head && le_zero l.keep_tail
    then default_split (pos_part l.max_chars)
    else if below (pos_part l.max_chars) (add l.keep_head l.keep_tail)
    then default_split (pos_part l.max_chars)
    else (l.keep_head, l.keep_tail)

abbrev pub fits : ToolResultLimits → String → Bool
fits l content = le_zero l.max_chars || leb (runes content) (pos_part l.max_chars)

-- With the head and the tail that are kept, and the notice of how much is left out. A negative head or tail
-- slices out of range, which panics.
abbrev pub cut_middle : (ℕ → String) → String → ℤ × ℤ → Option String
cut_middle notice content (pos head, pos tail) = some (
    concat (before head content)
      (concat (notice (runes content - (head + tail))) (after (runes content - tail) content)))
cut_middle notice content (pos head, negsuc tail) = none
cut_middle notice content (negsuc head, tail) = none

-- None is a panic.
unfoldable pub truncate_tool_result : (ℕ → String) → String → ToolResultLimits → Option String
unfolding resolve_head_tail runes before after
truncate_tool_result notice content l =
    if fits l content then some content else cut_middle notice content (resolve_head_tail l)
