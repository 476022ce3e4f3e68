-- ===== src/Reasoning/Compression.antt =====
-- The compression of the working context
-- (internal/implementation/orchestrator/context_compression.go). The oracle is a parameter.
pub mod Laws
pub mod Recent
use Prim.Native.String.{len}
use eywa.Prelude.{
  ℕ, zero, suc, ◌+◌, ◌-◌, ◌≤◌, ◌<◌, ◌≡◌, refl, sym, ap, ◌∙◌, ◌⊎◌, inl, inr, Bool, true, false, ◌&&◌,
  Option, none, some, List, [], ◌∷◌, ◌++◌, length, take, drop, length-append, length-take,
  length-drop, take-append-drop, All, String, concat, ltb, leb, is_empty, if◌then◌else◌, Bool-cases,
  Option-cases, arith,
}
use eywa.Chunking.Windows.{trim_space}
use eywa.Entities.Policies.{CompressionPolicy}
use eywa.Reasoning.Oracle.{OracleMessage, OracleUsage, accumulate_tokens}

-- What the loop carries on: the working context, the ends of its iterations and the tokens of the result.
pub record Working : Type 0 where
  pub messages : List OracleMessage
  pub boundaries : List ℕ
  pub tokens_used : OracleUsage

unfoldable pub context_chars : List OracleMessage → ℕ
context_chars [] = 0
context_chars (m ∷ ms) = len m.content + context_chars ms

abbrev label : OracleMessage → String
label m = if is_empty m.tool_name then m.role else concat m.role (concat "/" m.tool_name)

unfoldable pub render_messages_for_ledger : List OracleMessage → String
render_messages_for_ledger [] = ""
render_messages_for_ledger (m ∷ ms) =
    concat (label m) (concat ": " (concat m.content (concat "\n" (render_messages_for_ledger ms))))

abbrev pub get_elem? : List ℕ → ℕ → Option ℕ
get_elem? [] n = none
get_elem? (x ∷ xs) zero = some x
get_elem? (x ∷ xs) (suc n) = get_elem? xs n

-- messages[from:to]; bounds out of order or past the length are taken to panic.
unfoldable pub slice : ℕ → ℕ → List OracleMessage → Option (List OracleMessage)
slice from to ms =
    if leb from to && leb to (length ms) then some (take (to - from) (drop from ms)) else none

abbrev pub ledger : String → OracleMessage
ledger summary = record {
  role = "assistant";
  content = concat "[EVIDENCE LEDGER]\n" summary;
  tool_calls = [];
  tool_call_id = "";
  tool_name = "";
  is_error = false;
}

unfoldable pub kept_iterations : CompressionPolicy → ℕ
kept_iterations policy = if ltb policy.keep_recent 1 then 1 else policy.keep_recent

-- The oracle: none for an error, or the content of its answer and the tokens used.
module _ (generate_response : String → Option (String × OracleUsage)) where
  unfoldable pub collapse : ℕ → ℕ → Working → Option (String × OracleUsage) → Working
  unfolding trim_space accumulate_tokens
  collapse offset start w none = w
  collapse offset start w (some (summary, usage)) =
      let compressed = take offset w.messages ++ ledger summary ∷ drop start w.messages in
      if is_empty (trim_space summary) then w else record {
        messages = compressed;
        boundaries = length compressed ∷ [];
        tokens_used = accumulate_tokens w.tokens_used usage;
      }

  unfoldable pub compress_at : ℕ → ℕ → Working → Option Working
  unfolding slice collapse render_messages_for_ledger
  compress_at offset start w =
      if leb start offset then some w else elim (slice offset start w.messages) [
        | none ↦ none
        | some span ↦
            some (collapse offset start w (generate_response (render_messages_for_ledger span)))
      ]

  -- none is a panic.
  unfoldable pub maybe_compress : CompressionPolicy → ℕ → Working → Option Working
  unfolding compress_at context_chars kept_iterations
  maybe_compress policy offset w =
      let keep = kept_iterations policy in
      if leb (context_chars w.messages) policy.max_context_chars
      then some w
      else if leb (length w.boundaries) keep
      then some w
      else elim (get_elem? w.boundaries (length w.boundaries - keep)) [
        | none ↦ none
        | some start ↦ compress_at offset start w
      ]

  -- The end of an iteration of the loop with compression on: its end is noted, then the context compressed.
  unfoldable pub end_iteration : CompressionPolicy → ℕ → Working → Option Working
  unfolding maybe_compress
  end_iteration policy offset w =
      maybe_compress policy offset
        (record w { boundaries = w.boundaries ++ length w.messages ∷ [] })
