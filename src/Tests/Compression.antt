-- ===== src/Tests/Compression.antt =====
-- The compression of a working context on concrete messages.
use eywa.Prelude.{true, false, ℕ, ◌+◌, ◌≡◌, refl, Option, some, [], ◌∷◌, String, arith}
use eywa.Chunking.Windows.{trim_space, trim_left, trim_right, is_space}
use eywa.Entities.Policies.{CompressionPolicy}
use eywa.Reasoning.Oracle.{OracleMessage, OracleUsage, accumulate_tokens}
use eywa.Reasoning.Compression.{
  Working, context_chars, render_messages_for_ledger, slice, kept_iterations, collapse, compress_at,
  maybe_compress, end_iteration,
}
use eywa.Reasoning.Compression.Laws.{Kept, maybe_compress-keeps}
use eywa.Reasoning.Compression.Recent.{AllOrPrefix, end_iteration-keeps_none}

abbrev message : String → OracleMessage
message s = record {
  role = "user";
  content = s;
  tool_calls = [];
  tool_call_id = "";
  tool_name = "";
  is_error = false;
}

abbrev assistant : String → OracleMessage
assistant s = record (message s) { role = "assistant" }

abbrev policy : CompressionPolicy
policy = record { enabled = true; max_context_chars = 3; keep_recent = 1 }

abbrev usage : ℕ → OracleUsage
usage n = record { prompt_tokens = n; completion_tokens = n; total_tokens = n + n }

abbrev working : Working
working = record {
  messages = message "ask" ∷ message "one" ∷ message "two" ∷ message "six" ∷ [];
  boundaries = 2 ∷ 3 ∷ 4 ∷ [];
  tokens_used = usage 5;
}

abbrev shorten : String → Option (String × OracleUsage)
shorten s = some ("facts", usage 2)

-- The question stays, and all three iterations are in the ledger; the tokens of the summary are counted.
compress_iterations :
    maybe_compress shorten policy 1 working
    ≡ some (record {
      messages = message "ask" ∷ assistant "[EVIDENCE LEDGER]\nfacts" ∷ [];
      boundaries = 2 ∷ [];
      tokens_used = usage 7;
    })
unfolding maybe_compress compress_at collapse accumulate_tokens context_chars kept_iterations slice
    render_messages_for_ledger trim_space trim_left trim_right is_space
compress_iterations = refl

maybe_compress-keeps_example :
    (r : Working) × ((maybe_compress shorten policy 1 working ≡ some r) × Kept 1 working r)
maybe_compress-keeps_example =
    maybe_compress-keeps shorten policy 1 working
      (omega arith, (omega arith, (omega arith, (omega arith, tt))))

end_iteration-keeps_none_example :
    (r : Working) × ((end_iteration shorten policy 1 working ≡ some r) × AllOrPrefix 1 working r)
end_iteration-keeps_none_example = end_iteration-keeps_none shorten policy 1 working (omega arith)
