-- ===== src/Reasoning/Stream/Laws.antt =====
-- A streamed answer is the buffered one (internal/implementation/orchestrator/streaming.go).
use eywa.Prelude.{◌≡◌, refl, ap, ◌∙◌, true, Option, none, some, List, [], ◌∷◌, String, concat}
use eywa.Reasoning.Oracle.{OracleRequest, OracleResponse}
use eywa.Reasoning.Stream.{
  StreamEvent, delta, done, error, empty_response, emitting, assemble_from, Provider,
  invoke_provider, streamed, started_stream,
}

-- An answer in parts, and a stream that breaks off after some parts.
abbrev pub spelled : List String → OracleResponse → List StreamEvent
spelled [] r = done r.tool_calls r.tokens_used r.stop_reason ∷ []
spelled (d ∷ ds) r = delta d ∷ spelled ds r

abbrev pub broken : List String → List StreamEvent → List StreamEvent
broken [] rest = error ∷ rest
broken (d ∷ ds) rest = delta d ∷ broken ds rest

abbrev pub written : String → List String → String
written s [] = s
written s (d ∷ ds) = written (concat s d) ds

-- The answer with a content, and without a structured part.
abbrev pub with_content : String → OracleResponse → OracleResponse
with_content s r = record r { content = s; structured = "" }

assemble_from-spelled :
    (s : String) (parts : List String) (r : OracleResponse)
    → assemble_from s empty_response (spelled parts r)
      ≡ (some (with_content (written s parts) r), parts)
unfolding assemble_from
assemble_from-spelled s [] r = refl
assemble_from-spelled s (d ∷ ds) r = ap (emitting d) (assemble_from-spelled (concat s d) ds r)

assemble_from-broken :
    (s : String) (parts : List String) (rest : List StreamEvent)
    → assemble_from s empty_response (broken parts rest) ≡ (none, parts)
unfolding assemble_from
assemble_from-broken s [] rest = refl
assemble_from-broken s (d ∷ ds) rest = ap (emitting d) (assemble_from-broken (concat s d) ds rest)

-- A provider that streams the answer r in parts gives a caller that wants events the answer that the parts spell, with
-- the tool calls, the tokens and the stop reason of r and no structured part, and forwards the parts in their
-- order; where the stream breaks off, there is an error and what came before it was forwarded.
pub invoke_provider-spelled :
    (p : Provider) (stream : OracleRequest → Option (List StreamEvent)) (q : OracleRequest)
    (parts : List String) (r : OracleResponse) (rest : List StreamEvent)
    → p.generate_stream ≡ some stream
    → (stream q ≡ some (spelled parts r)
        → invoke_provider true p q ≡ (some (with_content (written "" parts) r), parts))
      × (stream q ≡ some (broken parts rest) → invoke_provider true p q ≡ (none, parts))
unfolding invoke_provider
invoke_provider-spelled p stream q parts r rest streams = (
  λ e. ap (λ o. streamed o p q) streams ∙ ap started_stream e ∙ assemble_from-spelled "" parts r,
  λ e. ap (λ o. streamed o p q) streams ∙ ap started_stream e ∙ assemble_from-broken "" parts rest,
)
