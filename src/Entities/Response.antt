-- ===== src/Entities/Response.antt =====
-- What the engine returns to its caller (internal/domain/entities/response.go). The texts of
-- messages and the times are left out.
use eywa.Prelude.{Bool, false, List, [], String}

pub data ResponseStatus : Type 0 where
  success partial_success failed duplicate : ResponseStatus

pub record Response : Type 0 where
  pub status : ResponseStatus
  pub event_id : String
  pub memory_key : String
  pub spirit_used : String
  pub actions_executed : List String
  pub final_response : String
  pub response_delivered : Bool

unfoldable pub new_response : String → String → String → List String → Response
new_response event_id memory_key spirit actions = record {
  status = success;
  event_id = event_id;
  memory_key = memory_key;
  spirit_used = spirit;
  actions_executed = actions;
  final_response = "";
  response_delivered = false;
}

unfoldable pub new_duplicate_response : String → String → Response
new_duplicate_response event_id memory_key = record {
  status = duplicate;
  event_id = event_id;
  memory_key = memory_key;
  spirit_used = "";
  actions_executed = [];
  final_response = "";
  response_delivered = false;
}

unfoldable pub new_error_response : String → String → Response
new_error_response event_id memory_key = record {
  status = failed;
  event_id = event_id;
  memory_key = memory_key;
  spirit_used = "";
  actions_executed = [];
  final_response = "";
  response_delivered = false;
}
