-- ===== src/Workspace/Turns.antt =====
-- The turns of a conversation in frontend/src/pages/WorkspacePage.tsx: what they hold, how the saved
-- ones are made from the session's attempts, and how the page reads an error of the server.
use query_craft.Common.{
  String, Bool, true, false, not, ◌&&◌, ◌||◌, List, Option, none, some, find, str_eq, if◌then◌else◌,
}
use query_craft.Common.Value.{
  Value, undefined, plain, bool, int, str, obj, field, end, get, is_str, is_truthy, if_nullish,
}
use query_craft.Common.Int.{pos}
use query_craft.Query.Submit.State.{own_or_detail}
use query_craft.Api.Responses.{is_client_contract_error}

pub data RecoveryKind : Type 0 where
  delete_failed delete_uncertain regenerate_failed regenerate_terminal : RecoveryKind

-- `ConnectionErrorKind` of frontend/src/components/chat/ConnectionErrorCard.tsx.
pub data ConnectionErrorKind : Type 0 where
  no_connections disabled unhealthy no_schema query_execution_failed timeout : ConnectionErrorKind

-- The source session is missing, `null`, or a session. What the server sent is kept as it is.
pub record Turn : Type 0 where
  pub id : String
  pub question : String
  pub sql : Value
  pub result : Option Value
  pub refine_prompt : Option Value
  pub evaluator_rejection : Option Value
  pub is_loading : Bool
  pub saved_query_id : Option String
  pub attempt_id : Option String
  pub connection_name : Option String
  pub database_type : Option String
  pub connection_error : Option ConnectionErrorKind
  pub quota_exceeded : Option Value
  pub hostile_input_blocked : Bool
  pub source_session_id : Option (Option String)
  pub immutable_connection_id : Option String
  pub is_regenerating : Bool
  pub is_connection_retrying : Bool
  pub recovery : Option RecoveryKind

-- A turn with no field given but its id and its question.
abbrev pub blank_turn : String → String → Turn
blank_turn id question = record {
  id = id;
  question = question;
  sql = undefined;
  result = none;
  refine_prompt = none;
  evaluator_rejection = none;
  is_loading = false;
  saved_query_id = none;
  attempt_id = none;
  connection_name = none;
  database_type = none;
  connection_error = none;
  quota_exceeded = none;
  hostile_input_blocked = false;
  source_session_id = none;
  immutable_connection_id = none;
  is_regenerating = false;
  is_connection_retrying = false;
  recovery = none;
}

-- A text where it is truthy.
abbrev pub non_empty : Option String → Option String
non_empty none = none
non_empty (some s) = if str_eq s "" then none else some s

unfoldable pub get_api_error_code : Value → Value
get_api_error_code error = if_nullish (get "error" error) (get "error" (get "detail" error))

abbrev is_undefined : Value → Bool
is_undefined undefined = true
is_undefined v = false

unfoldable pub is_definite_server_failure : Value → Bool
unfolding get_api_error_code
is_definite_server_failure error =
    not (is_client_contract_error error) && not (is_undefined (get_api_error_code error))

unfoldable pub is_terminal_attempt_error : Value → Bool
unfolding get_api_error_code
is_terminal_attempt_error error =
    is_str "attempt_invalid" (get_api_error_code error)
    || is_str "attempt_expired" (get_api_error_code error)

unfoldable pub map_api_error_to_connection_error_kind : Value → Option ConnectionErrorKind
map_api_error_to_connection_error_kind error =
    let code = own_or_detail "error" error in
    if is_str "connection_disabled" code
    then some disabled
    else if is_str "connection_unhealthy" code
    then some unhealthy
    else if is_str "connection_no_schema" code
    then some no_schema
    else if is_str "no_database_available" code
    then some no_connections
    else if is_str "query_execution_failed" code
    then some query_execution_failed
    else if is_str "timeout" code
    then some timeout
    else none

pub record Connection : Type 0 where
  pub id : String
  pub display_name : String
  pub database_type : String

-- `AttemptSummary`: the fields that a turn is made from.
pub record Attempt : Type 0 where
  pub id : String
  pub question_text : String
  pub generated_sql : Value
  pub database_connection_id : Option String
  pub database_connection_name : Option String
  pub database_type : Option String
  pub result_columns : Value
  pub result_rows : Value
  pub result_row_count : Value

-- The name and the type of a connection, where it is there.
unfoldable pub get_connection_meta : Option String → List Connection → Option Connection
get_connection_meta id connections = elim (non_empty id) [
  | none ↦ none
  | some i ↦ find (λ c. str_eq c.id i) connections
]

abbrev pub meta_name : Option Connection → Option String
meta_name none = none
meta_name (some c) = some c.display_name

abbrev pub meta_type : Option Connection → Option String
meta_type none = none
meta_type (some c) = some c.database_type

unfoldable pub with_connection : Attempt → List Connection → Turn → Turn
unfolding get_connection_meta
with_connection a connections turn =
    named (non_empty a.database_connection_name) (non_empty a.database_type)
  where
    by_id : Option String → Turn
    by_id none = turn
    by_id (some i) = record turn {
      connection_name = meta_name (get_connection_meta (some i) connections);
      database_type = meta_type (get_connection_meta (some i) connections);
    }

    named : Option String → Option String → Turn
    named (some name) (some type) = record turn {
      connection_name = some name;
      database_type = some type;
    }
    named _ _ = by_id (non_empty a.database_connection_id)

abbrev attempt_result : Attempt → Value
attempt_result a = obj plain (
    field "kind" (str "result") (
      field "attempt_id" (str a.id) (
        field "session_id" undefined (
          field "question" (str a.question_text) (
            field "generated_sql" a.generated_sql (
              field "columns" a.result_columns (
                field "rows" a.result_rows (
                  field "row_count" (if_nullish a.result_row_count (int (pos 0))) (
                    field "attempt_number" (int (pos 1)) (
                      field "is_last_auto_retry" (bool false)
                        (field "accepted_query_id" (str a.id) end)))))))))))

unfoldable pub build_history_turn : Attempt → List Connection → Turn
unfolding with_connection
build_history_turn a connections =
    let turn = with_connection a connections (record (blank_turn a.id a.question_text) {
      sql = a.generated_sql;
      saved_query_id = some a.id;
    }) in
    if is_truthy a.result_columns && is_truthy a.result_rows
    then record turn { result = some (attempt_result a) }
    else turn
