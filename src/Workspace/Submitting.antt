-- ===== src/Workspace/Submitting.antt =====
-- `handleSubmit` of frontend/src/pages/WorkspacePage.tsx: a placeholder turn goes into the
-- conversation, and the answer fills it or takes it out. The id of the new turn comes from the clock
-- and is an argument.
use query_craft.Common.{
  String, true, false, not, ◌||◌, List, [], ◌∷◌, ◌++◌, Option, none, some, keep, str_eq,
  if◌then◌else◌,
}
use query_craft.Common.Value.{
  Value, Settled, resolved, rejected, plain, obj, field, end, str, arr, cons, nil, get, has, as_str,
  is_str,
}
use query_craft.Request.Scope.{is_request_aborted}
use query_craft.Query.Submit.State.{own_or_detail, names, is_session_deletion_error}
use query_craft.Workspace.Turns.{
  Turn, Connection, blank_turn, non_empty, get_connection_meta, meta_name, meta_type,
  map_api_error_to_connection_error_kind,
}
use query_craft.Workspace.Page.{Page, CacheKey, session, is_set, change_where}
use query_craft.Workspace.Answers.{is_kind, or_session}

-- What the answer needs of the call: the turn, the question and the session at the time.
pub record Submission : Type 0 where
  pub turn_id : String
  pub question : String
  pub session_id : Option String

unfoldable pub connection_required : Value
connection_required = obj plain (
    field "message_key" (str "query.error.noDatabaseSelected") (
      field "violations"
        (arr (
          cons
            (obj plain (
              field "rule" (str "connection_required")
                (field "message_key" (str "query.error.noDatabaseSelectedMessage") end)))
            nil))
        end))

abbrev pub append_turn : Turn → Page → Page
append_turn t p = record p { local_turns = p.local_turns ++ t ∷ [] }

-- Without a connection there is no request; the second component says whether there is one.
unfoldable pub handle_submit_start :
    String → String → Option String → List Connection → Page → Page × Option Submission
handle_submit_start turn_id question connection connections p =
    let meta = get_connection_meta connection connections in
    if not (is_set connection)
    then (
      append_turn
          (record (blank_turn turn_id question) { evaluator_rejection = some connection_required })
          p,
      none,
    )
    else (
      append_turn
          (record (blank_turn turn_id "") {
            is_loading = true;
            connection_name = meta_name meta;
            database_type = meta_type meta;
            source_session_id = some p.active_session_id;
            immutable_connection_id = connection;
          })
          (record p {
            pending_submit = elim p.active_session_id [ none ↦ true | some s ↦ p.pending_submit ];
          }),
      some (record { turn_id = turn_id; question = question; session_id = p.active_session_id }),
    )

-- The turn of the submission is changed, or taken out with an alert.
unfoldable pub settle_turn : Submission → (Turn → Turn) → Page → Page
settle_turn s patch p = record p {
  local_turns =
      change_where (λ t. str_eq t.id s.turn_id)
        (λ t. patch (record t { question = s.question; is_loading = false })) p.local_turns;
}

unfoldable pub drop_turn : Submission → Page → Page
drop_turn s p = record p { local_turns = keep (λ t. not (str_eq t.id s.turn_id)) p.local_turns }

unfoldable pub drop_with_alert : String → Submission → Page → Page
drop_with_alert title s p = record (drop_turn s p) { alert = some title }

abbrev pub invalidate_session : Option String → Page → Page
invalidate_session id p = record p { invalidated = p.invalidated ++ keys }
  where
    keys : List CacheKey
    keys = elim (non_empty id) [ none ↦ [] | some s ↦ session s ∷ [] ]

unfoldable pub submit_accepted : Submission → Value → Page → Page
submit_accepted s body p =
    if is_kind "result" body
    then settle_turn s
        (λ t. record t {
          result = some body;
          sql = get "generated_sql" body;
          attempt_id = as_str (get "attempt_id" body);
          saved_query_id = as_str (get "accepted_query_id" body);
          source_session_id = some (or_session (as_str (get "session_id" body)) s.session_id);
        })
        p
    else if is_kind "refine" body
    then settle_turn s (λ t. record t { refine_prompt = some body }) p
    else settle_turn s (λ t. t) p

-- The last part of the handler's errors, by the error's code.
unfoldable pub submit_failed_code : Submission → Value → Page → Page
submit_failed_code s e p =
    let code = own_or_detail "error" e in
    if is_str "concurrent" code
    then drop_with_alert "query.error.concurrent" s p
    else if is_str "llm_unavailable" code || is_str "llmUnavailable" code
    then drop_with_alert "query.error.llmUnavailable" s p
    else elim (map_api_error_to_connection_error_kind e) [
      | some kind ↦ settle_turn s (λ t. record t { connection_error = some kind }) p
      | none ↦ settle_turn s (λ t. t) p
    ]

-- What comes after the tests for blocked input and for a quota.
unfoldable pub submit_failed_other : Submission → Value → Page → Page
submit_failed_other s e p =
    if names "error.service_unavailable" "service_unavailable" e
    then drop_with_alert "error.service_unavailable" s p
    else if has "violations" e
    then settle_turn s (λ t. record t { evaluator_rejection = some e }) p
    else if is_kind "refine" e
    then settle_turn s (λ t. record t { refine_prompt = some e }) p
    else submit_failed_code s e p

unfoldable pub submit_failed : Submission → Value → Page → Page
submit_failed s e p =
    if is_session_deletion_error e || is_request_aborted e
    then drop_turn s p
    else if names "error.hostile_input_blocked" "hostile_input_blocked" e
    then settle_turn s (λ t. record t { question = ""; hostile_input_blocked = true }) p
    else if names "error.quota_exceeded" "quota_exceeded" e
    then settle_turn s (λ t. record t { quota_exceeded = some (own_or_detail "reset_at" e) }) p
    else submit_failed_other s e p

unfoldable pub handle_submit_settle : Submission → Settled Value → Page → Page
handle_submit_settle s (resolved body) p =
    submit_accepted s body (invalidate_session s.session_id p)
handle_submit_settle s (rejected e) p = submit_failed s e p
