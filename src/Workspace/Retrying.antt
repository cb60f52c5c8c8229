-- ===== src/Workspace/Retrying.antt =====
-- `handleConnectionRetry` of frontend/src/pages/WorkspacePage.tsx: a start, up to the call of the
-- submission hook, and what its answer does to the turn.
use query_craft.Common.{
  String, true, false, not, ◌&&◌, ◌||◌, Option, none, some, find, contains, add, without, str_eq,
  if◌then◌else◌,
}
use query_craft.Common.Value.{
  Value, Settled, resolved, rejected, get, has, as_str, is_str, if_nullish,
}
use query_craft.Workspace.Turns.{
  Turn, ConnectionErrorKind, get_api_error_code, map_api_error_to_connection_error_kind,
}
use query_craft.Workspace.Page.{
  Page, Served, all_turns, is_set, is_current_retry_context, update_turn,
  invalidate_workspace_history,
}
use query_craft.Workspace.Deleting.{Started, ignored, requests, version_of}
use query_craft.Workspace.Answers.{Call, or_session, source_of, with_result}

unfoldable pub retry_start : Served → String → Page → Started (Call × Page)
retry_start server id p = elim (contains p.pending_connection_retry_ids id) [
  | true ↦ ignored
  | false ↦ elim (find (λ t. str_eq t.id id) (all_turns server p)) [
    | none ↦ ignored
    | some turn ↦
        let s = source_of turn.source_session_id in
        elim (is_set turn.immutable_connection_id
          && not (str_eq turn.question "")
          && is_current_retry_context p s (version_of s p.lifecycle) none) [
            | false ↦ ignored
            | true ↦ requests (
              record { key = id; session_id = s; version = version_of s p.lifecycle },
              update_turn id (λ t. record t { is_connection_retrying = true })
                  (record p {
                    pending_connection_retry_ids = add p.pending_connection_retry_ids id;
                    pending_submit = elim s [ none ↦ true | some i ↦ p.pending_submit ];
                  }),
            )
          ]
  ]
]

unfoldable pub retry_end : Call → Page → Page
retry_end c p = record p {
  pending_connection_retry_ids = without p.pending_connection_retry_ids c.key;
}

-- A key of the error itself, or else of its detail: `??`.
abbrev pub of_error : String → Value → Value
of_error k e = if_nullish (get k e) (get k (get "detail" e))

abbrev pub or_kind :
    Option ConnectionErrorKind → Option ConnectionErrorKind → Option ConnectionErrorKind
or_kind none k = k
or_kind (some j) k = some j

-- What a failed retry makes of the turn; `before` is the error that the turn had at the start.
unfoldable pub retry_failed : Value → Option ConnectionErrorKind → Turn → Turn
unfolding get_api_error_code
retry_failed e before t =
    if is_str "quota_exceeded" (get_api_error_code e)
      || is_str "error.quota_exceeded" (of_error "message_key" e)
    then record t {
      is_connection_retrying = false;
      connection_error = none;
      quota_exceeded = some (of_error "reset_at" e);
    }
    else if is_str "hostile_input_blocked" (get_api_error_code e)
        || is_str "error.hostile_input_blocked" (of_error "message_key" e)
    then record t {
      question = "";
      is_connection_retrying = false;
      connection_error = none;
      hostile_input_blocked = true;
    }
    else record t {
      is_connection_retrying = false;
      connection_error = or_kind (map_api_error_to_connection_error_kind e) before;
    }

unfoldable pub retry_settle : Call → Option ConnectionErrorKind → Settled Value → Page → Page
unfolding retry_end retry_failed
retry_settle c before answer p = retry_end c (by_answer answer)
  where
    by_answer : Settled Value → Page
    by_answer (resolved body) =
        if not (has "kind" body)
        then if is_current_retry_context p c.session_id c.version none
          then update_turn c.key (λ t. record t { is_connection_retrying = false }) p
          else p
        else if is_str "result" (get "kind" body)
        then if is_current_retry_context p c.session_id c.version (as_str (get "session_id" body))
          then invalidate_workspace_history
              (or_session (as_str (get "session_id" body)) c.session_id)
              (update_turn c.key
                (λ t. record (with_result body c.session_id t) {
                  is_connection_retrying = false;
                  connection_error = none;
                })
                p)
          else p
        else if is_str "refine" (get "kind" body)
            && is_current_retry_context p c.session_id c.version none
        then update_turn c.key
            (λ t. record t {
              is_connection_retrying = false;
              connection_error = none;
              refine_prompt = some body;
            })
            p
        else p
    by_answer (rejected e) =
        if is_current_retry_context p c.session_id c.version none
        then update_turn c.key (retry_failed e before) p
        else p
