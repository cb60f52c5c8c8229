-- ===== src/Workspace/Answers.antt =====
-- `handleRegenerate` of frontend/src/pages/WorkspacePage.tsx: a start, up to the call of the
-- submission hook, and what its answer does to the turn. A field that the server
-- sends as a text or not at all is read with `as_str`.
use query_craft.Common.{
  ℕ, String, Bool, true, false, not, ◌&&◌, Option, none, some, find, contains, add, without, str_eq,
  if◌then◌else◌,
}
use query_craft.Common.Value.{Value, Settled, resolved, rejected, str, get, has, as_str, is_str}
use query_craft.Workspace.Turns.{
  RecoveryKind, regenerate_failed, regenerate_terminal, Turn, is_terminal_attempt_error,
}
use query_craft.Workspace.Page.{
  Page, Served, all_turns, is_set, is_current_session_context, update_turn,
  invalidate_workspace_history,
}
use query_craft.Workspace.Deleting.{Started, ignored, requests, version_of}

-- `a ?? b` on sessions.
abbrev pub or_session : Option String → Option String → Option String
or_session none id = id
or_session (some s) id = some s

-- Which turn a call is for, under which session and version.
pub record Call : Type 0 where
  pub key : String
  pub session_id : Option String
  pub version : ℕ

-- `data && typeof data === 'object' && 'kind' in data && data.kind === kind`.
abbrev pub is_kind : String → Value → Bool
is_kind kind body = has "kind" body && is_str kind (get "kind" body)

abbrev pub source_of : Option (Option String) → Option String
source_of none = none
source_of (some id) = id

abbrev pub has_attempt : String → Turn → Bool
has_attempt attempt t = elim t.attempt_id [ none ↦ false | some a ↦ str_eq a attempt ]

-- What a result sets, here and in the retry of a connection.
abbrev pub with_result : Value → Option String → Turn → Turn
with_result body id t = record t {
  result = some body;
  sql = get "generated_sql" body;
  attempt_id = as_str (get "attempt_id" body);
  saved_query_id = as_str (get "accepted_query_id" body);
  refine_prompt = none;
  evaluator_rejection = none;
  source_session_id = some (or_session (as_str (get "session_id" body)) id);
}

unfoldable pub handle_regenerate_start : Served → String → Page → Started (Call × Page)
handle_regenerate_start server attempt p = elim (contains p.pending_regenerate_ids attempt) [
  | true ↦ ignored
  | false ↦ elim (find (has_attempt attempt) (all_turns server p)) [
    | none ↦ ignored
    | some turn ↦
        let id = or_session (source_of turn.source_session_id) p.active_session_id in
        requests (
          record { key = attempt; session_id = id; version = version_of id p.lifecycle },
          update_turn attempt (λ t. record t { is_regenerating = true; recovery = none })
              (record p { pending_regenerate_ids = add p.pending_regenerate_ids attempt }),
        )
  ]
]

unfoldable pub handle_regenerate_end : Call → Page → Page
handle_regenerate_end c p = record p {
  pending_regenerate_ids = without p.pending_regenerate_ids c.key;
}

abbrev pub recover_with : RecoveryKind → Turn → Turn
recover_with kind t = record t { is_regenerating = false; recovery = some kind }

-- The handler is through, or waits for the session to be fetched again.
pub data Waits : Type 0 where
  settled refetches : Page → Waits

unfoldable pub handle_regenerate_settle : Call → Settled Value → Page → Waits
unfolding handle_regenerate_end
handle_regenerate_settle c (resolved body) p =
    if not (is_current_session_context p c.session_id c.version)
    then settled (handle_regenerate_end c p)
    else if is_kind "result" body
    then settled (
        handle_regenerate_end c (
          invalidate_workspace_history c.session_id (
            update_turn c.key
              (λ t. record (with_result body c.session_id t) {
                is_regenerating = false;
                recovery = none;
              })
              p)))
    else if is_kind "refine" body
    then settled (
        handle_regenerate_end c (
          update_turn c.key
            (λ t. record t {
              is_regenerating = false;
              recovery = none;
              refine_prompt = some body;
              result = none;
              sql = str "";
              evaluator_rejection = none;
            })
            p))
    else settled (handle_regenerate_end c p)
handle_regenerate_settle c (rejected e) p =
    if not (is_current_session_context p c.session_id c.version)
    then settled (handle_regenerate_end c p)
    else if not (is_terminal_attempt_error e)
    then settled (handle_regenerate_end c (update_turn c.key (recover_with regenerate_failed) p))
    else if is_set c.session_id
    then refetches p
    else settled (handle_regenerate_end c (update_turn c.key (recover_with regenerate_terminal) p))

-- After the fetch, however it ended.
unfoldable pub handle_regenerate_refetched : Call → Page → Page
unfolding handle_regenerate_end
handle_regenerate_refetched c p = handle_regenerate_end c (
    if is_current_session_context p c.session_id c.version
    then update_turn c.key (recover_with regenerate_terminal) p
    else p)
