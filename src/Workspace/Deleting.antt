-- ===== src/Workspace/Deleting.antt =====
-- `handleDelete` of frontend/src/pages/WorkspacePage.tsx: a start, up to the request, what its answer
-- leads to, and, where the answer leaves open whether the query is gone, what asking for it shows.
use query_craft.Common.{
  ℕ, zero, suc, String, Bool, true, false, not, List, [], ◌∷◌, Option, none, some, find, any,
  contains, add, without, insert, discard, str_eq, if◌then◌else◌,
}
use query_craft.Common.Value.{Value, Settled, resolved, rejected, is_str}
use query_craft.Session.Deletion.{Lifecycle, deletion_version}
use query_craft.Workspace.Turns.{
  RecoveryKind, delete_failed, delete_uncertain, Turn, non_empty, get_api_error_code,
  is_definite_server_failure,
}
use query_craft.Workspace.Page.{
  Page, Served, all_turns, is_current_session_context, invalidate_workspace_history,
}

-- `DeleteSnapshot`, with the saved query and the deletion version that the handler keeps. The index
-- is missing where the turn is not a local one.
pub record Snapshot : Type 0 where
  pub saved_query_id : String
  pub turn : Turn
  pub local_index : Option ℕ
  pub was_deleted : Bool
  pub session_id : Option String
  pub version : ℕ

abbrev pub has_saved_id : String → Turn → Bool
has_saved_id id t = elim t.saved_query_id [ none ↦ false | some s ↦ str_eq s id ]

abbrev pub find_index : (Turn → Bool) → List Turn → Option ℕ
find_index test [] = none
find_index test (t ∷ ts) =
    let rest = find_index test ts in
    if test t then some 0 else elim rest [ none ↦ none | some i ↦ some (suc i) ]

-- `splice(Math.min(i, length), 0, t)`.
abbrev pub insert_at : ℕ → Turn → List Turn → List Turn
insert_at zero t ts = t ∷ ts
insert_at (suc i) t [] = t ∷ []
insert_at (suc i) t (u ∷ ts) = u ∷ insert_at i t ts

abbrev pub restore_local : Snapshot → List Turn → List Turn
restore_local s ts = elim s.local_index [
  | none ↦ ts
  | some i ↦ if any (has_saved_id s.saved_query_id) ts then ts else insert_at i s.turn ts
]

unfoldable pub restore_deleted_turn : Snapshot → RecoveryKind → Page → Page
restore_deleted_turn s kind p = record p {
  deleted_saved_ids =
      if s.was_deleted then p.deleted_saved_ids else without p.deleted_saved_ids s.saved_query_id;
  local_turns = restore_local s p.local_turns;
  saved_turn_recoveries = insert s.saved_query_id kind p.saved_turn_recoveries;
}

-- How a call of a handler begins: it throws, it does nothing, or it makes a request.
pub data Started {ℓ} (A : Type ℓ) : Type ℓ where
  refused ignored : Started A
  requests : A → Started A

abbrev pub version_of : Option String → Lifecycle → ℕ
version_of id l = elim (non_empty id) [ none ↦ 0 | some s ↦ deletion_version s l ]

unfoldable pub snapshot_of : String → Turn → Page → Snapshot
snapshot_of id turn p = record {
  saved_query_id = id;
  turn = turn;
  local_index = find_index (has_saved_id id) p.local_turns;
  was_deleted = contains p.deleted_saved_ids id;
  session_id = p.active_session_id;
  version = version_of p.active_session_id p.lifecycle;
}

unfoldable pub delete_start : Bool → Served → String → Page → Started (Snapshot × Page)
unfolding snapshot_of
delete_start can_view_history server id p = elim can_view_history [
  | false ↦ refused
  | true ↦ elim (contains p.pending_delete_ids id) [
    | true ↦ ignored
    | false ↦ elim (find (has_saved_id id) (all_turns server p)) [
      | none ↦ ignored
      | some turn ↦ requests (
        snapshot_of id turn p,
        record p {
          pending_delete_ids = add p.pending_delete_ids id;
          saved_turn_recoveries = discard id p.saved_turn_recoveries;
          deleted_saved_ids = add p.deleted_saved_ids id;
        },
      )
    ]
  ]
]

-- The `finally` of the handler.
unfoldable pub delete_end : Snapshot → Page → Page
delete_end s p = record p { pending_delete_ids = without p.pending_delete_ids s.saved_query_id }

-- Whether the handler is through, or asks the server for the query.
pub data Next : Type 0 where
  finished asks : Page → Next

unfoldable pub delete_settle : Snapshot → Settled Value → Page → Next
unfolding delete_end restore_deleted_turn
delete_settle s (resolved v) p =
    if is_current_session_context p s.session_id s.version
    then finished (delete_end s (invalidate_workspace_history s.session_id p))
    else finished (delete_end s p)
delete_settle s (rejected e) p =
    if not (is_current_session_context p s.session_id s.version)
    then finished (delete_end s p)
    else if is_str "not_found" (get_api_error_code e)
    then finished (delete_end s (invalidate_workspace_history s.session_id p))
    else if is_definite_server_failure e
    then finished (delete_end s (restore_deleted_turn s delete_failed p))
    else asks p

unfoldable pub delete_reconcile : Snapshot → Settled Value → Page → Page
unfolding delete_end restore_deleted_turn
delete_reconcile s answer p = delete_end s (by_answer answer)
  where
    by_answer : Settled Value → Page
    by_answer (resolved v) =
        if is_current_session_context p s.session_id s.version
        then restore_deleted_turn s delete_failed p
        else p
    by_answer (rejected e) =
        if not (is_current_session_context p s.session_id s.version)
        then p
        else if is_str "not_found" (get_api_error_code e)
        then invalidate_workspace_history s.session_id p
        else restore_deleted_turn s delete_uncertain p
