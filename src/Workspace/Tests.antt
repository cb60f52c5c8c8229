-- ===== src/Workspace/Tests.antt =====
-- A conversation of two saved queries, a submission that fails, and a deletion of the session.
use query_craft.Common.{
  ◌≡◌, refl, String, true, false, not, ◌&&◌, ◌||◌, [], ◌∷◌, Option, none, some, any, contains,
  lookup, add, str_eq, if◌then◌else◌,
}
use query_craft.Common.Value.{Value, rejected, undefined, plain, obj, field, end, str, is_str}
use query_craft.Session.Deletion.{
  Lifecycle, rolls_back, begin_deletion, did_start, deletion_version, is_unavailable, run, step,
  rollback,
}
use query_craft.Api.Responses.{is_client_contract_error}
use query_craft.Workspace.Turns.{
  delete_failed, Turn, Attempt, blank_turn, get_api_error_code, is_definite_server_failure,
  build_history_turn, with_connection, get_connection_meta,
}
use query_craft.Workspace.Page.{
  Page, Served, all_turns, history_attempts, deduped_local_turns, with_recovery,
  local_saved_ids_with_active_attempt, switch_session, is_current_session_context,
}
use query_craft.Workspace.Deleting.{
  Snapshot, has_saved_id, snapshot_of, requests, delete_start, delete_end, delete_settle,
  delete_reconcile, finished,
}
use query_craft.Workspace.Answers
use query_craft.Workspace.Answers.{
  Waits, settled, handle_regenerate_settle, handle_regenerate_refetched, handle_regenerate_end,
}
use query_craft.Workspace.Retrying.{retry_settle, retry_end}
use query_craft.Workspace.Submitting.{Submission, handle_submit_start, handle_submit_settle}
use query_craft.Workspace.Settling.{
  IsPageDone, handle_submit_settle-IsPageDone, switch_session-submit_failed,
}
use query_craft.Workspace.Late.{IsOverrun, late_answers-ended}
use query_craft.Workspace.Showing.{all_turns-shown}
use query_craft.Workspace.Restoring.{delete_settle-delete_start}
use query_craft.Workspace.Refusing.{delete_settle-shown}

abbrev attempt : String → Attempt
attempt id = record {
  id = id;
  question_text = "How many orders?";
  generated_sql = str "select count(*) from orders";
  database_connection_id = none;
  database_connection_name = some "Orders";
  database_type = some "postgresql";
  result_columns = undefined;
  result_rows = undefined;
  result_row_count = undefined;
}

abbrev server : Served
server = record { attempts = attempt "q2" ∷ attempt "q1" ∷ []; connections = [] }

abbrev page : Option String → Page
page active = record {
  local_turns = [];
  deleted_saved_ids = [];
  saved_turn_recoveries = [];
  rendered_session_id = active;
  prev_session_id = active;
  pending_submit = false;
  pending_delete_ids = [];
  pending_regenerate_ids = [];
  pending_connection_retry_ids = [];
  alert = none;
  active_session_id = active;
  lifecycle = record { versions = []; unavailable = []; listeners = [] };
  invalidated = [];
}

all_turns-shown_example : any (has_saved_id "q1") (all_turns server (page (some "s1"))) ≡ (
    not (contains (page (some "s1")).deleted_saved_ids "q1")
    && (any (λ a. str_eq a.id "q1") server.attempts
        || any (has_saved_id "q1") (page (some "s1")).local_turns))
all_turns-shown_example = all_turns-shown server (page (some "s1")) "q1" refl

abbrev turn : Turn
turn = record (blank_turn "q1" "How many orders?") {
  sql = str "select count(*) from orders";
  saved_query_id = some "q1";
  connection_name = some "Orders";
  database_type = some "postgresql";
}

abbrev snapshot : Snapshot
snapshot = record {
  saved_query_id = "q1";
  turn = turn;
  local_index = none;
  was_deleted = false;
  session_id = some "s1";
  version = 0;
}

abbrev deleting : Page
deleting = record (page (some "s1")) {
  pending_delete_ids = "q1" ∷ [];
  deleted_saved_ids = "q1" ∷ [];
}

starts : delete_start true server "q1" (page (some "s1")) ≡ requests (snapshot, deleting)
unfolding delete_start all_turns history_attempts deduped_local_turns with_recovery
    local_saved_ids_with_active_attempt build_history_turn with_connection get_connection_meta add
    snapshot_of deletion_version
starts = refl

abbrev failure : Value
failure = obj plain (field "error" (str "internal") end)

is_current : is_current_session_context deleting (some "s1") 0 ≡ true
unfolding is_current_session_context is_unavailable did_start deletion_version
is_current = refl

is_other : is_str "not_found" (get_api_error_code failure) ≡ false
unfolding get_api_error_code
is_other = refl

is_definite : is_definite_server_failure failure ≡ true
unfolding is_definite_server_failure get_api_error_code is_client_contract_error
is_definite = refl

delete_settle-delete_start_example :
    (r : Page) × (delete_settle snapshot (rejected failure) deleting ≡ finished r)
    × (r.local_turns ≡ (page (some "s1")).local_turns)
    × ((j : String)
        → contains r.deleted_saved_ids j ≡ contains (page (some "s1")).deleted_saved_ids j)
    × ((j : String)
        → contains r.pending_delete_ids j ≡ contains (page (some "s1")).pending_delete_ids j)
    × ((j : String)
        → lookup j r.saved_turn_recoveries ≡ (
            if str_eq "q1" j
            then some delete_failed
            else lookup j (page (some "s1")).saved_turn_recoveries))
delete_settle-delete_start_example =
    delete_settle-delete_start true server "q1" (page (some "s1")) deleting snapshot failure starts
      is_current is_other is_definite

-- The user opens another session and comes back while the server still deletes.
abbrev returned : Page
returned = switch_session (some "s1") (switch_session (some "s2") deleting)

returned_is_current : is_current_session_context returned (some "s1") 0 ≡ true
unfolding switch_session is_current_session_context is_unavailable did_start deletion_version
returned_is_current = refl

delete_settle-shown_example :
    (r : Page) × (delete_settle snapshot (rejected failure) returned ≡ finished r)
    × (any (has_saved_id "q1") (all_turns server r) ≡ true)
    × (contains r.pending_delete_ids "q1" ≡ false)
    × (lookup "q1" r.saved_turn_recoveries ≡ some delete_failed)
    × ((j : String)
        → contains r.deleted_saved_ids j
          ≡ (contains returned.deleted_saved_ids j && not (str_eq "q1" j)))
delete_settle-shown_example =
    delete_settle-shown true server server "q1" (page (some "s1")) deleting returned snapshot
      failure refl starts returned_is_current is_other is_definite refl

abbrev before : Lifecycle
before = record { versions = []; unavailable = []; listeners = [] }

abbrev overrun : Page
overrun = record deleting {
  lifecycle = record { versions = ("s1", 1) ∷ []; unavailable = []; listeners = [] };
}

is_overrun : IsOverrun "s1" 0 overrun
unfolding begin_deletion is_unavailable deletion_version run step rollback add
is_overrun = (before, rolls_back "s1" ∷ [], refl, refl, refl)

abbrev call : Answers.Call
call = record { key = "a1"; session_id = some "s1"; version = 0 }

late_answers-ended_example :
    (delete_settle snapshot (rejected failure) overrun ≡ finished (delete_end snapshot overrun))
    × (delete_reconcile snapshot (rejected failure) overrun ≡ delete_end snapshot overrun)
    × (handle_regenerate_settle call (rejected failure) overrun
        ≡ settled (handle_regenerate_end call overrun))
    × (handle_regenerate_refetched call overrun ≡ handle_regenerate_end call overrun)
    × (retry_settle call none (rejected failure) overrun ≡ retry_end call overrun)
late_answers-ended_example =
    late_answers-ended "s1" overrun snapshot call none (rejected failure) refl refl refl is_overrun
      is_overrun

abbrev submission : Submission
submission = record { turn_id = "t1"; question = "How many orders?"; session_id = none }

handle_submit_settle-IsPageDone_example :
    IsPageDone submission (handle_submit_settle submission (rejected failure) (page none))
handle_submit_settle-IsPageDone_example =
    handle_submit_settle-IsPageDone submission (rejected failure) (page none)

submits :
    (handle_submit_start "t1" "How many orders?" (some "c1") [] (page none)).1 ≡ some submission
unfolding handle_submit_start
submits = refl

switch_session-submit_failed_example :
    (switch_session (some "s2") (
      handle_submit_settle submission
        (rejected failure)
        (handle_submit_start "t1" "How many orders?" (some "c1") [] (page none)).0)).local_turns
    ≡ (handle_submit_settle submission
        (rejected failure)
        (handle_submit_start "t1" "How many orders?" (some "c1") [] (page none)).0).local_turns
switch_session-submit_failed_example =
    switch_session-submit_failed "t1" "How many orders?" "c1" "s2" [] (page none) submission failure
      refl refl refl refl submits
