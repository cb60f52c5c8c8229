-- ===== src/Query/Submit/Tests.antt =====
-- Runs of the query hook.
use query_craft.Common.{◌≡◌, ◌≢◌, refl, true, false, List, [], ◌∷◌, ◌++◌, none, some, arith, eq_iff}
use query_craft.Common.Value.{Value, obj, plain, field, str, end, resolved, rejected}
use query_craft.Request.Scope.{caller, construct, fire_abort, is_abort_failure}
use query_craft.Session.Deletion.{deletion_version, is_unavailable, did_start}
use query_craft.Query.Submit.State.{
  Hook, new_scope, begin_request, is_deleted, is_session_deletion_error, classify_suppression,
  end_request,
}
use query_craft.Query.Submit.Requests.{
  sent, submit_body, submit_catch, show_result, submit_start, submit_settle, reject_settle,
  regenerate_settle, accept_settle,
}
use query_craft.Query.Submit.Environment.{Event, deletes, rolls_back, unmounts, pass}
use query_craft.Query.Submit.Settling.{IsIdle, Reports, settle-IsIdle, settle-rejected}
use query_craft.Query.Submit.Suppression.{Suppressed, deletes-suppresses}
use query_craft.Query.Submit.Aborts.{Withheld, abort_of, settle-aborted}

abbrev ready : Hook
ready = record {
  is_submitting = false;
  result = none;
  refine_prompt = none;
  evaluator_rejection = none;
  timeout = false;
  error = none;
  submitting = false;
  active = none;
  scope = new_scope;
  mounted = true;
  can_submit = true;
  listener = 1;
  lifecycle = record { versions = []; unavailable = []; listeners = 1 ∷ [] };
  active_session_id = some "a";
  invalidated = [];
}

abbrev answer : Value
answer = obj plain (field "kind" (str "result") (field "session_id" (str "b") end))

abbrev quota : Value
quota = obj plain (field "error" (str "quota_exceeded") end)

abbrev busy : Hook
busy = record ready { submitting = true; is_submitting = true; active = some (some "a") }

abbrev stopped : Hook
stopped = record busy { scope = fire_abort caller new_scope }

abbrev rolled_back : Hook
rolled_back = record busy {
  lifecycle = record { versions = ("a", 1) ∷ []; unavailable = []; listeners = [] };
}

settle-IsIdle_example :
    IsIdle (submit_settle (some "a") 0 (resolved answer) busy).0
    × IsIdle (reject_settle (resolved answer) busy).0
    × IsIdle (regenerate_settle (resolved answer) busy).0
    × IsIdle (accept_settle (some "a") (resolved answer) busy).0
settle-IsIdle_example = settle-IsIdle (some "a") 0 (resolved answer) busy

-- A result of another session makes that session the active one.
switches : (submit_settle (some "a") 0 (resolved answer) busy).0.active_session_id ≡ some "b"
unfolding submit_settle submit_body submit_catch classify_suppression is_deleted is_unavailable
    did_start show_result end_request new_scope construct
switches = refl

not_aborted : busy.scope.aborted ≡ false
unfolding new_scope construct
not_aborted = refl

foreign : is_abort_failure quota ≡ false
unfolding is_abort_failure
foreign = refl

no_deletion : is_session_deletion_error quota ≡ false
unfolding is_session_deletion_error
no_deletion = refl

not_deleted : is_deleted (some "a") 0 busy ≡ false
unfolding is_deleted is_unavailable did_start
not_deleted = refl

settle-rejected_example :
    Reports quota (submit_settle (some "a") 0 (rejected quota) busy)
    × Reports quota (regenerate_settle (rejected quota) busy)
    × Reports quota (accept_settle (some "a") (rejected quota) busy)
settle-rejected_example =
    settle-rejected (some "a") 0 quota busy not_aborted foreign no_deletion not_deleted
      (refl, refl, refl, refl, refl)

is_submitted : (submit_start (some "a") (some "c") ready).1 ≡ sent 0
unfolding submit_start begin_request deletion_version is_unavailable
is_submitted = refl

abbrev noise : List Event
noise = deletes "a" ∷ rolls_back "a" ∷ []

deletes-suppresses_example :
    Suppressed
      (pass (submit_start (some "a") (some "c") ready).0 (unmounts ∷ [] ++ noise)).active_session_id
      (submit_settle
        (some "a")
        0
        (resolved answer)
        (pass (submit_start (some "a") (some "c") ready).0 (unmounts ∷ [] ++ noise)))
deletes-suppresses_example =
    deletes-suppresses ready "a" (some "c") 0 (unmounts ∷ []) (rolls_back "a" ∷ [])
      (resolved answer) (tt, tt) (tt, tt) (ground (arith, eq_iff "a" "")) is_submitted

is_stopped : stopped.scope.aborted ≡ true
unfolding new_scope construct fire_abort
is_stopped = refl

stopped-kept : is_deleted (some "a") 0 stopped ≡ false
unfolding is_deleted is_unavailable did_start
stopped-kept = refl

settle-aborted_example :
    Withheld (abort_of stopped.scope) (submit_settle (some "a") 0 (resolved answer) stopped)
    × Withheld (abort_of stopped.scope) (regenerate_settle (resolved answer) stopped)
    × Withheld (abort_of stopped.scope) (accept_settle (some "a") (resolved answer) stopped)
settle-aborted_example =
    settle-aborted (some "a") (resolved answer) stopped is_stopped stopped-kept refl
      (refl, refl, refl, refl, refl)

began_once : deletion_version "a" rolled_back.lifecycle ≢ 0
unfolding deletion_version
began_once = ground arith

untouched : (busy.scope.aborted ≡ false) × (busy.scope.reason ≡ none)
unfolding new_scope construct
untouched = (refl, refl)

available : is_unavailable "a" busy.lifecycle ≡ false
unfolding is_unavailable
available = refl
