-- ===== src/Query/Submit/State.antt =====
-- The state of the hook in frontend/src/hooks/useQuerySubmit.ts, and its callbacks that only change
-- state. The request scope is shared by the ref and the operation that made it; since `begin_request`
-- refuses while a request is under way, there is one scope at a time, the field `scope`, and `active`
-- says whether the ref still holds it.
use query_craft.Common.{
  ℕ, String, Bool, true, false, not, ◌&&◌, ◌||◌, List, Option, none, some, if◌then◌else◌, str_eq,
}
use query_craft.Common.Value.{
  Value, Proto, undefined, obj, error, session_deletion_error, error_of, get, has, is_object,
  is_str, or_else,
}
use query_craft.Request.Scope.{
  Scope, construct, dispose, throw_if_aborted, request_aborted, is_abort_failure,
}
use query_craft.Session.Deletion.{Lifecycle, is_unavailable, did_start}

pub data ErrorKind : Type 0 where
  concurrent llm_unavailable attempt_invalid network connection_required : ErrorKind
  quota_exceeded service_unavailable hostile_input_blocked : ErrorKind

pub record Failure : Type 0 where
  pub kind : ErrorKind
  pub reset_at : Value

-- `active` is the session of the active request; a session can be missing there too. `listener` is
-- the hook's subscription to session deletions. `invalidated` lists the query keys that were
-- invalidated.
pub record Hook : Type 0 where
  pub is_submitting : Bool
  pub result : Option Value
  pub refine_prompt : Option Value
  pub evaluator_rejection : Option Value
  pub timeout : Bool
  pub error : Option Failure
  pub submitting : Bool
  pub active : Option (Option String)
  pub scope : Scope
  pub mounted : Bool
  pub can_submit : Bool
  pub listener : ℕ
  pub lifecycle : Lifecycle
  pub active_session_id : Option String
  pub invalidated : List String

unfoldable pub clear_states : Hook → Hook
clear_states s = record s {
  result = none;
  refine_prompt = none;
  evaluator_rejection = none;
  timeout = false;
  error = none;
}

unfoldable pub reset_error : Hook → Hook
reset_error s = record s { error = none; evaluator_rejection = none; timeout = false }

abbrev pub fail_with : ErrorKind → Hook → Hook
fail_with k s = record s { error = some (record { kind = k; reset_at = undefined }) }

-- `err.k || err.detail?.k`.
abbrev pub own_or_detail : String → Value → Value
own_or_detail k e = or_else (get k e) (get k (get "detail" e))

-- The last part of `handleError`, by the error's own code.
unfoldable pub handle_code : Value → Hook → Hook
handle_code code s =
    if is_str "concurrent" code
    then fail_with concurrent s
    else if is_str "llm_unavailable" code
    then fail_with llm_unavailable s
    else if is_str "attempt_invalid" code
    then fail_with attempt_invalid s
    else if is_str "timeout" code
    then record s { timeout = true }
    else fail_with network s

-- The part of `handleError` that looks for a message key or a code, here or in the detail.
abbrev pub names : String → String → Value → Bool
names key code e =
    is_str key (own_or_detail "message_key" e) || is_str code (own_or_detail "error" e)

unfoldable pub handle_keys : Value → Hook → Hook
handle_keys e s =
    if names "error.hostile_input_blocked" "hostile_input_blocked" e
    then fail_with hostile_input_blocked s
    else if names "error.quota_exceeded" "quota_exceeded" e
    then record s {
      error = some (record { kind = quota_exceeded; reset_at = own_or_detail "reset_at" e });
    }
    else if names "error.service_unavailable" "service_unavailable" e
    then fail_with service_unavailable s
    else handle_code (get "error" e) s

unfoldable pub handle_error : Value → Hook → Hook
handle_error e s =
    if not (is_object e)
    then fail_with network s
    else if has "violations" e
    then record s { evaluator_rejection = some e }
    else if has "kind" e && is_str "refine" (get "kind" e)
    then record s { refine_prompt = some e }
    else handle_keys e s

-- `new RequestScope({})`.
unfoldable pub new_scope : Scope
new_scope = construct (record { signal = none; timeout = none })

pub submit_in_progress : Value
submit_in_progress = error_of error "submit_in_progress" "Error"

-- `none` where the source throws `submit_in_progress`.
unfoldable pub begin_request : Option String → Hook → Option Hook
unfolding clear_states
begin_request session s =
    if s.submitting
    then none
    else some (record (clear_states (record s { submitting = true; is_submitting = true })) {
      scope = new_scope;
      active = some session;
    })

abbrev dispose_active : Option (Option String) → Scope → Scope
dispose_active none scope = scope
dispose_active (some session) scope = dispose scope

unfoldable pub end_request : Hook → Hook
end_request s = record s {
  scope = dispose_active s.active s.scope;
  active = none;
  submitting = false;
  is_submitting = false;
}

abbrev pub or_aborted : Option Value → Value
or_aborted none = request_aborted
or_aborted (some e) = e

-- `classifyFailure(err, scope)`: the state that it leaves, and what it throws.
unfoldable pub classify_failure : Value → Hook → Hook × Value
classify_failure e s =
    if s.scope.aborted
    then (s, or_aborted (throw_if_aborted s.scope))
    else if is_abort_failure e
    then (s, request_aborted)
    else (handle_error e s, e)

-- `sessionId && (isSessionUnavailable(…) || didSessionDeletionStart(…))`.
unfoldable pub is_deleted : Option String → ℕ → Hook → Bool
is_deleted none version s = false
is_deleted (some sid) version s =
    not (str_eq sid "") && (is_unavailable sid s.lifecycle || did_start sid version s.lifecycle)

pub data Suppression : Type 0 where
  proceeds aborted deleted : Suppression

unfoldable pub classify_suppression : Option String → ℕ → Hook → Suppression
classify_suppression session version s =
    if is_deleted session version s
    then deleted
    else if not s.mounted || s.scope.aborted
    then aborted
    else proceeds

abbrev is_deletion_proto : Proto → Bool
is_deletion_proto session_deletion_error = true
is_deletion_proto p = false

unfoldable pub is_session_deletion_error : Value → Bool
is_session_deletion_error (obj p fs) = is_deletion_proto p
is_session_deletion_error v = false
