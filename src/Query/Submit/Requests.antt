-- ===== src/Query/Submit/Requests.antt =====
-- The operations of frontend/src/hooks/useQuerySubmit.ts: each as what runs before its request is
-- sent, and what runs when the request settles. `resolved` carries the data of the response.
use query_craft.Common.{
  ℕ, String, Bool, false, not, ◌&&◌, ◌||◌, ◌∷◌, Option, none, some, if◌then◌else◌, str_eq,
}
use query_craft.Common.Value.{
  Value, null, error, error_of, Settled, resolved, rejected, get, has, is_object, is_str, as_str,
  undefined,
}
use query_craft.Request.Scope.{throw_if_aborted}
use query_craft.Session.Deletion.{deletion_version, is_unavailable, session_deleted}
use query_craft.Auth.Permissions.{permission_required, query_submit}
use query_craft.Query.Submit.State.{
  Hook, proceeds, aborted, deleted, connection_required, clear_states, begin_request, end_request,
  classify_failure, classify_suppression, is_deleted, is_session_deletion_error, or_aborted,
  submit_in_progress, fail_with,
}

-- An operation is refused with an error before any request, or sends its request; `submitQuestion`
-- notes the deletion version of its session.
pub data Start : Type 0 where
  refused : Value → Start
  sent : ℕ → Start

pub connection_missing : Value
connection_missing = error_of error "connection_required" "Error"

abbrev started : ℕ → Hook → Option Hook → Hook × Start
started version s none = (s, refused submit_in_progress)
started version s (some t) = (t, sent version)

-- A text that may be missing, where the source asks whether it is truthy.
abbrev pub given : Option String → Bool
given none = false
given (some s) = not (str_eq s "")

abbrev gone : Option String → Hook → Bool
gone none s = false
gone (some sid) s = not (str_eq sid "") && is_unavailable sid s.lifecycle

abbrev version_of : Option String → Hook → ℕ
version_of none s = 0
version_of (some sid) s = if str_eq sid "" then 0 else deletion_version sid s.lifecycle

unfoldable pub submit_start : Option String → Option String → Hook → Hook × Start
submit_start session connection s =
    if not s.can_submit
    then (s, refused (permission_required query_submit))
    else if not (given connection)
    then (fail_with connection_required s, refused connection_missing)
    else if gone session s
    then (s, refused session_deleted)
    else started (version_of session s) s (begin_request session s)

-- What `rejectQuery`, `regenerateQuery` (with no session) and `acceptQuery` do before their request.
unfoldable pub plain_start : Option String → Hook → Hook × Start
plain_start session s =
    if not s.can_submit
    then (s, refused (permission_required query_submit))
    else started 0 s (begin_request session s)

abbrev is_kind : String → Value → Bool
is_kind k data' = is_object data' && has "kind" data' && is_str k (get "kind" data')

abbrev is_same : String → Option String → Bool
is_same new none = false
is_same new (some old) = str_eq new old

-- The session of a result becomes the active one where it differs from the request's.
abbrev switch_session : Option String → Option String → Hook → Hook
switch_session session none s = s
switch_session session (some new) s =
    if str_eq new "" || is_same new session
    then s
    else record s { active_session_id = some new; invalidated = "sessions" ∷ s.invalidated }

unfoldable pub show_result : Option String → Value → Hook → Hook
show_result session v s =
    if is_kind "result" v
    then switch_session session (as_str (get "session_id" v)) (record s { result = some v })
    else s

-- The `try` block of `submitQuestion`, after its request has settled.
unfoldable pub submit_body : Option String → ℕ → Settled Value → Hook → Hook × Settled Value
submit_body session version (rejected e) s = (s, rejected e)
submit_body session version (resolved v) s = elim (classify_suppression session version s) [
  | aborted ↦ (clear_states s, rejected (or_aborted (throw_if_aborted s.scope)))
  | deleted ↦ (clear_states s, rejected session_deleted)
  | proceeds ↦ (show_result session v s, resolved v)
]

abbrev rethrow : Hook × Value → Hook × Settled Value
rethrow (s, e) = (s, rejected e)

abbrev pub as_deletion : Value → Value
as_deletion e = if is_session_deletion_error e then e else session_deleted

-- Its `catch` block.
unfoldable pub submit_catch : Option String → ℕ → Hook × Settled Value → Hook × Settled Value
submit_catch session version (s, resolved v) = (s, resolved v)
submit_catch session version (s, rejected e) =
    if is_session_deletion_error e || is_deleted session version s
    then (clear_states s, rejected (as_deletion e))
    else rethrow (classify_failure e s)

-- Its `finally` block, and that of the others.
abbrev pub finally : Hook × Settled Value → Hook × Settled Value
finally (s, r) = (end_request s, r)

unfoldable pub submit_settle : Option String → ℕ → Settled Value → Hook → Hook × Settled Value
submit_settle session version outcome s =
    finally (submit_catch session version (submit_body session version outcome s))

abbrev pub or_null : Option Value → Value
or_null none = null
or_null (some e) = e

unfoldable pub show_turn : Value → Hook → Hook
show_turn v s =
    if is_kind "result" v
    then record s { result = some v }
    else if is_kind "refine" v
    then record s { refine_prompt = some v }
    else s

-- The `try` block of `rejectQuery` and `regenerateQuery`.
unfoldable pub turn_body : Settled Value → Hook → Hook × Settled Value
turn_body (rejected e) s = (s, rejected e)
turn_body (resolved v) s = elim (classify_suppression none 0 s) [
  | aborted ↦ (clear_states s, rejected (or_null (throw_if_aborted s.scope)))
  | _ ↦ (show_turn v s, resolved v)
]

-- The `try` block of `acceptQuery`, which compares the deletion version with 0.
unfoldable pub accept_body : Option String → Settled Value → Hook → Hook × Settled Value
accept_body session (rejected e) s = (s, rejected e)
accept_body session (resolved v) s = elim (classify_suppression session 0 s) [
  | aborted ↦ (clear_states s, rejected (or_null (throw_if_aborted s.scope)))
  | _ ↦ (s, resolved undefined)
]

unfoldable pub plain_catch : Hook × Settled Value → Hook × Settled Value
plain_catch (s, resolved v) = (s, resolved v)
plain_catch (s, rejected e) = rethrow (classify_failure e s)

unfoldable pub regenerate_settle : Settled Value → Hook → Hook × Settled Value
regenerate_settle outcome s = finally (plain_catch (turn_body outcome s))

abbrev pub without_value : Hook × Settled Value → Hook × Settled Value
without_value (s, resolved v) = (s, resolved undefined)
without_value (s, rejected e) = (s, rejected e)

-- `rejectQuery` returns nothing.
unfoldable pub reject_settle : Settled Value → Hook → Hook × Settled Value
reject_settle outcome s = without_value (regenerate_settle outcome s)

unfoldable pub accept_settle : Option String → Settled Value → Hook → Hook × Settled Value
accept_settle session outcome s = finally (plain_catch (accept_body session outcome s))
