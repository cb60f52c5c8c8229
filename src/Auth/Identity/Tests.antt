-- ===== src/Auth/Identity/Tests.antt =====
-- Runs of the identity boundary.
use query_craft.Common.{◌≡◌, ◌≢◌, refl, true, false, [], ◌∷◌, none, some, arith, Option}
use query_craft.Common.Int.{pos}
use query_craft.Common.Value.{resolved, rejected, Value, obj, plain, field, int, end}
use query_craft.Auth.Permissions.{User, query_submit, has_permission}
use query_craft.Ui.Store.{initial}
use query_craft.Auth.Identity.State.{
  CurrentUserQuery, Setup, Boundary, mount, renders, exposed, identity_fingerprint, observed,
  needs_reset, needs_location_refresh,
}
use query_craft.Auth.Identity.Events.{
  identity_changed, permission_denied, query_changes, denied_refetch_ends, on_session_expiry,
  denied_refetched, refresh_location, begin_auth_transition, current_user_fn, superseded, run, step,
  synchronize_identity, rotate,
}
use query_craft.Auth.Identity.Clients.{IsFresh, run-mount-IsFresh}
use query_craft.Auth.Identity.Generations.{expired-until_sign_in, begin_auth_transition-superseded}
use query_craft.Auth.Identity.Laws.{client-fingerprint, exposed-no_permission}

abbrev analyst : User
analyst = record {
  id = "7";
  role_id = none;
  role_name = some "analyst";
  permissions = some ("query.submit" ∷ []);
}

abbrev loaded : Option User → CurrentUserQuery
loaded u = record {
  user = u;
  is_loading = false;
  is_fetching = false;
  is_success = true;
  failure = none;
}

abbrev start : Setup
start = record {
  key = some "/";
  query = loaded (some analyst);
  ui = initial;
  lifecycle = record { versions = []; unavailable = []; listeners = [] };
  location = record { pathname = "/"; error_code = none };
}

abbrev server_error : Value
server_error = obj plain (field "status" (int (pos 500)) end)

abbrev broken : Boundary
broken = record (mount start) {
  query = record (loaded (some analyst)) { failure = some server_error };
}

run-mount-IsFresh_example : IsFresh (run (mount start) (identity_changed ∷ permission_denied ∷ []))
run-mount-IsFresh_example = run-mount-IsFresh start (identity_changed ∷ permission_denied ∷ [])

shown_first : renders (run (mount start) (identity_changed ∷ [])) ≡ true
unfolding mount renders needs_reset needs_location_refresh observed exposed run step
    synchronize_identity rotate identity_fingerprint
shown_first = refl

shown_later :
    renders (run (run (mount start) (identity_changed ∷ [])) (denied_refetch_ends ∷ [])) ≡ true
unfolding mount renders needs_reset needs_location_refresh observed exposed run step
    synchronize_identity rotate identity_fingerprint denied_refetched
shown_later = refl

same_client :
    (run (run (mount start) (identity_changed ∷ [])) (denied_refetch_ends ∷ [])).session.client
    ≡ (run (mount start) (identity_changed ∷ [])).session.client
unfolding mount needs_reset observed exposed run step synchronize_identity rotate
    identity_fingerprint denied_refetched
same_client = refl

client-fingerprint_example :
    identity_fingerprint
      (exposed (run (run (mount start) (identity_changed ∷ [])) (denied_refetch_ends ∷ []))).user
    ≡ identity_fingerprint (exposed (run (mount start) (identity_changed ∷ []))).user
client-fingerprint_example =
    client-fingerprint start (identity_changed ∷ []) (denied_refetch_ends ∷ []) shown_first
      shown_later same_client

exposed-no_permission_example : has_permission (exposed broken).user query_submit ≡ false
exposed-no_permission_example = exposed-no_permission broken server_error query_submit refl

not_expired : (mount start).expired ≡ false
unfolding mount
not_expired = refl

not_refreshing : (mount start).refreshing ≡ false
unfolding mount
not_refreshing = refl

abbrev moved : Boundary
moved = record (mount start) { authorization_key = some "/history" }

second_refresh : 0 ≢ (refresh_location moved).refresh_sequence
unfolding mount refresh_location needs_location_refresh
second_refresh = ground arith

expired_example :
    (exposed
      (run (on_session_expiry (mount start)) (query_changes (loaded (some analyst)) ∷ []))).user
    ≡ none
expired_example =
    expired-until_sign_in (mount start) (query_changes (loaded (some analyst)) ∷ []) not_expired
      (tt, tt)

superseded_example :
    current_user_fn
      (mount start).auth_generation
      "/"
      (resolved analyst)
      (run (begin_auth_transition (mount start)) (identity_changed ∷ []))
    ≡ (rejected superseded, run (begin_auth_transition (mount start)) (identity_changed ∷ []))
superseded_example =
    begin_auth_transition-superseded (mount start) (identity_changed ∷ []) "/" (resolved analyst) tt
