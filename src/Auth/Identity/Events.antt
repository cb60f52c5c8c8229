-- ===== src/Auth/Identity/Events.antt =====
-- frontend/src/providers/QueryProvider.tsx: the boundary's effects, listeners and mutations, each a
-- function on its state, and the events that drive them.
use query_craft.Common.{
  ℕ, ◌+◌, String, Bool, true, false, not, ◌||◌, List, [], ◌∷◌, Option, none, some, ◌==◌,
  if◌then◌else◌, includes_text,
}
use query_craft.Common.Int.{pos}
use query_craft.Common.Value.{
  Value, obj, plain, error, int, field, end, error_of, Settled, resolved, rejected,
}
use query_craft.Auth.Permissions.{User}
use query_craft.Auth.Expiry.{is_session_expiry, is_permission_denied, handle_session_expiry}
use query_craft.Session.Deletion
use query_craft.Ui.Store.{reset_identity_state}
use query_craft.Auth.Identity.State.{
  Boundary, CurrentUserQuery, observed, needs_reset, needs_location_refresh, opt_eq,
}

-- What every rotation does: the old client's queries are cancelled and its cache is cleared, the
-- identity's state elsewhere is reset, and a new client takes the place of the old one.
unfoldable pub rotate : String → Boundary → Boundary
unfolding reset_identity_state Deletion.reset
rotate fingerprint s = record s {
  ui = reset_identity_state s.ui;
  lifecycle = Deletion.reset s.lifecycle;
  cleared = s.session.client ∷ s.cleared;
  session = record {
    client = s.next_client;
    fingerprint = fingerprint;
    generation = s.session.generation + 1;
  };
  next_client = s.next_client + 1;
}

-- The listener of `subscribeToSessionExpiry`.
unfoldable pub on_session_expiry : Boundary → Boundary
on_session_expiry s =
    if s.expired
    then s
    else rotate "anonymous"
        (record s { expired = true; auth_generation = s.auth_generation + 1; signed_out = true })

abbrev pub is_last_denied : Option String → Option String → Bool
is_last_denied none last = true
is_last_denied (some o) last = opt_eq last (some o)

-- The listener of `subscribeToPermissionDenied`: the refetch that it starts ends in `denied_refetched`.
unfoldable pub on_permission_denied : Boundary → Boundary
on_permission_denied s =
    if is_last_denied (observed s) s.last_denied || s.refreshing
    then s
    else rotate s.session.fingerprint (record s {
      refreshing = true;
      last_denied = observed s;
      refresh_pending = true;
      refetches = s.refetches + 1;
    })

unfoldable pub denied_refetched : Boundary → Boundary
denied_refetched s = record s { refreshing = false; refresh_pending = false }

-- `publishSessionExpiry(error, sourcePath)`.
unfoldable pub publish_session_expiry : Value → String → Boundary → Boundary × Bool
publish_session_expiry e source s =
    if is_session_expiry e
    then (
      let t = on_session_expiry s in
          record t { location = (handle_session_expiry e source t.location).0 },
      true,
    )
    else (s, false)

-- `handleFeatureError`, of the caches of a feature client.
unfoldable pub handle_feature_error : Value → Boundary → Boundary
handle_feature_error e s =
    let (t, published) = publish_session_expiry e s.location.pathname s in
    if published then t else if is_permission_denied e then on_permission_denied t else t

abbrev pub status_error : ℕ → Value
status_error n = obj plain (field "status" (int (pos n)) end)

-- The response interceptor of the API client, by the path of the request and the status.
unfoldable pub on_response : String → ℕ → Boundary → Boundary
on_response path status s =
    if includes_text path "/auth/"
    then s
    else if status == 401
    then (publish_session_expiry (status_error 401) s.location.pathname s).0
    else if status == 403
    then on_permission_denied s
    else s

-- The effect on a new `authorizationKey`: nothing, or a refetch that ends in `location_refetched`.
unfoldable pub refresh_location : Boundary → Boundary
refresh_location s =
    if not (needs_location_refresh s) || opt_eq s.key_in_flight s.authorization_key
    then s
    else record s {
      refresh_sequence = s.refresh_sequence + 1;
      key_in_flight = s.authorization_key;
      refreshing = true;
      refresh_pending = true;
      refetches = s.refetches + 1;
    }

-- The end of the refetch that was started with this number, for this key.
unfoldable pub location_refetched : ℕ → Option String → Boundary → Boundary
location_refetched sequence key s =
    if s.refresh_sequence == sequence
    then record s {
      key_in_flight = none;
      refreshing = false;
      last_denied = none;
      verified_key = key;
      refresh_pending = false;
    }
    else s

unfoldable pub begin_auth_transition : Boundary → Boundary
begin_auth_transition s =
    rotate s.session.fingerprint
      (record s { auth_generation = s.auth_generation + 1; transition_pending = true })

-- `setQueryData` leaves the query in the state that it is given here.
unfoldable pub sign_in_succeeded : CurrentUserQuery → Boundary → Boundary
sign_in_succeeded q s = record s {
  expired = false;
  last_denied = none;
  query = q;
  signed_out = false;
  transition_pending = false;
}

unfoldable pub sign_out_succeeded : Boundary → Boundary
sign_out_succeeded s = record s { expired = true; signed_out = true; transition_pending = false }

unfoldable pub transition_failed : Boundary → Boundary
transition_failed s = record s { transition_pending = false }

abbrev pub rotate_to : Option String → Boundary → Boundary
rotate_to none s = s
rotate_to (some fingerprint) s = rotate fingerprint s

-- The effect that follows a change of the observed fingerprint.
unfoldable pub synchronize_identity : Boundary → Boundary
synchronize_identity s = if needs_reset s then rotate_to (observed s) s else s

unfoldable pub superseded : Value
superseded = error_of error "Superseded authentication request" "AbortError"

abbrev pub checked : ℕ → ℕ → User → Settled User
checked requested current u = if requested == current then resolved u else rejected superseded

abbrev pub settle_failure : Settled User → String → Boundary → Settled User × Boundary
settle_failure (resolved u) source s = (resolved u, s)
settle_failure (rejected e) source s = (rejected e, (publish_session_expiry e source s).0)

-- The query function: the generation and the path when the request began, and how `getMe` settled.
unfoldable pub current_user_fn : ℕ → String → Settled User → Boundary → Settled User × Boundary
current_user_fn requested source (resolved u) s =
    settle_failure (checked requested s.auth_generation u) source s
current_user_fn requested source (rejected e) s = settle_failure (rejected e) source s

pub data Event : Type 0 where
  session_expires permission_denied denied_refetch_ends location_changed : Event
  transition_begins transition_fails signs_out identity_changed : Event
  signs_in query_changes : CurrentUserQuery → Event
  navigates : Option String → Event
  location_refetch_ends : ℕ → Option String → Event
  feature_fails : Value → Event
  responds : String → ℕ → Event
  fetches_user : ℕ → String → Settled User → Event

unfoldable pub step : Boundary → Event → Boundary
step s session_expires = on_session_expiry s
step s permission_denied = on_permission_denied s
step s denied_refetch_ends = denied_refetched s
step s location_changed = refresh_location s
step s transition_begins = begin_auth_transition s
step s transition_fails = transition_failed s
step s signs_out = sign_out_succeeded s
step s identity_changed = synchronize_identity s
step s (signs_in q) = sign_in_succeeded q s
step s (query_changes q) = record s { query = q }
step s (navigates key) = record s { authorization_key = key }
step s (location_refetch_ends n key) = location_refetched n key s
step s (feature_fails e) = handle_feature_error e s
step s (responds path status) = on_response path status s
step s (fetches_user n source outcome) = (current_user_fn n source outcome s).1

unfoldable pub run : Boundary → List Event → Boundary
run s [] = s
run s (e ∷ es) = run (step s e) es
