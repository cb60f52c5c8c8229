-- ===== src/Auth/Identity/State.antt =====
-- frontend/src/providers/QueryProvider.tsx: the boundary that ties cached data to one identity. The
-- record holds the component's state, its refs, its prop, and what it shares with other modules. The
-- query client is a library: its cache enters by a number for each client, its state of the
-- current-user query by a field that `query_changes` sets to anything.

use Prim.Native.Nat.{Ordering}
use Prim.Native.String
use query_craft.Common.{
  ℕ, String, Bool, true, false, not, ◌&&◌, ◌||◌, List, [], ◌∷◌, Option, none, some, str_eq,
  if◌then◌else◌,
}
use query_craft.Common.Value.{Value}
use query_craft.Auth.Permissions.{User, has_value}
use query_craft.Auth.Expiry.{Location, is_session_expiry}
use query_craft.Session.Deletion.{Lifecycle}
use query_craft.Ui.Store.{UiState}

-- The parts of the query result that are read; a response with no data is no user. `isError` says
-- that there is a failure.
pub record CurrentUserQuery : Type 0 where
  pub user : Option User
  pub is_loading : Bool
  pub is_fetching : Bool
  pub is_success : Bool
  pub failure : Option Value

pub record FeatureSession : Type 0 where
  pub client : ℕ
  pub fingerprint : String
  pub generation : ℕ

pub record Boundary : Type 0 where
  pub signed_out : Bool
  pub session : FeatureSession
  pub transition_pending : Bool
  pub refresh_pending : Bool
  pub verified_key : Option String
  pub expired : Bool
  pub auth_generation : ℕ
  pub refreshing : Bool
  pub key_in_flight : Option String
  pub refresh_sequence : ℕ
  pub last_denied : Option String
  pub authorization_key : Option String
  pub query : CurrentUserQuery
  pub ui : UiState
  pub lifecycle : Lifecycle
  pub location : Location
  -- The number of the next client, the clients whose cache was cleared, and the refetches so far.
  pub next_client : ℕ
  pub cleared : List ℕ
  pub refetches : ℕ

abbrev text_or_empty : Option String → String
text_or_empty none = ""
text_or_empty (some s) = s

-- The order of texts that `sort` uses where no comparison is given.
abbrev text_leb : String → String → Bool
text_leb s t = elim (String.compare s t) [ Ordering.gt ↦ false | _ ↦ true ]

insert_text : String → List String → List String
insert_text s [] = s ∷ []
insert_text s (t ∷ ts) =
    let later = insert_text s ts in if text_leb s t then s ∷ t ∷ ts else t ∷ later

sort_texts : List String → List String
unfolding insert_text
sort_texts [] = []
sort_texts (s ∷ ss) = insert_text s (sort_texts ss)

join : String → List String → String
join sep [] = ""
join sep (s ∷ []) = s
join sep (s ∷ t ∷ ts) = String.◌++◌ s (String.◌++◌ sep (join sep (t ∷ ts)))

abbrev listed : Option (List String) → List String
listed none = []
listed (some ps) = ps

unfoldable pub identity_fingerprint : Option User → String
unfolding sort_texts join
identity_fingerprint none = "anonymous"
identity_fingerprint (some u) = join "|" (
    u.id
    ∷ text_or_empty u.role_id
    ∷ text_or_empty u.role_name
    ∷ join "," (sort_texts (listed u.permissions))
    ∷ [])

unfoldable pub fail_closed : Option User → Option User
fail_closed none = none
fail_closed (some u) = some (record u { permissions = some [] })

abbrev signed_out_view : CurrentUserQuery → CurrentUserQuery
signed_out_view q = record {
  user = none;
  is_loading = false;
  is_fetching = false;
  is_success = false;
  failure = none;
}

abbrev failure_expires : Option Value → Bool
failure_expires none = false
failure_expires (some e) = is_session_expiry e

-- `exposedCurrentUserQuery`: what the rest of the application may see.
unfoldable pub exposed : Boundary → CurrentUserQuery
exposed s =
    if s.signed_out || failure_expires s.query.failure
    then signed_out_view s.query
    else if has_value s.query.failure
    then record s.query { user = fail_closed s.query.user }
    else s.query

-- `none` while the query is being fetched.
unfoldable pub observed : Boundary → Option String
observed s = let q = exposed s in if q.is_fetching then none else some (identity_fingerprint q.user)

abbrev differs : Option String → String → Bool
differs none s = false
differs (some o) s = not (str_eq o s)

unfoldable pub needs_reset : Boundary → Bool
needs_reset s = differs (observed s) s.session.fingerprint

-- `a === b` for two values that may be missing.
abbrev pub opt_eq : Option String → Option String → Bool
opt_eq none none = true
opt_eq (some s) (some t) = str_eq s t
opt_eq a b = false

-- `authorizationKey !== undefined && authorizationKey !== verifiedAuthorizationKey`.
unfoldable pub needs_location_refresh : Boundary → Bool
needs_location_refresh s =
    has_value s.authorization_key && not (opt_eq s.authorization_key s.verified_key)

-- Whether the children are rendered, with `session.client`, or the spinner stands in their place.
unfoldable pub renders : Boundary → Bool
renders s =
    let q = exposed s in
    not (
      q.is_fetching
      || needs_reset s
      || s.transition_pending
      || s.refresh_pending
      || needs_location_refresh s)

-- What the boundary is mounted with: the prop, the store's state, the query as the cache has it.
pub record Setup : Type 0 where
  pub key : Option String
  pub query : CurrentUserQuery
  pub ui : UiState
  pub lifecycle : Lifecycle
  pub location : Location

unfoldable pub mount : Setup → Boundary
mount m = record {
  signed_out = false;
  session = record { client = 0; fingerprint = "pending"; generation = 0 };
  transition_pending = false;
  refresh_pending = false;
  verified_key = m.key;
  expired = false;
  auth_generation = 0;
  refreshing = false;
  key_in_flight = none;
  refresh_sequence = 0;
  last_denied = none;
  authorization_key = m.key;
  query = m.query;
  ui = m.ui;
  lifecycle = m.lifecycle;
  location = m.location;
  next_client = 1;
  cleared = [];
  refetches = 0;
}
