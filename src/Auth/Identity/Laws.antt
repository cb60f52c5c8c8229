-- ===== src/Auth/Identity/Laws.antt =====
-- What the boundary shows: one identity for each client, nothing after an expiry, and no permission
-- of a user that could not be confirmed.
use query_craft.Common.{
  ℕ, ◌+◌, ◌≡◌, ◌≢◌, refl, sym, subst, ◌∙◌, inl, inr, true, false, String, List, [], ◌∷◌, Option,
  none, some, arith, eq_iff, Bool-cases, str_eq_self, ap,
}
use query_craft.Common.Value.{Value}
use query_craft.Auth.Permissions.{User, Permission, has_permission}
use query_craft.Auth.Identity.State.{
  Boundary, observed, exposed, renders, needs_reset, identity_fingerprint, Setup, mount,
  needs_location_refresh, opt_eq, fail_closed,
}
use query_craft.Auth.Identity.Events.{
  rotate, is_last_denied, on_session_expiry, on_permission_denied, denied_refetched,
  refresh_location, location_refetched, Event, run,
}
use query_craft.Auth.Identity.Clients.{Follows, run-Follows, run-mount-IsFresh}

-- Where the children are rendered, the session's fingerprint is that of the user that they see.
renders-fingerprint :
    (s : Boundary)
    → renders s ≡ true
    → identity_fingerprint (exposed s).user ≡ s.session.fingerprint
unfolding renders needs_reset observed
renders-fingerprint s h =
    ground (arith, eq_iff (identity_fingerprint (exposed s).user) s.session.fingerprint)

same-session :
    (s t : Boundary)
    → Follows s t
    → t.session.client ≡ s.session.client
    → t.session.fingerprint ≡ s.session.fingerprint
same-session s t (inl e) h = ap (λ f. f.fingerprint) e
same-session s t (inr lt) h = absurd (omega arith)

-- One client serves one identity: of two moments at which the children are rendered with the same
-- client, whatever happens between them, the users that they see have the same fingerprint.
pub client-fingerprint :
    (m : Setup) (es later : List Event)
    → renders (run (mount m) es) ≡ true
    → renders (run (run (mount m) es) later) ≡ true
    → (run (run (mount m) es) later).session.client ≡ (run (mount m) es).session.client
    → identity_fingerprint (exposed (run (run (mount m) es) later)).user
      ≡ identity_fingerprint (exposed (run (mount m) es)).user
client-fingerprint m es later hs ht same =
    let s = run (mount m) es in
    let t = run s later in
    renders-fingerprint t ht
    ∙ same-session s t (run-Follows s later (run-mount-IsFresh m es)) same
    ∙ sym (renders-fingerprint s hs)

fail_closed-no_permission :
    (u : Option User) (p : Permission) → has_permission (fail_closed u) p ≡ false
unfolding has_permission fail_closed
fail_closed-no_permission none p = refl
fail_closed-no_permission (some u) p = refl

no_user-no_permission : (p : Permission) → has_permission none p ≡ false
unfolding has_permission
no_user-no_permission p = refl

-- A user that could not be confirmed has no permission, whatever the failure and the cached data.
pub exposed-no_permission :
    (s : Boundary) (e : Value) (p : Permission)
    → s.query.failure ≡ some e
    → has_permission (exposed s).user p ≡ false
unfolding exposed
exposed-no_permission s e p h =
    ground (arith, fail_closed-no_permission s.query.user p, no_user-no_permission p)

expiry-rotates :
    (s : Boundary)
    → s.expired ≡ false
    → on_session_expiry s
      ≡ rotate "anonymous"
          (record s { expired = true; auth_generation = s.auth_generation + 1; signed_out = true })
unfolding on_session_expiry
expiry-rotates s h = rw h

expiry-done : (s : Boundary) → s.expired ≡ true → on_session_expiry s ≡ s
unfolding on_session_expiry
expiry-done s h = rw h

expiry-expired : (s : Boundary) → (on_session_expiry s).expired ≡ true
unfolding rotate
expiry-expired s = elim (Bool-cases s.expired) [
  | inl h ↦ ap (λ t. t.expired) (expiry-done s h) ∙ h
  | inr h ↦ ap (λ t. t.expired) (expiry-rotates s h)
]

-- An expiry signs the user out once: nobody is exposed, the caches and the identity's state are
-- dropped, requests that are under way are superseded, and a second expiry changes nothing.
pub session_expiry_lem :
    (s : Boundary)
    → s.expired ≡ false
    → ((exposed (on_session_expiry s)).user ≡ none)
      × ((on_session_expiry s).auth_generation ≡ s.auth_generation + 1)
      × ((on_session_expiry s).cleared ≡ s.session.client ∷ s.cleared)
      × ((on_session_expiry s).ui.active_session_id ≡ none)
      × ((on_session_expiry s).lifecycle.unavailable ≡ [])
      × (on_session_expiry (on_session_expiry s) ≡ on_session_expiry s)
unfolding rotate exposed
session_expiry_lem s h =
    let e = expiry-rotates s h in
    (
      ap (λ t. (exposed t).user) e,
      ap (λ t. t.auth_generation) e,
      ap (λ t. t.cleared) e,
      ap (λ t. t.ui.active_session_id) e,
      ap (λ t. t.lifecycle.unavailable) e,
      expiry-done (on_session_expiry s) (expiry-expired s),
    )

opt_eq_self : (o : Option String) → opt_eq o o ≡ true
opt_eq_self none = refl
opt_eq_self (some s) = str_eq_self s

is_last_denied_self : (o : Option String) → is_last_denied o o ≡ true
is_last_denied_self none = refl
is_last_denied_self (some s) = str_eq_self s

denied-last :
    (s : Boundary) → is_last_denied (observed s) s.last_denied ≡ true → on_permission_denied s ≡ s
unfolding on_permission_denied
denied-last s h = rw h

denied-acts :
    (s : Boundary)
    → is_last_denied (observed s) s.last_denied ≡ false
    → s.refreshing ≡ false
    → on_permission_denied s
      ≡ rotate s.session.fingerprint (record s {
        refreshing = true;
        last_denied = observed s;
        refresh_pending = true;
        refetches = s.refetches + 1;
      })
unfolding on_permission_denied
denied-acts s h k = rw (h, k)

-- After a denial the observed identity is the one that was denied last.
denied-recorded :
    (s : Boundary)
    → s.refreshing ≡ false
    → is_last_denied (observed (on_permission_denied s)) (on_permission_denied s).last_denied ≡ true
unfolding rotate exposed observed
denied-recorded s h = elim (Bool-cases (is_last_denied (observed s) s.last_denied)) [
  | inl k ↦ subst (λ t. is_last_denied (observed t) t.last_denied ≡ true) (sym (denied-last s k)) k
  | inr k ↦
      subst (λ t. is_last_denied (observed t) t.last_denied ≡ true) (sym (denied-acts s k h))
        (is_last_denied_self (observed s))
]

refetched-recorded :
    (s : Boundary)
    → is_last_denied (observed s) s.last_denied ≡ true
    → is_last_denied (observed (denied_refetched s)) (denied_refetched s).last_denied ≡ true
unfolding denied_refetched exposed observed
refetched-recorded s h = h

-- A storm of permission denials for one identity starts at most one refetch: further denials change
-- nothing, neither while it runs nor after it has ended with the same identity.
pub permission_denied_once :
    (s : Boundary)
    → s.refreshing ≡ false
    → (on_permission_denied (on_permission_denied s) ≡ on_permission_denied s)
      × (on_permission_denied (denied_refetched (on_permission_denied s))
          ≡ denied_refetched (on_permission_denied s))
permission_denied_once s h = (
  denied-last (on_permission_denied s) (denied-recorded s h),
  denied-last (denied_refetched (on_permission_denied s))
      (refetched-recorded (on_permission_denied s) (denied-recorded s h)),
)

location_refetched-stale :
    (s : Boundary) (older : ℕ) (key : Option String)
    → older ≢ s.refresh_sequence
    → location_refetched older key s ≡ s
unfolding location_refetched
location_refetched-stale s older key h = ground arith

location_refetched-verified :
    (s : Boundary)
    → needs_location_refresh (location_refetched s.refresh_sequence s.authorization_key s) ≡ false
unfolding location_refetched needs_location_refresh
location_refetched-verified s = ground (arith, opt_eq_self s.authorization_key)

refresh_location-key : (s : Boundary) → (refresh_location s).authorization_key ≡ s.authorization_key
unfolding refresh_location
refresh_location-key s = ground arith

-- The refetch for a location counts only if no later one was started: its end verifies the key that
-- it was started for, and the end of an older refetch changes nothing.
pub location_refetched_latest :
    (s : Boundary) (older : ℕ) (key : Option String)
    → older ≢ (refresh_location s).refresh_sequence
    → (location_refetched older key (refresh_location s) ≡ refresh_location s)
      × (needs_location_refresh (
            location_refetched
              (refresh_location s).refresh_sequence
              s.authorization_key
              (refresh_location s))
          ≡ false)
location_refetched_latest s older key h = (
  location_refetched-stale (refresh_location s) older key h,
  subst
      (λ k.
        needs_location_refresh
          (location_refetched (refresh_location s).refresh_sequence k (refresh_location s))
        ≡ false)
      (refresh_location-key s) (location_refetched-verified (refresh_location s)),
)
