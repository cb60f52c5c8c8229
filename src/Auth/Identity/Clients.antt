-- ===== src/Auth/Identity/Clients.antt =====
-- A client of the feature queries is never used again once it is cleared.
use query_craft.Common.{
  ℕ, ◌+◌, ◌<◌, ◌≡◌, ◌⊎◌, refl, sym, subst, ◌∙◌, inl, inr, Bool, true, false, String, List, [], ◌∷◌,
  Option, none, some, arith, All, All-imp, Bool-cases, if◌then◌else◌,
}
use query_craft.Auth.Permissions.{User}
use query_craft.Auth.Expiry.{is_session_expiry}
use query_craft.Common.Value.{Value, Settled, resolved, rejected}
use query_craft.Auth.Identity.State.{Boundary, observed, Setup, mount}
use query_craft.Auth.Identity.Events.{
  rotate, on_session_expiry, on_permission_denied, denied_refetched, publish_session_expiry,
  handle_feature_error, on_response, refresh_location, location_refetched, begin_auth_transition,
  sign_in_succeeded, sign_out_succeeded, transition_failed, synchronize_identity, current_user_fn,
  rotate_to, settle_failure, Event, session_expires, permission_denied, denied_refetch_ends,
  location_changed, transition_begins, transition_fails, signs_out, identity_changed, signs_in,
  query_changes, navigates, location_refetch_ends, feature_fails, responds, fetches_user, step, run,
}

-- Every cleared client is older than the client in use, and that is older than the next one.
pub record IsFresh (s : Boundary) : Type 0 where
  pub older : All (λ c. c < s.session.client) s.cleared
  pub newest : s.session.client < s.next_client

-- The feature session is the same, or its client is newer.
abbrev pub Follows : Boundary → Boundary → Type 0
Follows s t = (t.session ≡ s.session) ⊎ (s.session.client < t.session.client)

abbrev Advances : Boundary → Boundary → Type 0
Advances s t = IsFresh t × Follows s t

rotate-Advances : (f : String) (s : Boundary) → IsFresh s → Advances s (rotate f s)
unfolding rotate
rotate-Advances f s v = (
  record {
    older = (
      v.newest,
      All-imp (λ c. c < s.session.client) (λ c. c < s.next_client) (λ c h. omega (arith, v.newest))
          s.cleared v.older,
    );
    newest = omega arith;
  },
  inr v.newest,
)

stay-Advances : (s : Boundary) → IsFresh s → Advances s s
stay-Advances s v = (v, inl refl)

if-Advances :
    (b : Bool) (s t u : Boundary) → Advances s t → Advances s u → Advances s (if b then t else u)
if-Advances true s t u h k = h
if-Advances false s t u h k = k

expiry-Advances : (s : Boundary) → IsFresh s → Advances s (on_session_expiry s)
unfolding on_session_expiry
expiry-Advances s v = if-Advances s.expired s s _ (stay-Advances s v) (
    rotate-Advances "anonymous"
      (record s { expired = true; auth_generation = s.auth_generation + 1; signed_out = true })
      (record { older = v.older; newest = v.newest }))

denied-Advances : (s : Boundary) → IsFresh s → Advances s (on_permission_denied s)
unfolding on_permission_denied
denied-Advances s v =
    if-Advances _ s s _ (stay-Advances s v)
      (rotate-Advances s.session.fingerprint _ (record { older = v.older; newest = v.newest }))

location-Advances : (s : Boundary) → IsFresh s → Advances s (refresh_location s)
unfolding refresh_location
location-Advances s v =
    if-Advances _ s s _ (stay-Advances s v)
      (record { older = v.older; newest = v.newest }, inl refl)

publish-Advances :
    (e : Value) (source : String) (s : Boundary)
    → IsFresh s
    → Advances s (publish_session_expiry e source s).0
unfolding publish_session_expiry
publish-Advances e source s v = elim (Bool-cases (is_session_expiry e)) [
  | inl h ↦
      let (w, f) = expiry-Advances s v in rw h (record { older = w.older; newest = w.newest }, f)
  | inr h ↦ rw h (stay-Advances s v)
]

Follows-trans : (s t u : Boundary) → Follows s t → Follows t u → Follows s u
Follows-trans s t u (inl h) (inl k) = inl (k ∙ h)
Follows-trans s t u (inl h) (inr k) = inr (subst (λ f. f.client < u.session.client) h k)
Follows-trans s t u (inr h) (inl k) = inr (subst (λ f. s.session.client < f.client) (sym k) h)
Follows-trans s t u (inr h) (inr k) = inr (omega arith)

feature-Advances : (e : Value) (s : Boundary) → IsFresh s → Advances s (handle_feature_error e s)
unfolding handle_feature_error
feature-Advances e s v =
    let t = (publish_session_expiry e s.location.pathname s).0 in
    let (w, f) = publish-Advances e s.location.pathname s v in
    let (x, g) = denied-Advances t w in
    if-Advances _ s t _ (w, f)
      (if-Advances _ s (on_permission_denied t) t
        (x, Follows-trans s t (on_permission_denied t) f g) (w, f))

response-Advances :
    (path : String) (status : ℕ) (s : Boundary) → IsFresh s → Advances s (on_response path status s)
unfolding on_response
response-Advances path status s v = if-Advances _ s s _ (stay-Advances s v) (
    if-Advances _ s _ _ (publish-Advances _ _ s v)
      (if-Advances _ s _ s (denied-Advances s v) (stay-Advances s v)))

transition-Advances : (s : Boundary) → IsFresh s → Advances s (begin_auth_transition s)
unfolding begin_auth_transition
transition-Advances s v =
    rotate-Advances s.session.fingerprint
      (record s { auth_generation = s.auth_generation + 1; transition_pending = true })
      (record { older = v.older; newest = v.newest })

rotate_to-Advances : (o : Option String) (s : Boundary) → IsFresh s → Advances s (rotate_to o s)
rotate_to-Advances none s v = stay-Advances s v
rotate_to-Advances (some f) s v = rotate-Advances f s v

synchronize-Advances : (s : Boundary) → IsFresh s → Advances s (synchronize_identity s)
unfolding synchronize_identity
synchronize-Advances s v =
    if-Advances _ s _ s (rotate_to-Advances (observed s) s v) (stay-Advances s v)

settle-Advances :
    (o : Settled User) (source : String) (s : Boundary)
    → IsFresh s
    → Advances s (settle_failure o source s).1
settle-Advances (resolved u) source s v = stay-Advances s v
settle-Advances (rejected e) source s v = publish-Advances e source s v

fetch-Advances :
    (n : ℕ) (source : String) (o : Settled User) (s : Boundary)
    → IsFresh s
    → Advances s (current_user_fn n source o s).1
unfolding current_user_fn
fetch-Advances n source (resolved u) s v = settle-Advances _ source s v
fetch-Advances n source (rejected e) s v = settle-Advances (rejected e) source s v

step-Advances : (s : Boundary) (e : Event) → IsFresh s → Advances s (step s e)
unfolding step denied_refetched transition_failed sign_out_succeeded sign_in_succeeded
    location_refetched
step-Advances s session_expires v = expiry-Advances s v
step-Advances s permission_denied v = denied-Advances s v
step-Advances s denied_refetch_ends v = (record { older = v.older; newest = v.newest }, inl refl)
step-Advances s location_changed v = location-Advances s v
step-Advances s transition_begins v = transition-Advances s v
step-Advances s transition_fails v = (record { older = v.older; newest = v.newest }, inl refl)
step-Advances s signs_out v = (record { older = v.older; newest = v.newest }, inl refl)
step-Advances s identity_changed v = synchronize-Advances s v
step-Advances s (signs_in q) v = (record { older = v.older; newest = v.newest }, inl refl)
step-Advances s (query_changes q) v = (record { older = v.older; newest = v.newest }, inl refl)
step-Advances s (navigates key) v = (record { older = v.older; newest = v.newest }, inl refl)
step-Advances s (location_refetch_ends n key) v =
    if-Advances _ s _ s (record { older = v.older; newest = v.newest }, inl refl)
      (stay-Advances s v)
step-Advances s (feature_fails e) v = feature-Advances e s v
step-Advances s (responds path status) v = response-Advances path status s v
step-Advances s (fetches_user n source outcome) v = fetch-Advances n source outcome s v

run-Advances : (s : Boundary) (es : List Event) → IsFresh s → Advances s (run s es)
unfolding run
run-Advances s [] v = stay-Advances s v
run-Advances s (e ∷ es) v =
    let (w, f) = step-Advances s e v in
    let (x, g) = run-Advances (step s e) es w in
    (x, Follows-trans s (step s e) (run (step s e) es) f g)

pub run-Follows : (s : Boundary) (es : List Event) → IsFresh s → Follows s (run s es)
run-Follows s es v = (run-Advances s es v).1

-- Whatever happens after the mount, no cleared client is the one in use, nor will be one that a later
-- rotation makes: clients come in increasing order.
pub run-mount-IsFresh : (m : Setup) (es : List Event) → IsFresh (run (mount m) es)
unfolding mount
run-mount-IsFresh m es = (run-Advances (mount m) es (record { older = tt; newest = omega arith })).0
