-- ===== src/Auth/Identity/Generations.antt =====
-- Requests that an authentication change has overtaken, and the time between a sign-out and the next
-- sign-in.
use query_craft.Common.{
  ℕ, ◌+◌, ◌≤◌, ◌<◌, ◌==◌, ◌≡◌, refl, true, false, String, List, [], ◌∷◌, none, arith, All,
}
use query_craft.Common.Value.{Value, Settled, resolved, rejected}
use query_craft.Auth.Permissions.{User}
use query_craft.Auth.Expiry.{is_session_expiry}
use query_craft.Auth.Identity.State.{Boundary, exposed}
use query_craft.Auth.Identity.Events.{
  rotate, on_session_expiry, on_permission_denied, denied_refetched, publish_session_expiry,
  handle_feature_error, on_response, refresh_location, location_refetched, begin_auth_transition,
  sign_in_succeeded, sign_out_succeeded, transition_failed, synchronize_identity, current_user_fn,
  settle_failure, status_error, superseded, Event, session_expires, permission_denied,
  denied_refetch_ends, location_changed, transition_begins, transition_fails, signs_out,
  identity_changed, signs_in, query_changes, navigates, location_refetch_ends, feature_fails,
  responds, fetches_user, step, run,
}

-- No generation is lowered, and nobody who is signed out is signed in.
pub record Keeps (s t : Boundary) : Type 0 where
  pub newer : s.auth_generation ≤ t.auth_generation
  pub out : s.signed_out ≡ true → t.signed_out ≡ true

expiry-Keeps : (s : Boundary) → Keeps s (on_session_expiry s)
unfolding on_session_expiry rotate
expiry-Keeps s = ground arith

denied-Keeps : (s : Boundary) → Keeps s (on_permission_denied s)
unfolding on_permission_denied rotate
denied-Keeps s = ground arith

publish-Keeps :
    (e : Value) (source : String) (s : Boundary) → Keeps s (publish_session_expiry e source s).0
unfolding publish_session_expiry
publish-Keeps e source s = ground (arith, expiry-Keeps s, (expiry-Keeps s).out)

Keeps-trans : (s t u : Boundary) → Keeps s t → Keeps t u → Keeps s u
Keeps-trans s t u h k = record {
  newer = omega (arith, h.newer, k.newer);
  out = λ o. k.out (h.out o);
}

Keeps-refl : (s : Boundary) → Keeps s s
Keeps-refl s = ground arith

feature-Keeps : (e : Value) (s : Boundary) → Keeps s (handle_feature_error e s)
unfolding handle_feature_error
feature-Keeps e s =
    let t = (publish_session_expiry e s.location.pathname s).0 in
    ground (
      arith,
      publish-Keeps e s.location.pathname s,
      Keeps-trans s t (on_permission_denied t) (publish-Keeps e s.location.pathname s)
          (denied-Keeps t),
    )

response-Keeps : (path : String) (status : ℕ) (s : Boundary) → Keeps s (on_response path status s)
unfolding on_response
response-Keeps path status s =
    ground
      (arith, Keeps-refl s, publish-Keeps (status_error 401) s.location.pathname s, denied-Keeps s)

fetch-Keeps :
    (n : ℕ) (source : String) (o : Settled User) (s : Boundary)
    → Keeps s (current_user_fn n source o s).1
unfolding current_user_fn
fetch-Keeps n source (resolved u) s =
    ground (arith, Keeps-refl s, publish-Keeps superseded source s)
fetch-Keeps n source (rejected e) s = publish-Keeps e source s

-- Every event but a sign-in.
abbrev pub NoSignIn : Event → Type 0
NoSignIn (signs_in q) = ⊥
NoSignIn e = Unit {0}

step-Keeps : (s : Boundary) (e : Event) → NoSignIn e → Keeps s (step s e)
unfolding step denied_refetched refresh_location begin_auth_transition transition_failed
    sign_out_succeeded synchronize_identity location_refetched rotate
step-Keeps s session_expires h = expiry-Keeps s
step-Keeps s permission_denied h = denied-Keeps s
step-Keeps s denied_refetch_ends h = ground arith
step-Keeps s location_changed h = ground arith
step-Keeps s transition_begins h = ground arith
step-Keeps s transition_fails h = ground arith
step-Keeps s signs_out h = ground arith
step-Keeps s identity_changed h = ground arith
step-Keeps s (signs_in q) h = absurd h
step-Keeps s (query_changes q) h = ground arith
step-Keeps s (navigates key) h = ground arith
step-Keeps s (location_refetch_ends n key) h = ground arith
step-Keeps s (feature_fails e) h = feature-Keeps e s
step-Keeps s (responds path status) h = response-Keeps path status s
step-Keeps s (fetches_user n source outcome) h = fetch-Keeps n source outcome s

run-Keeps : (s : Boundary) (es : List Event) → All NoSignIn es → Keeps s (run s es)
unfolding run
run-Keeps s [] h = Keeps-refl s
run-Keeps s (e ∷ es) h =
    Keeps-trans s (step s e) (run (step s e) es) (step-Keeps s e h.0) (run-Keeps (step s e) es h.1)

step-generation-le : (s : Boundary) (e : Event) → s.auth_generation ≤ (step s e).auth_generation
unfolding step sign_in_succeeded
step-generation-le s (signs_in q) = omega arith
step-generation-le s e = (step-Keeps s e tt).newer

run-generation-le :
    (s : Boundary) (es : List Event) → s.auth_generation ≤ (run s es).auth_generation
unfolding run
run-generation-le s [] = omega arith
run-generation-le s (e ∷ es) =
    omega (arith, step-generation-le s e, run-generation-le (step s e) es)

expiry-signed_out : (s : Boundary) → s.expired ≡ false → (on_session_expiry s).signed_out ≡ true
unfolding on_session_expiry rotate
expiry-signed_out s h = ground arith

signed_out-exposed : (s : Boundary) → s.signed_out ≡ true → (exposed s).user ≡ none
unfolding exposed
signed_out-exposed s h = ground arith

-- From the first expiry of a session until the next sign-in nobody is exposed to the application,
-- whatever the cached query holds and whatever else happens.
pub expired-until_sign_in :
    (s : Boundary) (es : List Event)
    → s.expired ≡ false
    → All NoSignIn es
    → (exposed (run (on_session_expiry s) es)).user ≡ none
expired-until_sign_in s es h quiet =
    signed_out-exposed _ ((run-Keeps (on_session_expiry s) es quiet).out (expiry-signed_out s h))

begin-generation :
    (s : Boundary) → (begin_auth_transition s).auth_generation ≡ s.auth_generation + 1
unfolding begin_auth_transition rotate
begin-generation s = refl

-- What a request of an older generation rejects with.
abbrev pub refusal : Settled User → Value
refusal (resolved u) = superseded
refusal (rejected e) = e

-- A failure that does not say that the session has expired, or any success.
abbrev pub IsNoExpiry : Settled User → Type 0
IsNoExpiry (resolved u) = Unit {0}
IsNoExpiry (rejected e) = is_session_expiry e ≡ false

passed_on :
    (e : Value) (source : String) (t : Boundary)
    → is_session_expiry e ≡ false
    → settle_failure (rejected e) source t ≡ (rejected e, t)
unfolding publish_session_expiry
passed_on e source t h = rw (publish_session_expiry, h)

failed_user :
    (n : ℕ) (source : String) (e : Value) (t : Boundary)
    → is_session_expiry e ≡ false
    → current_user_fn n source (rejected e) t ≡ (rejected e, t)
unfolding current_user_fn
failed_user n source e t h = passed_on e source t h

superseded_quiet : is_session_expiry superseded ≡ false
unfolding is_session_expiry superseded
superseded_quiet = refl

stale_user :
    (n : ℕ) (source : String) (u : User) (t : Boundary)
    → n < t.auth_generation
    → current_user_fn n source (resolved u) t ≡ (rejected superseded, t)
unfolding current_user_fn
stale_user n source u t h =
    let e : (n == t.auth_generation) ≡ false = ground arith in
    rw (current_user_fn, e) (passed_on superseded source t superseded_quiet)

-- A request for the current user that was sent before a sign-in or sign-out began gives no user and
-- leaves the boundary as it is, however long its answer takes and whatever happens until then: an
-- answered user is dropped, and a failure is passed on. The one exception is a failure that says that
-- the session has expired, which is published as any other.
pub begin_auth_transition-superseded :
    (s : Boundary) (es : List Event) (source : String) (answer : Settled User)
    → IsNoExpiry answer
    → current_user_fn s.auth_generation source answer (run (begin_auth_transition s) es)
      ≡ (rejected (refusal answer), run (begin_auth_transition s) es)
begin_auth_transition-superseded s es source answer h = by_answer answer h
  where
    t : Boundary
    t = run (begin_auth_transition s) es

    by_answer :
        (o : Settled User)
        → IsNoExpiry o
        → current_user_fn s.auth_generation source o t ≡ (rejected (refusal o), t)
    by_answer (resolved u) k =
        stale_user s.auth_generation source u t
          (omega (arith, begin-generation s, run-generation-le (begin_auth_transition s) es))
    by_answer (rejected e) k = failed_user s.auth_generation source e t k
