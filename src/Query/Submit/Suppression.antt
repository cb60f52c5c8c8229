-- ===== src/Query/Submit/Suppression.antt =====
-- A request whose session is deleted, or that is aborted, leaves no trace on the page.
use query_craft.Common.{
  ℕ, ◌≤◌, ◌<◌, ◌≡◌, ◌≢◌, if◌then◌else◌, ◌==◌, refl, Bool, true, false, String, List, [], ◌∷◌, ◌++◌,
  All, Option, none, some, arith, subst, sym, ◌∙◌, eq_iff,
}
use query_craft.Common.Value.{Value, Settled, resolved, rejected}
use query_craft.Session.Deletion.{
  session_deleted, is_unavailable, did_start, begin_deletion, rollback, unsubscribe,
  deletion_version,
}
use query_craft.Session.Deletion.Laws.{
  Noticed, Noticed-start, Noticed-begin, Noticed-rollback, Noticed-version, version-begin,
}
use query_craft.Query.Submit.State.{
  Hook, clear_states, reset_error, begin_request, end_request, is_deleted,
  is_session_deletion_error, classify_suppression,
}
use query_craft.Query.Submit.Requests.{
  finally, as_deletion, sent, submit_start, submit_body, submit_catch, submit_settle,
}
use query_craft.Query.Submit.Environment.{
  Event, deletes, rolls_back, unmounts, resets, resets_error, identity_changes, on_deletion,
  deliver, delete_session, unmount, happen, pass,
}
use query_craft.Query.Submit.Settling.{Blank}

deliver-lifecycle :
    (calls : List (ℕ × String)) (s : Hook) → (deliver calls s).lifecycle ≡ s.lifecycle
unfolding deliver on_deletion
deliver-lifecycle [] s = refl
deliver-lifecycle ((l, sid) ∷ calls) s =
    deliver-lifecycle calls (if l == s.listener then on_deletion sid s else s) ∙ ground arith

delete_session-lifecycle :
    (sid : String) (s : Hook)
    → (delete_session sid s).lifecycle ≡ (begin_deletion sid s.lifecycle).0
unfolding delete_session
delete_session-lifecycle sid s = deliver-lifecycle (begin_deletion sid s.lifecycle).1 _

-- Every event but a change of the identity, which resets the deletion lifecycle.
abbrev pub SameIdentity : Event → Type 0
SameIdentity identity_changes = ⊥
SameIdentity e = Unit {0}

happen-Noticed :
    (s : Hook) (e : Event) (sid : String) (v : ℕ)
    → SameIdentity e
    → Noticed sid v s.lifecycle
    → Noticed sid v (happen s e).lifecycle
unfolding happen unmount clear_states reset_error unsubscribe deletion_version is_unavailable
happen-Noticed s (deletes other) sid v k n =
    subst (Noticed sid v) (sym (delete_session-lifecycle other s))
      (Noticed-begin s.lifecycle sid other v n)
happen-Noticed s (rolls_back other) sid v k n = Noticed-rollback s.lifecycle sid other v n
happen-Noticed s unmounts sid v k n = record { low = n.low; above = n.above }
happen-Noticed s resets sid v k n = n
happen-Noticed s resets_error sid v k n = n
happen-Noticed s identity_changes sid v k n = absurd k

pass-Noticed :
    (s : Hook) (es : List Event) (sid : String) (v : ℕ)
    → All SameIdentity es
    → Noticed sid v s.lifecycle
    → Noticed sid v (pass s es).lifecycle
unfolding pass
pass-Noticed s [] sid v k n = n
pass-Noticed s (e ∷ es) sid v k n =
    pass-Noticed (happen s e) es sid v k.1 (happen-Noticed s e sid v k.0 n)

-- No other event lowers a version.
happen-version :
    (s : Hook) (e : Event) (sid : String)
    → SameIdentity e
    → deletion_version sid s.lifecycle ≤ deletion_version sid (happen s e).lifecycle
unfolding happen unmount clear_states reset_error rollback unsubscribe deletion_version
happen-version s (deletes other) sid k =
    ground (
      arith,
      delete_session-lifecycle other s,
      version-begin s.lifecycle other sid,
      eq_iff other sid,
    )
happen-version s (rolls_back other) sid k = ground arith
happen-version s unmounts sid k = ground arith
happen-version s resets sid k = ground arith
happen-version s resets_error sid k = ground arith
happen-version s identity_changes sid k = absurd k

pass-version :
    (s : Hook) (es : List Event) (sid : String)
    → All SameIdentity es
    → deletion_version sid s.lifecycle ≤ deletion_version sid (pass s es).lifecycle
unfolding pass
pass-version s [] sid k = omega arith
pass-version s (e ∷ es) sid k =
    omega (arith, happen-version s e sid k.0, pass-version (happen s e) es sid k.1)

pass-append :
    (s : Hook) (before after : List Event) → pass s (before ++ after) ≡ pass (pass s before) after
unfolding pass
pass-append s [] after = refl
pass-append s (e ∷ es) after = pass-append (happen s e) es after

-- A deletion that begins while the request is under way leaves the version above the request's.
pass-deletes :
    (s : Hook) (sid : String) (v : ℕ) (before after : List Event)
    → All SameIdentity before
    → All SameIdentity after
    → Noticed sid v s.lifecycle
    → v < deletion_version sid (pass s (before ++ deletes sid ∷ after)).lifecycle
unfolding pass happen
pass-deletes s sid v before after b a n =
    let t = pass s before in
    ground (
      arith,
      pass-append s before (deletes sid ∷ after),
      Noticed-version t.lifecycle sid v (pass-Noticed s before sid v b n),
      delete_session-lifecycle sid t,
      pass-version (delete_session sid t) after sid a,
    )

pub is_deleted-above :
    (s : Hook) (sid : String) (v : ℕ)
    → sid ≢ ""
    → v < deletion_version sid s.lifecycle
    → is_deleted (some sid) v s ≡ true
unfolding is_deleted did_start
is_deleted-above s sid v named h = ground (arith, eq_iff sid "")

start-facts :
    (s : Hook) (sid : String) (connection : Option String) (v : ℕ)
    → sid ≢ ""
    → (submit_start (some sid) connection s).1 ≡ sent v
    → (is_unavailable sid s.lifecycle ≡ false)
      × (deletion_version sid s.lifecycle ≡ v)
      × ((submit_start (some sid) connection s).0.lifecycle ≡ s.lifecycle)
unfolding submit_start begin_request clear_states
start-facts s sid connection v named h = ground (arith, eq_iff sid "")

-- A request that is sent has noted the version of its session, which is available.
submit_start-Noticed :
    (s : Hook) (sid : String) (connection : Option String) (v : ℕ)
    → sid ≢ ""
    → (submit_start (some sid) connection s).1 ≡ sent v
    → Noticed sid v (submit_start (some sid) connection s).0.lifecycle
submit_start-Noticed s sid connection v named h =
    let f = start-facts s sid connection v named h in
    subst (Noticed sid v) (sym f.2)
      (subst (λ w. Noticed sid w s.lifecycle) f.1 (Noticed-start s.lifecycle sid f.0))

abbrev pub is_deletion_rejection : Settled Value → Bool
is_deletion_rejection (resolved v) = false
is_deletion_rejection (rejected e) = is_session_deletion_error e

-- The page shows nothing, the chosen session is `chosen`, and the operation rejects with a session
-- deletion error.
abbrev pub Suppressed : Option String → Hook × Settled Value → Type 0
Suppressed chosen (s, r) =
    Blank s × (s.active_session_id ≡ chosen) × (is_deletion_rejection r ≡ true)

as_deletion-deletes : (e : Value) → is_session_deletion_error (as_deletion e) ≡ true
unfolding session_deleted is_session_deletion_error
as_deletion-deletes e = ground arith

catch-acts :
    (session : Option String) (version : ℕ) (e : Value) (s : Hook)
    → is_deleted session version s ≡ true
    → submit_catch session version (s, rejected e) ≡ (clear_states s, rejected (as_deletion e))
unfolding submit_catch
catch-acts session version e s h = ground (arith, h)

cleared-Suppressed :
    (e : Value) (s : Hook)
    → Suppressed s.active_session_id (finally (clear_states s, rejected (as_deletion e)))
unfolding end_request clear_states
cleared-Suppressed e s = ((refl, refl, refl, refl, refl), refl, as_deletion-deletes e)

catch-deleted :
    (session : Option String) (version : ℕ) (e : Value) (s : Hook)
    → is_deleted session version s ≡ true
    → Suppressed s.active_session_id (finally (submit_catch session version (s, rejected e)))
catch-deleted session version e s h =
    subst (λ p. Suppressed s.active_session_id (finally p)) (sym (catch-acts session version e s h))
      (cleared-Suppressed e s)

body-deleted :
    (session : Option String) (version : ℕ) (v : Value) (s : Hook)
    → is_deleted session version s ≡ true
    → submit_body session version (resolved v) s ≡ (clear_states s, rejected session_deleted)
unfolding submit_body classify_suppression
body-deleted session version v s h = ground (arith, h)

pub clear_states-deleted :
    (session : Option String) (version : ℕ) (s : Hook)
    → is_deleted session version (clear_states s) ≡ is_deleted session version s
unfolding is_deleted clear_states
clear_states-deleted none version s = refl
clear_states-deleted (some sid) version s = refl

settle-deleted :
    (session : Option String) (version : ℕ) (outcome : Settled Value) (s : Hook)
    → is_deleted session version s ≡ true
    → Suppressed s.active_session_id (submit_settle session version outcome s)
unfolding submit_settle clear_states submit_body
settle-deleted session version (resolved v) s h =
    subst (λ p. Suppressed s.active_session_id (finally (submit_catch session version p)))
      (sym (body-deleted session version v s h))
      (catch-deleted session version session_deleted (clear_states s)
        (clear_states-deleted session version s ∙ h))
settle-deleted session version (rejected e) s h = catch-deleted session version e s h

-- For a submission that is sent for a session with a non-empty id: a deletion of that session that
-- begins at any time before the answer is final. While no other identity takes over, which resets the
-- deletion lifecycle, and whatever else happens, whether the deletion is rolled back, and however the
-- request settles, the page shows nothing, the chosen session stays as it is, and the operation rejects
-- with a session deletion error.
pub deletes-suppresses :
    (s : Hook) (sid : String) (connection : Option String) (v : ℕ) (before after : List Event)
    (outcome : Settled Value)
    → All SameIdentity before
    → All SameIdentity after
    → sid ≢ ""
    → (submit_start (some sid) connection s).1 ≡ sent v
    → Suppressed
        (pass
          (submit_start (some sid) connection s).0
          (before ++ deletes sid ∷ after)).active_session_id
        (submit_settle
          (some sid)
          v
          outcome
          (pass (submit_start (some sid) connection s).0 (before ++ deletes sid ∷ after)))
deletes-suppresses s sid connection v before after outcome b a named h =
    let t = (submit_start (some sid) connection s).0 in
    let u = pass t (before ++ deletes sid ∷ after) in
    settle-deleted (some sid) v outcome u (
      is_deleted-above u sid v named
        (pass-deletes t sid v before after b a (submit_start-Noticed s sid connection v named h)))
