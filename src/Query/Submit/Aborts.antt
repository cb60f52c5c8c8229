-- ===== src/Query/Submit/Aborts.antt =====
-- A request that was aborted withholds what it brings.
use query_craft.Common.{
  ℕ, ◌≡◌, ◌≢◌, refl, true, false, String, Option, some, arith, subst, sym, ap, ◌∙◌,
}
use query_craft.Common.Value.{Value, undefined, Settled, resolved, rejected}
use query_craft.Request.Scope.{Scope, throw_if_aborted, request_aborted, request_deadline}
use query_craft.Session.Deletion.{deletion_version}
use query_craft.Query.Submit.State.{
  Hook, clear_states, end_request, is_deleted, is_session_deletion_error, classify_failure,
  classify_suppression, or_aborted,
}
use query_craft.Query.Submit.Requests.{
  finally, or_null, submit_body, submit_catch, submit_settle, plain_catch, turn_body,
  regenerate_settle, accept_body, accept_settle,
}
use query_craft.Query.Submit.Settling.{Blank}
use query_craft.Query.Submit.Suppression.{
  is_deletion_rejection, clear_states-deleted, is_deleted-above,
}

-- After an abort: the page shows nothing and the operation rejects with `e`.
abbrev pub Withheld : Value → Hook × Settled Value → Type 0
Withheld e (s, r) = Blank s × (r ≡ rejected e)

abbrev pub abort_of : Scope → Value
abort_of s = or_aborted (throw_if_aborted s)

abort_of-kept : (s : Scope) → is_session_deletion_error (abort_of s) ≡ false
unfolding throw_if_aborted is_session_deletion_error request_aborted request_deadline
abort_of-kept s = ground arith

classify_failure-aborted :
    (e : Value) (s : Hook) → s.scope.aborted ≡ true → classify_failure e s ≡ (s, abort_of s.scope)
unfolding classify_failure
classify_failure-aborted e s h = simp h

plain_catch-aborted :
    (e : Value) (s : Hook)
    → s.scope.aborted ≡ true
    → plain_catch (s, rejected e) ≡ (s, rejected (abort_of s.scope))
unfolding plain_catch
plain_catch-aborted e s h = rw (classify_failure-aborted e s h) refl

submit_catch-aborted :
    (session : Option String) (version : ℕ) (e : Value) (s : Hook)
    → s.scope.aborted ≡ true
    → is_session_deletion_error e ≡ false
    → is_deleted session version s ≡ false
    → submit_catch session version (s, rejected e) ≡ (s, rejected (abort_of s.scope))
unfolding submit_catch
submit_catch-aborted session version e s h foreign kept =
    simp (foreign, kept) (rw (classify_failure-aborted e s h) refl)

finally-Withheld :
    (s t : Hook) (p : Hook × Settled Value)
    → p ≡ (t, rejected (abort_of s.scope))
    → Blank t
    → Withheld (abort_of s.scope) (finally p)
unfolding end_request
finally-Withheld s t p h b = subst (λ q. Withheld (abort_of s.scope) (finally q)) (sym h) (b, refl)

clear_states-Blank : (s : Hook) → Blank (clear_states s)
unfolding clear_states
clear_states-Blank s = (refl, refl, refl, refl, refl)

clear_states-scope : (s : Hook) → (clear_states s).scope ≡ s.scope
unfolding clear_states
clear_states-scope s = refl

submit_body-aborted :
    (session : Option String) (version : ℕ) (v : Value) (s : Hook)
    → s.scope.aborted ≡ true
    → is_deleted session version s ≡ false
    → submit_body session version (resolved v) s ≡ (clear_states s, rejected (abort_of s.scope))
unfolding submit_body classify_suppression
submit_body-aborted session version v s h kept = ground (arith, h, kept)

turn_body-aborted :
    (v : Value) (s : Hook)
    → s.scope.aborted ≡ true
    → turn_body (resolved v) s ≡ (clear_states s, rejected (or_null (throw_if_aborted s.scope)))
unfolding turn_body classify_suppression is_deleted
turn_body-aborted v s h = ground (arith, h)

accept_body-aborted :
    (session : Option String) (v : Value) (s : Hook)
    → s.scope.aborted ≡ true
    → is_deleted session 0 s ≡ false
    → accept_body session (resolved v) s
      ≡ (clear_states s, rejected (or_null (throw_if_aborted s.scope)))
unfolding accept_body classify_suppression
accept_body-aborted session v s h kept = ground (arith, h, kept)

submit_settle-aborted :
    (session : Option String) (version : ℕ) (outcome : Settled Value) (s : Hook)
    → s.scope.aborted ≡ true
    → is_deleted session version s ≡ false
    → is_deletion_rejection outcome ≡ false
    → Blank s
    → Withheld (abort_of s.scope) (submit_settle session version outcome s)
unfolding submit_settle submit_body clear_states
submit_settle-aborted session version (rejected e) s h kept foreign b =
    finally-Withheld s s _ (submit_catch-aborted session version e s h foreign kept) b
submit_settle-aborted session version (resolved v) s h kept foreign b =
    finally-Withheld s (clear_states s) _
      (ap (submit_catch session version) (submit_body-aborted session version v s h kept)
        ∙ submit_catch-aborted session version (abort_of s.scope) (clear_states s) h
            (abort_of-kept s.scope) (clear_states-deleted session version s ∙ kept))
      (clear_states-Blank s)

plain_finally-Withheld :
    (e : Value) (s t : Hook) (p : Hook × Settled Value)
    → p ≡ (t, rejected e)
    → t.scope ≡ s.scope
    → s.scope.aborted ≡ true
    → Blank t
    → Withheld (abort_of s.scope) (finally (plain_catch p))
plain_finally-Withheld e s t p h same stopped b =
    finally-Withheld s t _
      (ap plain_catch h
        ∙ plain_catch-aborted e t (ap (λ c. c.aborted) same ∙ stopped)
        ∙ ap (λ c. (t, rejected (abort_of c))) same)
      b

regenerate_settle-aborted :
    (outcome : Settled Value) (s : Hook)
    → s.scope.aborted ≡ true
    → Blank s
    → Withheld (abort_of s.scope) (regenerate_settle outcome s)
unfolding regenerate_settle turn_body
regenerate_settle-aborted (rejected e) s h b = plain_finally-Withheld e s s _ refl refl h b
regenerate_settle-aborted (resolved v) s h b =
    plain_finally-Withheld (or_null (throw_if_aborted s.scope)) s (clear_states s) _
      (turn_body-aborted v s h) (clear_states-scope s) h (clear_states-Blank s)

accept_settle-aborted :
    (session : Option String) (outcome : Settled Value) (s : Hook)
    → s.scope.aborted ≡ true
    → is_deleted session 0 s ≡ false
    → Blank s
    → Withheld (abort_of s.scope) (accept_settle session outcome s)
unfolding accept_settle accept_body
accept_settle-aborted session (rejected e) s h kept b = plain_finally-Withheld e s s _ refl refl h b
accept_settle-aborted session (resolved v) s h kept b =
    plain_finally-Withheld (or_null (throw_if_aborted s.scope)) s (clear_states s) _
      (accept_body-aborted session v s h kept) (clear_states-scope s) h (clear_states-Blank s)

-- An operation whose scope was aborted, on a page that shows nothing yet and of a session of which
-- no deletion ever began, withholds its answer and its failure, if that is no session deletion
-- error: the page still shows nothing and the operation rejects with the scope's abort error.
pub settle-aborted :
    (session : Option String) (outcome : Settled Value) (s : Hook)
    → s.scope.aborted ≡ true
    → is_deleted session 0 s ≡ false
    → is_deletion_rejection outcome ≡ false
    → Blank s
    → Withheld (abort_of s.scope) (submit_settle session 0 outcome s)
      × Withheld (abort_of s.scope) (regenerate_settle outcome s)
      × Withheld (abort_of s.scope) (accept_settle session outcome s)
settle-aborted session outcome s h kept foreign b = (
  submit_settle-aborted session 0 outcome s h kept foreign b,
  regenerate_settle-aborted outcome s h b,
  accept_settle-aborted session outcome s h kept b,
)

accept_body-deleted :
    (session : Option String) (v : Value) (s : Hook)
    → is_deleted session 0 s ≡ true
    → accept_body session (resolved v) s ≡ (s, resolved undefined)
unfolding accept_body classify_suppression
accept_body-deleted session v s h = ground (arith, h)

is_deleted-version :
    (sid : String) (s : Hook)
    → sid ≢ ""
    → deletion_version sid s.lifecycle ≢ 0
    → is_deleted (some sid) 0 s ≡ true
is_deleted-version sid s named h = is_deleted-above s sid 0 named (ground (arith, h))

-- Once a deletion of a session with a non-empty id has ever begun, be it rolled back since, an
-- accept of that session whose request is answered resolves, whether or not its scope was aborted
-- in the meantime.
pub accept_settle-version :
    (sid : String) (v : Value) (s : Hook)
    → sid ≢ ""
    → deletion_version sid s.lifecycle ≢ 0
    → (accept_settle (some sid) (resolved v) s).1 ≡ resolved undefined
unfolding accept_settle plain_catch
accept_settle-version sid v s named h =
    ap (λ p. (finally (plain_catch p)).1)
      (accept_body-deleted (some sid) v s (is_deleted-version sid s named h))
