-- ===== src/Query/Submit/Settling.antt =====
-- However a request settles, the hook is ready for the next one and shows at most one message.
use query_craft.Common.{
  ℕ, ◌+◌, ◌≡◌, if◌then◌else◌, not, ◌&&◌, refl, Bool, true, false, String, Option, none, some, arith,
  subst, sym,
}
use query_craft.Common.Value.{
  Value, Settled, resolved, rejected, get, has, is_object, is_str, undefined,
}
use query_craft.Request.Scope.{is_abort_failure}
use query_craft.Query.Submit.State.{
  names, own_or_detail, hostile_input_blocked, quota_exceeded, service_unavailable, network, Hook,
  Failure, handle_code, handle_keys, handle_error, begin_request, end_request, classify_failure,
  is_deleted, is_session_deletion_error,
}
use query_craft.Query.Submit.Requests.{
  Start, refused, sent, submit_start, plain_start, submit_body, submit_catch, submit_settle,
  turn_body, accept_body, plain_catch, regenerate_settle, reject_settle, accept_settle,
  without_value,
}

pub record IsIdle (s : Hook) : Type 0 where
  pub unlocked : s.submitting ≡ false
  pub calm : s.is_submitting ≡ false
  pub released : s.active ≡ none

end_request-IsIdle : (s : Hook) → IsIdle (end_request s)
unfolding end_request
end_request-IsIdle s = ground arith

without_value-state : (p : Hook × Settled Value) → (without_value p).0 ≡ p.0
without_value-state (s, resolved v) = refl
without_value-state (s, rejected e) = refl

reject_settle-IsIdle : (outcome : Settled Value) (s : Hook) → IsIdle (reject_settle outcome s).0
unfolding reject_settle regenerate_settle
reject_settle-IsIdle outcome s =
    subst IsIdle (sym (without_value-state (regenerate_settle outcome s))) (end_request-IsIdle _)

-- Whatever the outcome of a request and the state that it meets, each of the four operations leaves
-- the hook unlocked, with no active request.
pub settle-IsIdle :
    (session : Option String) (version : ℕ) (outcome : Settled Value) (s : Hook)
    → IsIdle (submit_settle session version outcome s).0
      × IsIdle (reject_settle outcome s).0
      × IsIdle (regenerate_settle outcome s).0
      × IsIdle (accept_settle session outcome s).0
unfolding submit_settle reject_settle regenerate_settle accept_settle
settle-IsIdle session version outcome s = (
  end_request-IsIdle _,
  reject_settle-IsIdle outcome s,
  end_request-IsIdle _,
  end_request-IsIdle _,
)

abbrev pub is_sent : Start → Bool
is_sent (refused e) = false
is_sent (sent version) = true

-- A request that is under way locks the hook: no operation sends another, and the state stays as it
-- is, but for the message that a connection is missing.
pub locked_refuses :
    (session connection : Option String) (s : Hook)
    → s.submitting ≡ true
    → (begin_request session s ≡ none)
      × ((plain_start session s).0 ≡ s)
      × ((submit_start session connection s).0.scope ≡ s.scope)
      × ((submit_start session connection s).0.active ≡ s.active)
      × (is_sent (submit_start session connection s).1 ≡ false)
      × (is_sent (plain_start session s).1 ≡ false)
unfolding submit_start plain_start begin_request
locked_refuses session connection s h = ground arith

abbrev one_if {ℓ} : {A : Type ℓ} → Option A → ℕ
one_if none = 0
one_if (some a) = 1

abbrev one_if_true : Bool → ℕ
one_if_true b = if b then 1 else 0

-- How many messages and results the page shows.
abbrev pub shown : Hook → ℕ
shown s =
    one_if s.result
    + one_if s.refine_prompt
    + one_if s.evaluator_rejection
    + one_if_true s.timeout
    + one_if s.error

-- The page shows nothing yet.
abbrev pub Blank : Hook → Type 0
Blank s =
    (s.result ≡ none)
    × (s.refine_prompt ≡ none)
    × (s.evaluator_rejection ≡ none)
    × (s.timeout ≡ false)
    × (s.error ≡ none)

-- One message or result is shown. A record, so that a branch of the code is known by its type.
pub record ShowsOne (s : Hook) : Type 0 where
  pub one : shown s ≡ 1

if-shown : (b : Bool) (t u : Hook) → ShowsOne t → ShowsOne u → ShowsOne (if b then t else u)
if-shown true t u h k = h
if-shown false t u h k = k

failure-shown : (f : Failure) (s : Hook) → Blank s → ShowsOne (record s { error = some f })
failure-shown f s b = ground arith

handle_code-shown : (code : Value) (s : Hook) → Blank s → ShowsOne (handle_code code s)
unfolding handle_code
handle_code-shown code s b = ground arith

handle_keys-shown : (e : Value) (s : Hook) → Blank s → ShowsOne (handle_keys e s)
unfolding handle_keys
handle_keys-shown e s b =
    if-shown (names "error.hostile_input_blocked" "hostile_input_blocked" e) _ _
      (failure-shown (record { kind = hostile_input_blocked; reset_at = undefined }) s b)
      (if-shown (names "error.quota_exceeded" "quota_exceeded" e) _ _
        (failure-shown (record { kind = quota_exceeded; reset_at = own_or_detail "reset_at" e }) s
          b)
        (if-shown (names "error.service_unavailable" "service_unavailable" e) _
          (handle_code (get "error" e) s)
          (failure-shown (record { kind = service_unavailable; reset_at = undefined }) s b)
          (handle_code-shown (get "error" e) s b)))

rejection-shown :
    (e : Value) (s : Hook) → Blank s → ShowsOne (record s { evaluator_rejection = some e })
rejection-shown e s b = ground arith

refine-shown : (e : Value) (s : Hook) → Blank s → ShowsOne (record s { refine_prompt = some e })
refine-shown e s b = ground arith

result-shown : (e : Value) (s : Hook) → Blank s → ShowsOne (record s { result = some e })
result-shown e s b = ground arith

-- A failure that is not suppressed shows one message.
handle_error-shown : (e : Value) (s : Hook) → Blank s → ShowsOne (handle_error e s)
unfolding handle_error
handle_error-shown e s b =
    if-shown (not (is_object e)) _ _
      (failure-shown (record { kind = network; reset_at = undefined }) s b)
      (if-shown (has "violations" e) _ _ (rejection-shown e s b) (
        if-shown (has "kind" e && is_str "refine" (get "kind" e)) _ (handle_keys e s)
          (refine-shown e s b) (handle_keys-shown e s b)))

classify_failure-handles :
    (e : Value) (s : Hook)
    → s.scope.aborted ≡ false
    → is_abort_failure e ≡ false
    → classify_failure e s ≡ (handle_error e s, e)
unfolding classify_failure
classify_failure-handles e s live foreign = simp (live, foreign)

end_request-shown : (s : Hook) → ShowsOne s → ShowsOne (end_request s)
unfolding end_request
end_request-shown s h = record { one = h.one }

plain_catch-handles :
    (e : Value) (s : Hook)
    → s.scope.aborted ≡ false
    → is_abort_failure e ≡ false
    → plain_catch (s, rejected e) ≡ (handle_error e s, rejected e)
unfolding plain_catch
plain_catch-handles e s live foreign = rw (classify_failure-handles e s live foreign)

submit_catch-handles :
    (session : Option String) (version : ℕ) (e : Value) (s : Hook)
    → s.scope.aborted ≡ false
    → is_abort_failure e ≡ false
    → is_session_deletion_error e ≡ false
    → is_deleted session version s ≡ false
    → submit_catch session version (s, rejected e) ≡ (handle_error e s, rejected e)
unfolding submit_catch
submit_catch-handles session version e s live foreign other kept =
    simp (other, kept) (rw (classify_failure-handles e s live foreign))

-- One message is shown, and the operation rejects with `e`.
abbrev pub Reports : Value → Hook × Settled Value → Type 0
Reports e (s, r) = ShowsOne s × (r ≡ rejected e)

finally-Reports :
    (e : Value) (s : Hook) (p : Hook × Settled Value)
    → p ≡ (handle_error e s, rejected e)
    → Blank s
    → Reports e (end_request p.0, p.1)
finally-Reports e s p h b =
    subst (λ q. Reports e (end_request q.0, q.1)) (sym h)
      (end_request-shown (handle_error e s) (handle_error-shown e s b), refl)

-- A server's failure reaches the page: where the request was not aborted and its session is not
-- deleted, an operation that is rejected shows one message, on a page that showed none, and rejects
-- with the same error.
pub settle-rejected :
    (session : Option String) (version : ℕ) (e : Value) (s : Hook)
    → s.scope.aborted ≡ false
    → is_abort_failure e ≡ false
    → is_session_deletion_error e ≡ false
    → is_deleted session version s ≡ false
    → Blank s
    → Reports e (submit_settle session version (rejected e) s)
      × Reports e (regenerate_settle (rejected e) s)
      × Reports e (accept_settle session (rejected e) s)
unfolding submit_settle submit_body regenerate_settle turn_body accept_settle accept_body
settle-rejected session version e s live foreign other kept b =
    let plain =
      finally-Reports e s (plain_catch (s, rejected e)) (plain_catch-handles e s live foreign) b in
    (
      finally-Reports e s (submit_catch session version (s, rejected e))
          (submit_catch-handles session version e s live foreign other kept) b,
      plain,
      plain,
    )
