-- ===== src/Workspace/Settling.antt =====
-- What becomes of a submission's turn in frontend/src/pages/WorkspacePage.tsx.
use query_craft.Common.{
  ◌≡◌, refl, ◌∙◌, String, Bool, true, false, not, ◌&&◌, ◌||◌, List, [], ◌∷◌, none, some, arith,
  keep, keep-All, str_eq, All, All-imp, Bool-cases, Option-cases, inl, inr, if◌then◌else◌,
}
use query_craft.Common.Value.{Value, Settled, resolved, rejected, has, is_str}
use query_craft.Request.Scope.{is_request_aborted}
use query_craft.Query.Submit.State.{own_or_detail, names, is_session_deletion_error}
use query_craft.Workspace.Answers.{is_kind}
use query_craft.Workspace.Turns.{Turn, Connection, map_api_error_to_connection_error_kind}
use query_craft.Workspace.Page.{Page, change_where, session_effect, switch_session}
use query_craft.Workspace.Submitting.{
  Submission, handle_submit_start, submit_accepted, submit_failed, submit_failed_other,
  submit_failed_code, handle_submit_settle, settle_turn, drop_turn, drop_with_alert,
  invalidate_session,
}

-- The turn of the submission is not loading.
abbrev pub IsDone : Submission → Turn → Type 0
IsDone s t = (str_eq t.id s.turn_id && t.is_loading) ≡ false

-- A change of a turn that leaves its id and whether it loads.
abbrev pub IsQuiet : (Turn → Turn) → Type 0
IsQuiet patch = (t : Turn) → ((patch t).id ≡ t.id) × ((patch t).is_loading ≡ t.is_loading)

change-IsDone :
    (s : Submission) (patch : Turn → Turn) (ts : List Turn)
    → IsQuiet patch
    → All (IsDone s) (
        change_where
          (λ t. str_eq t.id s.turn_id)
          (λ t. patch (record t { question = s.question; is_loading = false }))
          ts)
change-IsDone s patch [] q = tt
change-IsDone s patch (t ∷ ts) q = (by_id (str_eq t.id s.turn_id) refl, change-IsDone s patch ts q)
  where
    changed : Turn
    changed = patch (record t { question = s.question; is_loading = false })

    by_id : (b : Bool) → str_eq t.id s.turn_id ≡ b → IsDone s (if b then changed else t)
    by_id true e = ground (arith, q (record t { question = s.question; is_loading = false }))
    by_id false e = ground (arith, e)

drop-IsDone :
    (s : Submission) (ts : List Turn) → All (IsDone s) (keep (λ t. not (str_eq t.id s.turn_id)) ts)
drop-IsDone s ts =
    All-imp (λ t. not (str_eq t.id s.turn_id) ≡ true) (IsDone s) (λ t h. ground (arith, h)) _
      (keep-All (λ t. not (str_eq t.id s.turn_id)) ts)

abbrev pub IsPageDone : Submission → Page → Type 0
IsPageDone s p = All (IsDone s) p.local_turns

-- The turn is done, and the fields that decide what another session does to the page are as before.
record IsWell (s : Submission) (p q : Page) : Type 0 where
  is_done : IsPageDone s q
  rendered : q.rendered_session_id ≡ p.rendered_session_id
  prev : q.prev_session_id ≡ p.prev_session_id
  pending : q.pending_submit ≡ p.pending_submit
  active : q.active_session_id ≡ p.active_session_id

settled-IsWell :
    (s : Submission) (patch : Turn → Turn) (p : Page)
    → IsQuiet patch
    → IsWell s p (settle_turn s patch p)
unfolding settle_turn
settled-IsWell s patch p q = record {
  is_done = change-IsDone s patch p.local_turns q;
  rendered = refl;
  prev = refl;
  pending = refl;
  active = refl;
}

dropped-IsWell : (s : Submission) (p : Page) → IsWell s p (drop_turn s p)
unfolding drop_turn
dropped-IsWell s p = record {
  is_done = drop-IsDone s p.local_turns;
  rendered = refl;
  prev = refl;
  pending = refl;
  active = refl;
}

alert-IsWell : (s : Submission) (title : String) (p : Page) → IsWell s p (drop_with_alert title s p)
unfolding drop_with_alert drop_turn
alert-IsWell s title p = record {
  is_done = drop-IsDone s p.local_turns;
  rendered = refl;
  prev = refl;
  pending = refl;
  active = refl;
}

failed_code-IsWell : (s : Submission) (e : Value) (p : Page) → IsWell s p (submit_failed_code s e p)
unfolding submit_failed_code
failed_code-IsWell s e p = elim (Bool-cases (is_str "concurrent" code)) [
  | inl h ↦ rw (submit_failed_code, h) (alert-IsWell s "query.error.concurrent" p)
  | inr h ↦ elim (Bool-cases (is_str "llm_unavailable" code || is_str "llmUnavailable" code)) [
    | inl k ↦ rw (submit_failed_code, h, k) (alert-IsWell s "query.error.llmUnavailable" p)
    | inr k ↦ elim (Option-cases (map_api_error_to_connection_error_kind e)) [
      | inl m ↦ rw (submit_failed_code, h, k, m) (settled-IsWell s _ p λ t. (refl, refl))
      | inr (kind, m) ↦ rw (submit_failed_code, h, k, m) (settled-IsWell s _ p λ t. (refl, refl))
    ]
  ]
]
  where
    code : Value
    code = own_or_detail "error" e

failed_other-IsWell :
    (s : Submission) (e : Value) (p : Page) → IsWell s p (submit_failed_other s e p)
unfolding submit_failed_other
failed_other-IsWell s e p =
    elim (Bool-cases (names "error.service_unavailable" "service_unavailable" e)) [
      | inl h ↦ rw (submit_failed_other, h) (alert-IsWell s "error.service_unavailable" p)
      | inr h ↦ elim (Bool-cases (has "violations" e)) [
        | inl i ↦ rw (submit_failed_other, h, i) (settled-IsWell s _ p λ t. (refl, refl))
        | inr i ↦ elim (Bool-cases (is_kind "refine" e)) [
          | inl j ↦ rw (submit_failed_other, h, i, j) (settled-IsWell s _ p λ t. (refl, refl))
          | inr j ↦ rw (submit_failed_other, h, i, j) (failed_code-IsWell s e p)
        ]
      ]
    ]

failed-IsWell : (s : Submission) (e : Value) (p : Page) → IsWell s p (submit_failed s e p)
unfolding submit_failed
failed-IsWell s e p = elim (Bool-cases (is_session_deletion_error e || is_request_aborted e)) [
  | inl h ↦ rw (submit_failed, h) (dropped-IsWell s p)
  | inr h ↦ elim (Bool-cases (names "error.hostile_input_blocked" "hostile_input_blocked" e)) [
    | inl i ↦ rw (submit_failed, h, i) (settled-IsWell s _ p λ t. (refl, refl))
    | inr i ↦ elim (Bool-cases (names "error.quota_exceeded" "quota_exceeded" e)) [
      | inl j ↦ rw (submit_failed, h, i, j) (settled-IsWell s _ p λ t. (refl, refl))
      | inr j ↦ rw (submit_failed, h, i, j) (failed_other-IsWell s e p)
    ]
  ]
]

accepted-IsWell : (s : Submission) (body : Value) (p : Page) → IsWell s p (submit_accepted s body p)
unfolding submit_accepted
accepted-IsWell s body p = elim (Bool-cases (is_kind "result" body)) [
  | inl h ↦ rw (submit_accepted, h) (settled-IsWell s _ p λ t. (refl, refl))
  | inr h ↦ elim (Bool-cases (is_kind "refine" body)) [
    | inl k ↦ rw (submit_accepted, h, k) (settled-IsWell s _ p λ t. (refl, refl))
    | inr k ↦ rw (submit_accepted, h, k) (settled-IsWell s _ p λ t. (refl, refl))
  ]
]

-- However a submission is answered, its turn is not loading afterwards.
pub handle_submit_settle-IsPageDone :
    (s : Submission) (answer : Settled Value) (p : Page)
    → IsPageDone s (handle_submit_settle s answer p)
unfolding handle_submit_settle
handle_submit_settle-IsPageDone s (resolved body) p =
    (accepted-IsWell s body (invalidate_session s.session_id p)).is_done
handle_submit_settle-IsPageDone s (rejected e) p = (failed-IsWell s e p).is_done

started-IsWell :
    (turn_id question connection : String) (connections : List Connection) (p : Page)
    (s : Submission)
    → str_eq connection "" ≡ false
    → p.active_session_id ≡ none
    → let (q, started) = handle_submit_start turn_id question (some connection) connections p in
      started ≡ some s
      → (q.rendered_session_id ≡ p.rendered_session_id)
        × (q.prev_session_id ≡ p.prev_session_id)
        × (q.pending_submit ≡ true)
        × (q.active_session_id ≡ none)
unfolding handle_submit_start
started-IsWell turn_id question connection connections p s c a h = ground (arith, c, a)

kept :
    (sid : String) (p : Page)
    → p.rendered_session_id ≡ none
    → p.prev_session_id ≡ none
    → p.pending_submit ≡ true
    → (switch_session (some sid) p).local_turns ≡ p.local_turns
unfolding switch_session session_effect
kept sid p r v k = ground (arith, r, v, k)

-- When a submission without a session fails, and another session is opened next, the page keeps the
-- turns of the submission: it takes the session for one that the submission has made.
pub switch_session-submit_failed :
    (turn_id question connection sid : String) (connections : List Connection) (p : Page)
    (s : Submission) (e : Value)
    → str_eq connection "" ≡ false
    → p.active_session_id ≡ none
    → p.rendered_session_id ≡ none
    → p.prev_session_id ≡ none
    → let (q, started) = handle_submit_start turn_id question (some connection) connections p in
      started ≡ some s
      → (switch_session (some sid) (handle_submit_settle s (rejected e) q)).local_turns
        ≡ (handle_submit_settle s (rejected e) q).local_turns
unfolding handle_submit_settle
switch_session-submit_failed turn_id question connection sid connections p s e c a r v h =
    let q = (handle_submit_start turn_id question (some connection) connections p).0 in
    let g = started-IsWell turn_id question connection connections p s c a h in
    let w = failed-IsWell s e q in
    kept sid (submit_failed s e q) (w.rendered ∙ g.0 ∙ r) (w.prev ∙ g.1 ∙ v) (w.pending ∙ g.2)
