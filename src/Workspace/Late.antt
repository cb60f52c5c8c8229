-- ===== src/Workspace/Late.antt =====
-- What an answer does to the page of frontend/src/pages/WorkspacePage.tsx when a deletion of its
-- session has begun since the call.
use query_craft.Common.{
  ℕ, ◌≡◌, refl, ap, String, true, false, List, Option, none, some, arith, str_eq,
}
use query_craft.Common.Value.{Value, Settled, resolved, rejected, get, as_str}
use query_craft.Session.Deletion.{
  Lifecycle, Call, is_unavailable, did_start, deletion_version, begin_deletion, run,
}
use query_craft.Session.Deletion.Laws.{did_start-begin}
use query_craft.Workspace.Turns.{ConnectionErrorKind}
use query_craft.Workspace.Page.{Page, is_current_session_context, is_current_retry_context}
use query_craft.Workspace.Deleting.{Snapshot, finished, delete_end, delete_settle, delete_reconcile}
use query_craft.Workspace.Answers
use query_craft.Workspace.Answers.{
  Waits, settled, handle_regenerate_end, handle_regenerate_settle, handle_regenerate_refetched,
}
use query_craft.Workspace.Retrying.{retry_end, retry_settle}

-- The page as a later moment finds it: a deletion of the session began in the lifecycle that the call
-- saw, and whatever calls followed, rollbacks among them.
abbrev pub IsOverrun : String → ℕ → Page → Type 0
IsOverrun sid version p =
    (l : Lifecycle) × (calls : List Call) × (is_unavailable sid l ≡ false)
    × (version ≡ deletion_version sid l)
    × (p.lifecycle ≡ run (begin_deletion sid l).0 calls)

overrun-started :
    (sid : String) (version : ℕ) (p : Page)
    → IsOverrun sid version p
    → did_start sid version p.lifecycle ≡ true
overrun-started sid version p (l, calls, u, v, e) = rw (e, v) (did_start-begin l sid calls u)

context-overrun :
    (sid : String) (id : Option String) (version : ℕ) (p : Page)
    → str_eq sid "" ≡ false
    → id ≡ some sid
    → IsOverrun sid version p
    → is_current_session_context p id version ≡ false
unfolding is_current_session_context
context-overrun sid id version p n e o = ground (arith, n, e, overrun-started sid version p o)

retry_context-overrun :
    (sid : String) (id : Option String) (version : ℕ) (p : Page) (result : Option String)
    → str_eq sid "" ≡ false
    → id ≡ some sid
    → IsOverrun sid version p
    → is_current_retry_context p id version result ≡ false
unfolding is_current_retry_context
retry_context-overrun sid id version p result n e o =
    ground (arith, n, e, context-overrun sid id version p n e o)

delete-late :
    (s : Snapshot) (answer : Settled Value) (p : Page)
    → is_current_session_context p s.session_id s.version ≡ false
    → (delete_settle s answer p ≡ finished (delete_end s p))
      × (delete_reconcile s answer p ≡ delete_end s p)
unfolding delete_settle delete_reconcile
delete-late s (resolved v) p h = (rw (delete_settle, h) refl, rw (delete_reconcile, h) refl)
delete-late s (rejected e) p h = (rw (delete_settle, h) refl, rw (delete_reconcile, h) refl)

regenerate-late :
    (c : Answers.Call) (answer : Settled Value) (p : Page)
    → is_current_session_context p c.session_id c.version ≡ false
    → (handle_regenerate_settle c answer p ≡ settled (handle_regenerate_end c p))
      × (handle_regenerate_refetched c p ≡ handle_regenerate_end c p)
unfolding handle_regenerate_settle handle_regenerate_refetched
regenerate-late c (resolved v) p h =
    (rw (handle_regenerate_settle, h) refl, rw (handle_regenerate_refetched, h) refl)
regenerate-late c (rejected e) p h =
    (rw (handle_regenerate_settle, h) refl, rw (handle_regenerate_refetched, h) refl)

retry-late :
    (c : Answers.Call) (before : Option ConnectionErrorKind) (answer : Settled Value) (p : Page)
    → ((result : Option String) → is_current_retry_context p c.session_id c.version result ≡ false)
    → retry_settle c before answer p ≡ retry_end c p
unfolding retry_settle
retry-late c before (resolved v) p h =
    ap (retry_end c) (ground (arith, h none, h (as_str (get "session_id" v))))
retry-late c before (rejected e) p h = ap (retry_end c) (ground (arith, h none))

-- Once a deletion of its session has begun, rolled back or not, the answer to a request changes
-- nothing on the page but that the handler is through: be it a deletion, the check after one, a
-- regeneration, the fetch after one, or the retry of a connection.
pub late_answers-ended :
    (sid : String) (p : Page) (s : Snapshot) (c : Answers.Call)
    (before : Option ConnectionErrorKind) (answer : Settled Value)
    → str_eq sid "" ≡ false
    → s.session_id ≡ some sid
    → c.session_id ≡ some sid
    → IsOverrun sid s.version p
    → IsOverrun sid c.version p
    → (delete_settle s answer p ≡ finished (delete_end s p))
      × (delete_reconcile s answer p ≡ delete_end s p)
      × (handle_regenerate_settle c answer p ≡ settled (handle_regenerate_end c p))
      × (handle_regenerate_refetched c p ≡ handle_regenerate_end c p)
      × (retry_settle c before answer p ≡ retry_end c p)
late_answers-ended sid p s c before answer n e f o q =
    let d = delete-late s answer p (context-overrun sid s.session_id s.version p n e o) in
    let r = regenerate-late c answer p (context-overrun sid c.session_id c.version p n f q) in
    (
      d.0,
      d.1,
      r.0,
      r.1,
      retry-late c before answer p
          λ result. retry_context-overrun sid c.session_id c.version p result n f q,
    )
