-- ===== src/Session/Deletion.antt =====
-- frontend/src/sessionDeletionLifecycle.ts: the module's two maps and its set of listeners are the
-- fields of a record, and each function takes and returns it. A listener is known by a number, and
-- the calls that a function makes are part of its result.
pub mod Laws
mod Refine
mod Tests
use query_craft.Common.{
  ℕ, ◌+◌, String, Bool, true, false, not, List, [], ◌∷◌, ◌++◌, map, Option, none, some, add,
  without, contains, lookup, insert, if◌then◌else◌, ◌==◌, any,
}
use query_craft.Common.Value.{Value, obj, session_deletion_error, error_of}

pub record Lifecycle : Type 0 where
  pub versions : List (String × ℕ)
  pub unavailable : List String
  pub listeners : List ℕ

unfoldable pub session_deleted : Value
session_deleted = error_of session_deletion_error "session_deleted" "SessionDeletionError"

abbrev subscribed : List ℕ → ℕ → List ℕ
subscribed ls l = if any (λ k. k == l) ls then ls else ls ++ l ∷ []

abbrev unsubscribed : List ℕ → ℕ → List ℕ
unsubscribed [] l = []
unsubscribed (k ∷ ls) l = let rest = unsubscribed ls l in if k == l then rest else k ∷ rest

unfoldable pub subscribe : ℕ → Lifecycle → Lifecycle
subscribe l s = record s { listeners = subscribed s.listeners l }

unfoldable pub unsubscribe : ℕ → Lifecycle → Lifecycle
unsubscribe l s = record s { listeners = unsubscribed s.listeners l }

abbrev or_zero : Option ℕ → ℕ
or_zero none = 0
or_zero (some n) = n

unfoldable pub deletion_version : String → Lifecycle → ℕ
deletion_version sid s = or_zero (lookup sid s.versions)

unfoldable pub is_unavailable : String → Lifecycle → Bool
is_unavailable sid s = contains s.unavailable sid

unfoldable pub did_start : String → ℕ → Lifecycle → Bool
unfolding deletion_version
did_start sid version s = not (deletion_version sid s == version)

-- The second component is the calls of listeners, in order: who is called, with which session.
unfoldable pub begin_deletion : String → Lifecycle → Lifecycle × List (ℕ × String)
unfolding is_unavailable deletion_version add
begin_deletion sid s = if is_unavailable sid s then (s, []) else (
  record s {
    versions = insert sid (deletion_version sid s + 1) s.versions;
    unavailable = add s.unavailable sid;
  },
  map (λ l. (l, sid)) s.listeners,
)

unfoldable pub rollback : String → Lifecycle → Lifecycle
rollback sid s = record s { unavailable = without s.unavailable sid }

unfoldable pub reset : Lifecycle → Lifecycle
reset s = record { versions = []; unavailable = []; listeners = [] }

-- A call of the module from outside, but for `resetSessionDeletionLifecycle`.
pub data Call : Type 0 where
  begins rolls_back : String → Call
  subscribes unsubscribes : ℕ → Call

unfoldable pub step : Lifecycle → Call → Lifecycle
unfolding begin_deletion rollback subscribe unsubscribe
step s (begins sid) = (begin_deletion sid s).0
step s (rolls_back sid) = rollback sid s
step s (subscribes l) = subscribe l s
step s (unsubscribes l) = unsubscribe l s

unfoldable pub run : Lifecycle → List Call → Lifecycle
unfolding step
run s [] = s
run s (c ∷ cs) = run (step s c) cs
