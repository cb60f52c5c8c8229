-- ===== src/Request/Scope.antt =====
-- frontend/src/api/requestScope.ts: one owned AbortController with an optional parent signal and an
-- optional deadline. The object is a record; the callback `onAbort` is the list of its calls so far.
pub mod Laws
mod Tests
use query_craft.Common.{
  ℕ, String, Bool, true, false, ◌||◌, ◌&&◌, not, List, [], ◌∷◌, ◌++◌, Option, none, some, contains,
  if◌then◌else◌, str_eq,
}
use query_craft.Common.Int.{ℤ, pos, negsuc}
use query_craft.Common.Value.{
  Value, obj, Proto, plain, error, request_aborted_error, request_deadline_error, Settled, resolved,
  rejected, error_of, is_error, get, as_str,
}

pub data Reason : Type 0 where
  caller deadline parent : Reason

unfoldable pub request_aborted : Value
request_aborted = error_of request_aborted_error "request_aborted" "RequestAbortedError"

unfoldable pub request_deadline : Value
request_deadline =
    error_of request_deadline_error "request_deadline_exceeded" "RequestDeadlineError"

abbrev is_own_abort : Proto → Bool
is_own_abort request_aborted_error = true
is_own_abort request_deadline_error = true
is_own_abort p = false

abbrev abort_names : List String
abort_names = "AbortError" ∷ "TimeoutError" ∷ []

abbrev is_abort_name : Option String → Bool
is_abort_name none = false
is_abort_name (some name) = contains abort_names name

unfoldable pub is_abort_failure : Value → Bool
is_abort_failure (obj p fs) =
    is_own_abort p || (is_error p && is_abort_name (as_str (get "name" (obj p fs))))
is_abort_failure v = false

abbrev is_deadline_proto : Proto → Bool
is_deadline_proto request_deadline_error = true
is_deadline_proto p = false

unfoldable pub is_client_deadline : Value → Bool
is_client_deadline (obj p fs) = is_deadline_proto p
is_client_deadline v = false

unfoldable pub is_request_aborted : Value → Bool
unfolding is_abort_failure is_client_deadline
is_request_aborted v = is_abort_failure v && not (is_client_deadline v)

-- Whole milliseconds, or a number that `Number.isFinite` refuses.
pub data Timeout : Type 0 where
  finite : ℤ → Timeout
  not_finite : Timeout

-- The parent signal is given by whether it is aborted already.
pub record Options : Type 0 where
  pub signal : Option Bool
  pub timeout : Option Timeout

-- `timer` is the delay of the timer that runs. `joined` says that the fields `parentSignal` and
-- `parentListener` are set, `listening` that the listener is registered with the parent.
pub record Scope : Type 0 where
  pub aborted : Bool
  pub timer : Option ℕ
  pub joined : Bool
  pub listening : Bool
  pub reason : Option Reason
  pub notified : Bool
  pub disposed : Bool
  pub calls : List Reason

notify : Reason → Scope → Scope
notify r s = if s.notified then s else record s { notified = true; calls = s.calls ++ r ∷ [] }

unfoldable pub fire_abort : Reason → Scope → Scope
unfolding notify
fire_abort r s = elim s.reason [
  | some _ ↦ s
  | none ↦ notify r (record s { reason = some r; timer = none; aborted = true })
]

abbrev fresh : Scope
fresh = record {
  aborted = false;
  timer = none;
  joined = false;
  listening = false;
  reason = none;
  notified = false;
  disposed = false;
  calls = [];
}

join : Option Bool → Scope → Scope
unfolding fire_abort
join none s = s
join (some true) s = fire_abort parent s
join (some false) s = record s { joined = true; listening = true }

abbrev is_none {ℓ} : {A : Type ℓ} → Option A → Bool
is_none none = true
is_none (some a) = false

arm : Option Timeout → Scope → Scope
arm (some (finite (pos ms))) s =
    if is_none s.reason && not s.aborted then record s { timer = some ms } else s
arm _ s = s

unfoldable pub construct : Options → Scope
unfolding join arm
construct o = arm o.timeout (join o.signal fresh)

unfoldable pub throw_if_aborted : Scope → Option Value
throw_if_aborted s =
    if s.aborted
    then elim s.reason [ some deadline ↦ some request_deadline | _ ↦ some request_aborted ]
    else none

unfoldable pub dispose : Scope → Scope
dispose s =
    if s.disposed
    then s
    else record s { disposed = true; timer = none; joined = false; listening = false }

-- What reaches the scope from outside: its timer, if it runs, and its parent's abort, if it listens;
-- the listener is registered with `once`.
pub data Signal : Type 0 where
  timer_fires parent_aborts : Signal

unfoldable pub receive : Scope → Signal → Scope
unfolding fire_abort
receive s timer_fires = elim s.timer [
  | some _ ↦ fire_abort deadline (record s { timer = none })
  | none ↦ s
]
receive s parent_aborts =
    if s.listening then fire_abort parent (record s { listening = false }) else s

pub data Event : Type 0 where
  outside : Signal → Event
  aborts disposes : Event

unfoldable pub step : Scope → Event → Scope
unfolding receive dispose
step s (outside sig) = receive s sig
step s aborts = fire_abort caller s
step s disposes = dispose s

unfoldable pub run : Scope → List Event → Scope
unfolding step
run s [] = s
run s (e ∷ es) = run (step s e) es

unfoldable pub receive_all : Scope → List Signal → Scope
unfolding receive
receive_all s [] = s
receive_all s (e ∷ es) = receive_all (receive s e) es

abbrev pub ordinary_timeout : Timeout
ordinary_timeout = finite (pos 15_000)

abbrev with_default : Options → Options
with_default o = elim o.timeout [ none ↦ record o { timeout = some ordinary_timeout } | some t ↦ o ]

reclassify {ℓ} : {A : Type ℓ} → Scope → Settled A → Settled A
reclassify s (resolved a) = resolved a
reclassify s (rejected e) = elim s.reason [
  | some deadline ↦ rejected request_deadline
  | _ ↦ rejected e
]

-- `run` is what arrives while the request is under way and how the request then settles.
unfoldable pub with_request_deadline {ℓ} :
    {A : Type ℓ} → Options → List Signal → Settled A → Settled A × Scope
unfolding reclassify
with_request_deadline o during outcome =
    let s = receive_all (construct (with_default o)) during in (reclassify s outcome, dispose s)
