-- ===== src/Request/Scope/Laws.antt =====
-- A scope aborts at most once, for the first reason that reaches it, and is quiet once disposed of.
use query_craft.Common.{
  ◌≡◌, ◌≢◌, map, refl, Bool, true, false, ◌&&◌, ◌||◌, List, [], ◌∷◌, Option, none, some, arith,
}
use query_craft.Common.Value.{Value, Settled, resolved, rejected}
use query_craft.Request.Scope.{
  Scope, Reason, caller, deadline, parent, Options, Signal, timer_fires, parent_aborts, Event,
  outside, aborts, disposes, fire_abort, construct, dispose, receive, step, run, receive_all,
  throw_if_aborted, with_request_deadline, with_default, reclassify, request_deadline,
  request_aborted,
}

abbrev pub once : Option Reason → List Reason
once none = []
once (some r) = r ∷ []

abbrev pub is_some {ℓ} : {A : Type ℓ} → Option A → Bool
is_some none = false
is_some (some a) = true

pub record IsSound (s : Scope) : Type 0 where
  pub reported : s.calls ≡ once s.reason
  pub flagged : s.aborted ≡ is_some s.reason
  pub noted : s.notified ≡ is_some s.reason
  pub stopped : (s.aborted && is_some s.timer) ≡ false
  pub cleaned : (s.disposed && (is_some s.timer || s.listening)) ≡ false

fire_abort-IsSound : (s : Scope) (r : Reason) → IsSound s → IsSound (fire_abort r s)
unfolding fire_abort
fire_abort-IsSound s r v = ground (arith, v.stopped, v.cleaned)

receive-IsSound : (s : Scope) (sig : Signal) → IsSound s → IsSound (receive s sig)
unfolding receive
receive-IsSound s timer_fires v = ground (arith, v.stopped, v.cleaned)
receive-IsSound s parent_aborts v = ground (arith, v.stopped, v.cleaned)

pub step-IsSound : (s : Scope) (e : Event) → IsSound s → IsSound (step s e)
unfolding step
step-IsSound s (outside sig) v = receive-IsSound s sig v
step-IsSound s aborts v = fire_abort-IsSound s caller v
step-IsSound s disposes v = ground (arith, v.stopped, v.cleaned)

construct-IsSound : (o : Options) → IsSound (construct o)
unfolding construct
construct-IsSound o = ground arith

run-IsSound : (s : Scope) (es : List Event) → IsSound s → IsSound (run s es)
unfolding run
run-IsSound s [] v = v
run-IsSound s (e ∷ es) v = run-IsSound (step s e) es (step-IsSound s e v)

-- Whatever a scope is made of and whatever happens to it, `onAbort` has been called at most once,
-- with the scope's reason, exactly if the signal is aborted, and then no timer is left running.
pub run-construct-IsSound : (o : Options) (es : List Event) → IsSound (run (construct o) es)
run-construct-IsSound o es = run-IsSound (construct o) es (construct-IsSound o)

step-reason : (s : Scope) (e : Event) (r : Reason) → s.reason ≡ some r → (step s e).reason ≡ some r
unfolding step
step-reason s (outside timer_fires) r h = ground arith
step-reason s (outside parent_aborts) r h = ground arith
step-reason s aborts r h = ground arith
step-reason s disposes r h = ground arith

-- The first reason stays, whatever reaches the scope later.
pub run-reason :
    (s : Scope) (es : List Event) (r : Reason) → s.reason ≡ some r → (run s es).reason ≡ some r
unfolding run
run-reason s [] r h = h
run-reason s (e ∷ es) r h = run-reason (step s e) es r (step-reason s e r h)

receive-disposed : (s : Scope) (sig : Signal) → IsSound s → s.disposed ≡ true → receive s sig ≡ s
unfolding receive
receive-disposed s timer_fires v h = ground (arith, v.cleaned)
receive-disposed s parent_aborts v h = ground (arith, v.cleaned)

receive_all_disposed :
    (s : Scope) (sigs : List Signal) → IsSound s → s.disposed ≡ true → receive_all s sigs ≡ s
unfolding receive_all
receive_all_disposed s [] v h = refl
receive_all_disposed s (e ∷ es) v h = rw (receive-disposed s e v h) (receive_all_disposed s es v h)

dispose_done : (s : Scope) → (dispose s).disposed ≡ true
unfolding dispose
dispose_done s = ground arith

dispose_idem : (s : Scope) → dispose (dispose s) ≡ dispose s
unfolding dispose
dispose_idem s = ground arith

dispose-IsSound : (s : Scope) → IsSound s → IsSound (dispose s)
unfolding step
dispose-IsSound s v = step-IsSound s disposes v

-- After its disposal neither the timer nor the parent reaches a scope, nor does a second disposal
-- change it.
pub receive_all-dispose :
    (o : Options) (es : List Event) (sigs : List Signal)
    → (receive_all (dispose (run (construct o) es)) sigs ≡ dispose (run (construct o) es))
      × (dispose (dispose (run (construct o) es)) ≡ dispose (run (construct o) es))
receive_all-dispose o es sigs =
    let s = run (construct o) es in
    (
      receive_all_disposed (dispose s) sigs (dispose-IsSound s (run-construct-IsSound o es))
          (dispose_done s),
      dispose_idem s,
    )

receive_all-run : (s : Scope) (sigs : List Signal) → receive_all s sigs ≡ run s (map outside sigs)
unfolding receive_all run
receive_all-run s [] = refl
receive_all-run s (e ∷ es) = receive_all-run (receive s e) es

abbrev pub report : Option Reason → Option Value
report none = none
report (some deadline) = some request_deadline
report (some _) = some request_aborted

throw_if_aborted_typed : (s : Scope) → IsSound s → throw_if_aborted s ≡ report s.reason
unfolding throw_if_aborted
throw_if_aborted_typed s v = ground (arith, v.flagged)

-- What `throw_if_aborted` reports in a reachable scope: nothing before an abort, the typed deadline
-- error if the deadline came first, and else the typed abort error.
pub throw_if_aborted_lem :
    (o : Options) (es : List Event)
    → throw_if_aborted (run (construct o) es) ≡ report (run (construct o) es).reason
throw_if_aborted_lem o es =
    throw_if_aborted_typed (run (construct o) es) (run-construct-IsSound o es)

reason_of_receive_all :
    (s : Scope) (sigs : List Signal) (r : Reason)
    → s.reason ≡ some r
    → (receive_all s sigs).reason ≡ some r
reason_of_receive_all s sigs r h = rw receive_all-run (run-reason s (map outside sigs) r h)

timer_fires-first :
    (o : Options)
    → o.timeout ≡ none
    → o.signal ≢ some true
    → (receive (construct (with_default o)) timer_fires).reason ≡ some deadline
unfolding construct receive
timer_fires-first o t h = ground arith

parent_aborts-first :
    (o : Options)
    → o.signal ≡ some false
    → (receive (construct (with_default o)) parent_aborts).reason ≡ some parent
unfolding construct receive
parent_aborts-first o h = ground arith

reclassify-deadline :
    (s : Scope) (e : Value)
    → s.reason ≡ some deadline
    → reclassify {A = Value} s (rejected e) ≡ rejected request_deadline
unfolding reclassify
reclassify-deadline s e h = ground arith

reclassify-parent :
    (s : Scope) (e : Value)
    → s.reason ≡ some parent
    → reclassify {A = Value} s (rejected e) ≡ rejected e
unfolding reclassify
reclassify-parent s e h = ground arith

-- A request whose deadline fires before its parent aborts ends in the typed deadline error, whatever
-- it was rejected with and whatever arrives later.
pub with_request_deadline-timer_fires :
    (o : Options) (sigs : List Signal) (e : Value)
    → o.timeout ≡ none
    → o.signal ≢ some true
    → (with_request_deadline {A = Value} o (timer_fires ∷ sigs) (rejected e)).0
      ≡ rejected request_deadline
unfolding with_request_deadline receive_all
with_request_deadline-timer_fires o sigs e t h =
    let s = receive (construct (with_default o)) timer_fires in
    reclassify-deadline (receive_all s sigs) e
      (reason_of_receive_all s sigs deadline (timer_fires-first o t h))

-- A request whose parent aborts first keeps the error that it was rejected with.
pub with_request_deadline-parent_aborts :
    (o : Options) (sigs : List Signal) (e : Value)
    → o.signal ≡ some false
    → (with_request_deadline {A = Value} o (parent_aborts ∷ sigs) (rejected e)).0 ≡ rejected e
unfolding with_request_deadline receive_all
with_request_deadline-parent_aborts o sigs e h =
    let s = receive (construct (with_default o)) parent_aborts in
    reclassify-parent (receive_all s sigs) e
      (reason_of_receive_all s sigs parent (parent_aborts-first o h))

reclassify-resolved : (s : Scope) (v : Value) → reclassify s (resolved v) ≡ resolved v
unfolding reclassify
reclassify-resolved s v = refl

abbrev pub is_resolved : Settled Value → Bool
is_resolved (resolved v) = true
is_resolved (rejected e) = false

reclassify-is_resolved :
    (s : Scope) (outcome : Settled Value) → is_resolved (reclassify s outcome) ≡ is_resolved outcome
unfolding reclassify
reclassify-is_resolved s (resolved v) = refl
reclassify-is_resolved s (rejected e) = ground arith

-- Whatever arrives and however the request settles, its scope ends disposed of, with no timer and no
-- listener, and a request is resolved exactly if its work is: the deadline does not take back a
-- response.
pub with_request_deadline-disposed :
    (o : Options) (sigs : List Signal) (outcome : Settled Value)
    → ((with_request_deadline o sigs outcome).1.disposed ≡ true)
      × ((with_request_deadline o sigs outcome).1.timer ≡ none)
      × ((with_request_deadline o sigs outcome).1.listening ≡ false)
      × (is_resolved (with_request_deadline o sigs outcome).0 ≡ is_resolved outcome)
unfolding with_request_deadline
with_request_deadline-disposed o sigs outcome = (
  dispose_done s,
  ground (arith, v.cleaned, dispose_done s),
  ground (arith, v.cleaned, dispose_done s),
  reclassify-is_resolved s outcome,
)
  where
    s : Scope
    s = receive_all (construct (with_default o)) sigs

    v : IsSound (dispose s)
    v =
        dispose-IsSound s
          (rw receive_all-run (run-construct-IsSound (with_default o) (map outside sigs)))
