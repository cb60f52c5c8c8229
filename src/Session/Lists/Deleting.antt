-- ===== src/Session/Lists/Deleting.antt =====
-- A deletion that fails takes nothing, and one that begins during a fetch voids it.
use query_craft.Common.{
  ℕ, ◌≡◌, ◌<◌, refl, String, false, List, [], ◌∷◌, ◌++◌, Option, none, some, arith, str_eq, eq_iff,
  str_eq_self, lookup, lookup-insert, if◌then◌else◌, subst,
}
use query_craft.Common.Value.{resolved, rejected}
use query_craft.Session.Deletion.{
  Lifecycle, Call, begins, rolls_back, subscribes, unsubscribes, is_unavailable, deletion_version,
  did_start, begin_deletion, session_deleted, subscribe, unsubscribe, step, run,
}
use query_craft.Session.Deletion.Laws.{
  Noticed, Noticed-start, Noticed-begin, Noticed-rollback, Noticed-version, run-version-le,
  unavailable-rollback,
}
use query_craft.Session.Lists.{Detail, detail_start, detail_settle}
use query_craft.Session.Lists.Cache.{Cache, removed, restored, delete_mutate, delete_failed}

lookup-removed {ℓ} :
    {A : Type ℓ} (k j : String) (m : List (String × A))
    → lookup j (removed k m) ≡ (if str_eq k j then none else lookup j m)
lookup-removed k j [] = ground arith
lookup-removed k j ((i, v) ∷ m) =
    ground (arith, lookup-removed k j m, eq_iff i k, eq_iff i j, eq_iff k j)

lookup-restored {ℓ} :
    {A : Type ℓ} (k j : String) (m : List (String × A))
    → lookup j (restored k (lookup k m) (removed k m)) ≡ lookup j m
lookup-restored {A = A} k j m = by_value (lookup k m) refl
  where
    by_value : (o : Option A) → lookup k m ≡ o → lookup j (restored k o (removed k m)) ≡ lookup j m
    by_value none h = ground (arith, lookup-removed k j m, eq_iff k j, h)
    by_value (some v) h =
        ground (arith, lookup-insert k j v (removed k m), lookup-removed k j m, eq_iff k j, h)

-- A deletion that the server refuses leaves the cached details as they were, and the session
-- available.
pub delete_failed-delete_mutate :
    (sid : String) (c : Cache) (other : String)
    → (lookup other (delete_failed sid (delete_mutate sid c).2 (delete_mutate sid c).0).details
        ≡ lookup other c.details)
      × (is_unavailable sid
            (delete_failed sid (delete_mutate sid c).2 (delete_mutate sid c).0).lifecycle
          ≡ false)
unfolding delete_failed delete_mutate
delete_failed-delete_mutate sid c other = (
  lookup-restored sid other c.details,
  ground (arith, unavailable-rollback (begin_deletion sid c.lifecycle).0 sid sid, str_eq_self sid),
)

step-Noticed :
    (s : Lifecycle) (c : Call) (sid : String) (v : ℕ) → Noticed sid v s → Noticed sid v (step s c)
unfolding step subscribe unsubscribe deletion_version is_unavailable
step-Noticed s (begins other) sid v n = Noticed-begin s sid other v n
step-Noticed s (rolls_back other) sid v n = Noticed-rollback s sid other v n
step-Noticed s (subscribes l) sid v n = record { low = n.low; above = n.above }
step-Noticed s (unsubscribes l) sid v n = record { low = n.low; above = n.above }

run-Noticed :
    (s : Lifecycle) (cs : List Call) (sid : String) (v : ℕ)
    → Noticed sid v s
    → Noticed sid v (run s cs)
unfolding run
run-Noticed s [] sid v n = n
run-Noticed s (c ∷ cs) sid v n = run-Noticed (step s c) cs sid v (step-Noticed s c sid v n)

run-append :
    (s : Lifecycle) (before after : List Call) → run s (before ++ after) ≡ run (run s before) after
unfolding run
run-append s [] after = refl
run-append s (c ∷ cs) after = run-append (step s c) cs after

start-Noticed :
    (s : Lifecycle) (sid : String) (v : ℕ) → detail_start sid s ≡ some v → Noticed sid v s
unfolding detail_start
start-Noticed s sid v h =
    subst (λ w. Noticed sid w s) (ground (arith, h)) (Noticed-start s sid (ground (arith, h)))

begun-above :
    (s : Lifecycle) (sid : String) (v : ℕ) (before after : List Call)
    → Noticed sid v s
    → v < deletion_version sid (run s (before ++ begins sid ∷ after))
unfolding run step
begun-above s sid v before after n =
    let t = run s before in
    ground (
      arith,
      run-append s before (begins sid ∷ after),
      Noticed-version t sid v (run-Noticed s before sid v n),
      run-version-le (begin_deletion sid t).0 after sid,
    )

settle-above :
    (s : Lifecycle) (sid : String) (v : ℕ) (d : Detail)
    → v < deletion_version sid s
    → detail_settle sid v (resolved d) s ≡ rejected session_deleted
unfolding detail_settle did_start
settle-above s sid v d h = ground (arith, h)

-- The answer to a fetch of a session is dropped for a session deletion error whenever a deletion of
-- the session began after the fetch, also where it was rolled back before the answer.
pub detail_settle-begins :
    (s : Lifecycle) (sid : String) (v : ℕ) (before after : List Call) (d : Detail)
    → detail_start sid s ≡ some v
    → detail_settle sid v (resolved d) (run s (before ++ begins sid ∷ after))
      ≡ rejected session_deleted
detail_settle-begins s sid v before after d h =
    settle-above (run s (before ++ begins sid ∷ after)) sid v d
      (begun-above s sid v before after (start-Noticed s sid v h))
