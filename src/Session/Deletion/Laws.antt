-- ===== src/Session/Deletion/Laws.antt =====
-- What the deletion versions promise to a request that is in flight.
use query_craft.Common.{
  ℕ, ◌+◌, ◌≤◌, ◌<◌, ◌≡◌, String, true, false, not, ◌&&◌, ◌||◌, List, [], ◌∷◌, map, arith, eq_iff,
  str_eq, str_eq_self, contains-add, contains-without, lookup-insert, if◌then◌else◌,
}
use query_craft.Session.Deletion.{
  Lifecycle, Call, begins, rolls_back, subscribes, unsubscribes, deletion_version, is_unavailable,
  did_start, begin_deletion, rollback, step, run,
}

-- `begin_deletion` advances the version of an available session, and no other.
pub version-begin :
    (s : Lifecycle) (sid other : String)
    → deletion_version other (begin_deletion sid s).0 ≡ (
        if is_unavailable sid s
        then deletion_version other s
        else if str_eq sid other
        then deletion_version sid s + 1
        else deletion_version other s)
unfolding begin_deletion
version-begin s sid other =
    ground (arith, lookup-insert sid other (deletion_version sid s + 1) s.versions)

pub unavailable-begin :
    (s : Lifecycle) (sid other : String)
    → is_unavailable other (begin_deletion sid s).0 ≡ (str_eq sid other || is_unavailable other s)
unfolding begin_deletion
unavailable-begin s sid other =
    ground (arith, contains-add s.unavailable sid other, eq_iff sid other)

pub unavailable-rollback :
    (s : Lifecycle) (sid other : String)
    → is_unavailable other (rollback sid s) ≡ (is_unavailable other s && not (str_eq sid other))
unfolding rollback is_unavailable
unavailable-rollback s sid other = contains-without s.unavailable sid other

-- No call but the reset lowers a version.
pub step-version-le :
    (s : Lifecycle) (c : Call) (sid : String)
    → deletion_version sid s ≤ deletion_version sid (step s c)
unfolding step
step-version-le s (begins other) sid = ground (arith, version-begin s other sid, eq_iff other sid)
step-version-le s (rolls_back other) sid = omega arith
step-version-le s (subscribes l) sid = omega arith
step-version-le s (unsubscribes l) sid = omega arith

pub run-version-le :
    (s : Lifecycle) (cs : List Call) (sid : String)
    → deletion_version sid s ≤ deletion_version sid (run s cs)
unfolding run
run-version-le s [] sid = omega arith
run-version-le s (c ∷ cs) sid =
    omega (arith, step-version-le s c sid, run-version-le (step s c) cs sid)

-- A request that reads the version of an available session just before a deletion of it begins
-- notices the deletion ever after, whatever begins, rollbacks and subscriptions follow.
pub did_start-begin :
    (s : Lifecycle) (sid : String) (cs : List Call)
    → is_unavailable sid s ≡ false
    → did_start sid (deletion_version sid s) (run (begin_deletion sid s).0 cs) ≡ true
unfolding did_start
did_start-begin s sid cs h = ground (
  arith,
  version-begin s sid sid,
  str_eq_self sid,
  run-version-le (begin_deletion sid s).0 cs sid,
)

begin-gone :
    (s : Lifecycle) (sid : String) → is_unavailable sid s ≡ true → begin_deletion sid s ≡ (s, [])
unfolding begin_deletion
begin-gone s sid h = rw h

-- The listeners that a begin calls.
pub begin-calls :
    (s : Lifecycle) (sid : String)
    → (begin_deletion sid s).1
      ≡ (if is_unavailable sid s then [] else map (λ l. (l, sid)) s.listeners)
unfolding begin_deletion
begin-calls s sid = ground arith

pub unavailable-begin_self :
    (s : Lifecycle) (sid : String) → is_unavailable sid (begin_deletion sid s).0 ≡ true
unavailable-begin_self s sid = ground (arith, unavailable-begin s sid sid, str_eq_self sid)

-- The first begin calls each listener once, in order, with the session; a begin of a session that
-- is already unavailable changes nothing and calls nobody; after a rollback the session is
-- available, so that the next begin counts again.
pub begin_once :
    (s : Lifecycle) (sid : String)
    → ((begin_deletion sid s).1
        ≡ (if is_unavailable sid s then [] else map (λ l. (l, sid)) s.listeners))
      × (begin_deletion sid (begin_deletion sid s).0 ≡ ((begin_deletion sid s).0, []))
      × (is_unavailable sid (rollback sid (begin_deletion sid s).0) ≡ false)
begin_once s sid = (
  begin-calls s sid,
  begin-gone (begin_deletion sid s).0 sid (unavailable-begin_self s sid),
  ground (arith, unavailable-rollback (begin_deletion sid s).0 sid sid, str_eq_self sid),
)

-- The version is at least `v`, and above it while the session is unavailable.
pub record Noticed (sid : String) (v : ℕ) (s : Lifecycle) : Type 0 where
  pub low : v ≤ deletion_version sid s
  pub above : is_unavailable sid s ≡ true → v < deletion_version sid s

pub Noticed-start :
    (s : Lifecycle) (sid : String)
    → is_unavailable sid s ≡ false
    → Noticed sid (deletion_version sid s) s
Noticed-start s sid h = ground arith

pub Noticed-begin :
    (s : Lifecycle) (sid other : String) (v : ℕ)
    → Noticed sid v s
    → Noticed sid v (begin_deletion other s).0
Noticed-begin s sid other v n = record {
  low = ground (arith, version-begin s other sid, n.low, eq_iff other sid);
  above = λ h. ground (
    arith,
    version-begin s other sid,
    unavailable-begin s other sid,
    n.low,
    n.above,
    eq_iff other sid,
  );
}

pub Noticed-rollback :
    (s : Lifecycle) (sid other : String) (v : ℕ)
    → Noticed sid v s
    → Noticed sid v (rollback other s)
unfolding rollback deletion_version
Noticed-rollback s sid other v n = record {
  low = n.low;
  above = λ h. ground (arith, unavailable-rollback s other sid, n.above);
}

-- A deletion of the session itself takes the version above `v`.
pub Noticed-version :
    (s : Lifecycle) (sid : String) (v : ℕ)
    → Noticed sid v s
    → v < deletion_version sid (begin_deletion sid s).0
Noticed-version s sid v n = ground (arith, version-begin s sid sid, n.low, n.above, str_eq_self sid)
