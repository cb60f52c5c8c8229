-- ===== src/Session/Deletion/Refine.antt =====
-- The lifecycle of deletions refines an independent machine for each session: a count of the deletions
-- that have begun, and whether one is under way.
use query_craft.Common.{
  ℕ, ◌+◌, ◌≡◌, refl, ap, ◌∙◌, String, Bool, true, false, not, ◌&&◌, List, [], ◌∷◌, arith, eq_iff,
  str_eq, if◌then◌else◌,
}
use query_craft.Session.Deletion.{
  Lifecycle, Call, begins, rolls_back, subscribes, unsubscribes, deletion_version, is_unavailable,
  step, run,
}
use query_craft.Session.Deletion.Laws.{version-begin, unavailable-begin, unavailable-rollback}

pub record Deletions : Type 0 where
  pub begun : ℕ
  pub is_under_way : Bool

abbrev pub no_deletions : Deletions
no_deletions = record { begun = 0; is_under_way = false }

abbrev begun_again : Deletions → Deletions
begun_again d = if d.is_under_way then d else record { begun = d.begun + 1; is_under_way = true }

-- What one call does to the machine of the session `sid`.
abbrev pub deletions_step : String → Deletions → Call → Deletions
deletions_step sid d (begins other) = if str_eq other sid then begun_again d else d
deletions_step sid d (rolls_back other) = record d {
  is_under_way = d.is_under_way && not (str_eq other sid);
}
deletions_step sid d (subscribes l) = d
deletions_step sid d (unsubscribes l) = d

abbrev pub deletions_run : String → Deletions → List Call → Deletions
deletions_run sid d [] = d
deletions_run sid d (c ∷ cs) = deletions_run sid (deletions_step sid d c) cs

-- What the lifecycle says of one session.
abbrev pub deletions_of : String → Lifecycle → Deletions
deletions_of sid s = record { begun = deletion_version sid s; is_under_way = is_unavailable sid s }

Deletions-ext :
    {m n : ℕ} {a b : Bool}
    → m ≡ n
    → a ≡ b
    → ◌≡◌ {A = Deletions}
        (record { begun = m; is_under_way = a })
        (record { begun = n; is_under_way = b })
Deletions-ext p q i = record { begun = p i; is_under_way = q i }

step-deletions_of :
    (sid : String) (s : Lifecycle) (c : Call)
    → deletions_of sid (step s c) ≡ deletions_step sid (deletions_of sid s) c
unfolding step
step-deletions_of sid s (begins other) =
    Deletions-ext (ground (arith, version-begin s other sid, eq_iff other sid))
      (ground (arith, unavailable-begin s other sid, eq_iff other sid))
step-deletions_of sid s (rolls_back other) = Deletions-ext refl (unavailable-rollback s other sid)
step-deletions_of sid s (subscribes l) = refl
step-deletions_of sid s (unsubscribes l) = refl

-- After any calls, what the lifecycle says of a session is what the machine of that session comes to by
-- the same calls: no call that concerns another session, and no listener, makes a difference to it.
pub run-deletions_of :
    (sid : String) (s : Lifecycle) (cs : List Call)
    → deletions_of sid (run s cs) ≡ deletions_run sid (deletions_of sid s) cs
unfolding run
run-deletions_of sid s [] = refl
run-deletions_of sid s (c ∷ cs) =
    run-deletions_of sid (step s c) cs
    ∙ ap (λ d. deletions_run sid d cs) (step-deletions_of sid s c)
