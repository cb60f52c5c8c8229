-- ===== src/Session/Deletion/Tests.antt =====
-- Runs of the session deletion lifecycle.
use query_craft.Common.{◌≡◌, refl, true, false, [], ◌∷◌}
use query_craft.Session.Deletion.{
  Lifecycle, begins, rolls_back, subscribes, deletion_version, is_unavailable, did_start,
  begin_deletion, run, step,
}
use query_craft.Session.Deletion.Laws.{did_start-begin}
use query_craft.Session.Deletion.Refine.{deletions_of, deletions_run, run-deletions_of}

abbrev watched : Lifecycle
watched = record { versions = []; unavailable = "old" ∷ []; listeners = 2 ∷ 1 ∷ [] }

began : did_start "a" 0 (run watched (begins "a" ∷ [])) ≡ true
unfolding did_start run step
began = refl

gone_already : did_start "old" 0 (run watched (begins "old" ∷ [])) ≡ false
unfolding did_start run step
gone_already = refl

available : is_unavailable "a" watched ≡ false
unfolding is_unavailable
available = refl

did_start-begin_example :
    did_start "a"
      (deletion_version "a" watched)
      (run (begin_deletion "a" watched).0 (rolls_back "a" ∷ subscribes 3 ∷ []))
    ≡ true
did_start-begin_example = did_start-begin watched "a" (rolls_back "a" ∷ subscribes 3 ∷ []) available

run-deletions_of_example :
    deletions_of "a" (run watched (begins "a" ∷ begins "b" ∷ rolls_back "a" ∷ begins "a" ∷ []))
    ≡ deletions_run "a"
        (deletions_of "a" watched)
        (begins "a" ∷ begins "b" ∷ rolls_back "a" ∷ begins "a" ∷ [])
run-deletions_of_example =
    run-deletions_of "a" watched (begins "a" ∷ begins "b" ∷ rolls_back "a" ∷ begins "a" ∷ [])
