-- ===== src/Ui/Copying/Tests.antt =====
-- Two copies in a row, and one whose page is gone before the clipboard answers.
use query_craft.Common.{ℕ, ◌≡◌, ◌≢◌, ◌⊎◌, refl, true, [], ◌∷◌}
use query_craft.Ui.Copying.{
  copied, idle, written, initial, answers, unmounts, clear_timer, schedule_reset, copy_end, unmount,
  step, run,
}
use query_craft.Ui.Copying.Laws.{IsEnding, run-initial-ends}

copied_twice : (run initial (answers written ∷ answers written ∷ [])).running ≡ 1 ∷ []
unfolding initial run step copy_end clear_timer schedule_reset
copied_twice = refl

answered_late : (run initial (unmounts ∷ answers written ∷ [])).status ≡ idle
unfolding initial run step copy_end unmount clear_timer
answered_late = refl

run-initial-ends_example :
    (((run initial (answers written ∷ answers written ∷ [])).is_mounted ≡ true)
      × ((run initial (answers written ∷ answers written ∷ [])).status ≡ copied)
      × (t : ℕ) × IsEnding (run initial (answers written ∷ answers written ∷ [])) t)
    ⊎ (((run initial (answers written ∷ answers written ∷ [])).is_mounted ≡ true
          → (run initial (answers written ∷ answers written ∷ [])).status ≢ copied)
        × ((run initial (answers written ∷ answers written ∷ [])).running ≡ []))
run-initial-ends_example = run-initial-ends (answers written ∷ answers written ∷ [])
