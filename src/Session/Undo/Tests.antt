-- ===== src/Session/Undo/Tests.antt =====
-- Runs of the undo toast.
use query_craft.Common.{◌≡◌, refl, true, false, List, [], ◌∷◌, none, some}
use query_craft.Session.Deletion.{Lifecycle}
use query_craft.Session.Undo.{
  Toast, open_toast, pause_countdown, resume_countdown, Event, undo, pauses, resumes, ticks, fires,
  step, run, timer_fires, handle_undo, tick,
}
use query_craft.Session.Undo.Laws.{
  IsDecided, starts, run-open_toast-IsDecided, pause_countdown-stuck,
}

abbrev quiet : Lifecycle
quiet = record { versions = []; unavailable = []; listeners = [] }

abbrev busy : List Event
busy = ticks 1_200 ∷ pauses ∷ resumes ∷ fires true ∷ undo ∷ fires false ∷ []

deleted_once : starts (run (open_toast "a" quiet) busy).calls ≡ 1
unfolding run step open_toast pause_countdown resume_countdown timer_fires handle_undo tick
deleted_once = refl

abbrev over : Toast
over = record {
  session_id = "a";
  remaining = 0;
  paused = false;
  has_expired = false;
  started = false;
  timer = some 5_000;
  in_flight = none;
  lifecycle = quiet;
  calls = [];
}

run-open_toast_example : IsDecided (run (open_toast "a" quiet) busy)
run-open_toast_example = run-open_toast-IsDecided "a" quiet busy

-- The state of `over` is that of a toast whose interval has reported that the time is up.
is_over : run (open_toast "a" quiet) (ticks 5_000 ∷ []) ≡ over
unfolding run step open_toast tick
is_over = refl

pause_countdown-stuck_example :
    starts (run (pause_countdown over) (resumes ∷ ticks 100 ∷ fires true ∷ [])).calls ≡ 0
pause_countdown-stuck_example =
    pause_countdown-stuck over (resumes ∷ ticks 100 ∷ fires true ∷ []) refl refl refl
