-- ===== src/Session/Undo/Laws.antt =====
-- A toast decides once, for the deletion or for the undo.
use query_craft.Common.{
  ℕ, ◌+◌, ◌≡◌, ◌==◌, refl, String, Bool, false, List, [], ◌∷◌, none, some, arith, if◌then◌else◌,
}
use query_craft.Session.Deletion.{Lifecycle}
use query_craft.Session.Undo.{
  Toast, Callback, undone, delete_started, open_toast, handle_undo, pause_countdown,
  resume_countdown, tick, timer_fires, delete_succeeds, delete_fails, Event, undo, pauses, resumes,
  succeeds, fails, unmounts, unmount, ticks, fires, step, run,
}

-- How often the toast was undone, and how often it started the deletion.
abbrev pub undos : List Callback → ℕ
undos [] = 0
undos (undone ∷ cs) = undos cs + 1
undos (_ ∷ cs) = undos cs

abbrev pub starts : List Callback → ℕ
starts [] = 0
starts (delete_started ∷ cs) = starts cs + 1
starts (_ ∷ cs) = starts cs

abbrev pub one_if : Bool → ℕ
one_if b = if b then 1 else 0

-- One decision once the toast has expired, none before; the deletion is under way only if it was
-- started.
pub record IsDecided (s : Toast) : Type 0 where
  pub once : undos s.calls + starts s.calls ≡ one_if s.has_expired
  pub begun : starts s.calls ≡ one_if s.started

pause-IsDecided : (s : Toast) → IsDecided s → IsDecided (pause_countdown s)
unfolding pause_countdown
pause-IsDecided s v = ground (arith, v.once, v.begun)

step-IsDecided : (s : Toast) (e : Event) → IsDecided s → IsDecided (step s e)
unfolding step handle_undo pause_countdown resume_countdown delete_succeeds delete_fails tick
    timer_fires unmount
step-IsDecided s undo v = ground (arith, v.once, v.begun)
step-IsDecided s pauses v = ground (arith, v.once, v.begun)
step-IsDecided s resumes v = ground (arith, v.once, v.begun)
step-IsDecided s succeeds v = ground (arith, v.once, v.begun)
step-IsDecided s fails v = ground (arith, v.once, v.begun)
step-IsDecided s unmounts v = ground (arith, v.once, v.begun)
step-IsDecided s (ticks elapsed) v = ground (arith, v.once, v.begun)
step-IsDecided s (fires restore) v = ground (arith, v.once, v.begun)

open-IsDecided : (sid : String) (l : Lifecycle) → IsDecided (open_toast sid l)
unfolding open_toast
open-IsDecided sid l = record { once = refl; begun = refl }

run-IsDecided : (s : Toast) (es : List Event) → IsDecided s → IsDecided (run s es)
unfolding run
run-IsDecided s [] v = v
run-IsDecided s (e ∷ es) v = run-IsDecided (step s e) es (step-IsDecided s e v)

-- Whatever happens to a toast, it is decided at most once: it is undone or it starts the deletion,
-- never both and neither twice, and the deletion counts as started exactly where it was.
pub run-open_toast-IsDecided :
    (sid : String) (l : Lifecycle) (es : List Event) → IsDecided (run (open_toast sid l) es)
run-open_toast-IsDecided sid l es = run-IsDecided (open_toast sid l) es (open-IsDecided sid l)

-- A pause keeps the time that is left: the countdown that is resumed runs for exactly that time.
pub resume_countdown-pause_countdown :
    (s : Toast)
    → s.paused ≡ false
    → s.has_expired ≡ false
    → ((pause_countdown s).timer ≡ none)
      × ((resume_countdown (pause_countdown s)).remaining ≡ s.remaining)
      × ((resume_countdown (pause_countdown s)).timer
          ≡ (if s.remaining == 0 then none else some s.remaining))
unfolding pause_countdown resume_countdown
resume_countdown-pause_countdown s p h = ground (arith, p, h)

-- No time is left and no timer runs.
record IsStuck (s : Toast) : Type 0 where
  empty : s.remaining ≡ 0
  still : s.timer ≡ none
  none_started : starts s.calls ≡ 0

step-IsStuck : (s : Toast) (e : Event) → IsStuck s → IsStuck (step s e)
unfolding step handle_undo pause_countdown resume_countdown delete_succeeds delete_fails tick
    timer_fires unmount
step-IsStuck s undo v = ground (arith, v.empty, v.still, v.none_started)
step-IsStuck s pauses v = ground (arith, v.empty, v.still, v.none_started)
step-IsStuck s resumes v = ground (arith, v.empty, v.still, v.none_started)
step-IsStuck s succeeds v = ground (arith, v.empty, v.still, v.none_started)
step-IsStuck s fails v = ground (arith, v.empty, v.still, v.none_started)
step-IsStuck s unmounts v = ground (arith, v.empty, v.still, v.none_started)
step-IsStuck s (ticks elapsed) v = ground (arith, v.empty, v.still, v.none_started)
step-IsStuck s (fires restore) v = ground (arith, v.empty, v.still, v.none_started)

run-stuck : (s : Toast) (es : List Event) → IsStuck s → starts (run s es).calls ≡ 0
unfolding run
run-stuck s [] v = v.none_started
run-stuck s (e ∷ es) v = run-stuck (step s e) es (step-IsStuck s e v)

pause-IsStuck :
    (s : Toast)
    → s.remaining ≡ 0
    → s.paused ≡ false
    → starts s.calls ≡ 0
    → IsStuck (pause_countdown s)
unfolding pause_countdown
pause-IsStuck s h p n = ground (arith, h, p, n)

-- A toast that is paused after a tick has found no time left, and before its timer has fired, never
-- starts the deletion: resuming it sets no timer.
pub pause_countdown-stuck :
    (s : Toast) (es : List Event)
    → s.remaining ≡ 0
    → s.paused ≡ false
    → starts s.calls ≡ 0
    → starts (run (pause_countdown s) es).calls ≡ 0
pause_countdown-stuck s es h p n = run-stuck (pause_countdown s) es (pause-IsStuck s h p n)
