-- ===== src/Session/Undo.antt =====
-- frontend/src/components/sidebar/UndoToast.tsx: the countdown after which a session is deleted, and
-- the undo that stops it. The clock enters by the time that a tick reports; the parent's callbacks
-- are listed in `calls`, the last one first.
pub mod Laws
mod Tests
use query_craft.Common.{
  ℕ, ◌-◌, ◌==◌, String, Bool, true, false, not, ◌||◌, List, [], ◌∷◌, Option, none, some,
  if◌then◌else◌,
}
use query_craft.Session.Deletion.{Lifecycle, begin_deletion, rollback}

-- The calls of `onUndo`, `onDeleteStarted`, `onDeleteFailed` and `onExpired`.
pub data Callback : Type 0 where
  undone delete_started expired : Callback
  delete_failed : Bool → Callback

-- `timer` is the delay of the timer that runs, with its interval. `in_flight` is what
-- `onDeleteStarted` returned, while the mutation runs.
pub record Toast : Type 0 where
  pub session_id : String
  pub remaining : ℕ
  pub paused : Bool
  pub has_expired : Bool
  pub started : Bool
  pub timer : Option ℕ
  pub in_flight : Option Bool
  pub lifecycle : Lifecycle
  pub calls : List Callback

abbrev pub undo_duration : ℕ
undo_duration = 5_000

-- The effect of the countdown: the old timer is cleared, and a new one runs unless the toast is
-- paused, has expired or has no time left.
unfoldable pub restart : Toast → Toast
restart s =
    if s.paused || s.has_expired || s.remaining == 0
    then record s { timer = none }
    else record s { timer = some s.remaining }

unfoldable pub open_toast : String → Lifecycle → Toast
unfolding restart
open_toast sid l = restart (record {
  session_id = sid;
  remaining = undo_duration;
  paused = false;
  has_expired = false;
  started = false;
  timer = none;
  in_flight = none;
  lifecycle = l;
  calls = [];
})

-- `fireDeletion`, with what `onDeleteStarted` returns.
unfoldable pub fire_deletion : Bool → Toast → Toast
fire_deletion restore s = if s.has_expired then s else record s {
  has_expired = true;
  started = true;
  in_flight = some restore;
  lifecycle = (begin_deletion s.session_id s.lifecycle).0;
  calls = delete_started ∷ s.calls;
}

unfoldable pub handle_undo : Toast → Toast
handle_undo s =
    if s.has_expired then s else record s { has_expired = true; calls = undone ∷ s.calls }

-- The effect runs again where `paused` changes.
unfoldable pub pause_countdown : Toast → Toast
unfolding restart
pause_countdown s = if s.paused then s else restart (record s { paused = true })

unfoldable pub resume_countdown : Toast → Toast
unfolding restart
resume_countdown s = if s.paused then restart (record s { paused = false }) else s

-- The interval's callback, so many milliseconds after the effect ran.
unfoldable pub tick : ℕ → Toast → Toast
tick elapsed s = elim s.timer [ none ↦ s | some base ↦ record s { remaining = base - elapsed } ]

unfoldable pub timer_fires : Bool → Toast → Toast
unfolding fire_deletion
timer_fires restore s = elim s.timer [
  | none ↦ s
  | some base ↦ fire_deletion restore (record s { timer = none })
]

unfoldable pub delete_succeeds : Toast → Toast
delete_succeeds s = elim s.in_flight [
  | none ↦ s
  | some restore ↦ record s { in_flight = none; calls = expired ∷ s.calls }
]

unfoldable pub delete_fails : Toast → Toast
delete_fails s = elim s.in_flight [
  | none ↦ s
  | some restore ↦ record s {
    in_flight = none;
    lifecycle = rollback s.session_id s.lifecycle;
    calls = expired ∷ delete_failed restore ∷ s.calls;
  }
]

unfoldable pub unmount : Toast → Toast
unmount s = record s { timer = none }

pub data Event : Type 0 where
  undo pauses resumes succeeds fails unmounts : Event
  ticks : ℕ → Event
  fires : Bool → Event

unfoldable pub step : Toast → Event → Toast
step s undo = handle_undo s
step s pauses = pause_countdown s
step s resumes = resume_countdown s
step s succeeds = delete_succeeds s
step s fails = delete_fails s
step s unmounts = unmount s
step s (ticks elapsed) = tick elapsed s
step s (fires restore) = timer_fires restore s

unfoldable pub run : Toast → List Event → Toast
run s [] = s
run s (e ∷ es) = run (step s e) es
