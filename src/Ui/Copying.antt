-- ===== src/Ui/Copying.antt =====
-- frontend/src/hooks/useCopyToClipboard.ts: the confirmation that a text was copied. The timers that
-- the platform runs are a list; how long one takes is left open: it may fire at any time while it
-- runs. The copied text is not kept.
pub mod Laws
mod Tests
use query_craft.Common.{
  ℕ, ◌+◌, Bool, true, false, not, List, [], ◌∷◌, Option, none, some, ◌==◌, if◌then◌else◌, any,
}

-- `CopyStatus`.
pub data CopyStatus : Type 0 where
  idle copied failed : CopyStatus

-- What the clipboard does: there is none, the write is taken, or it is refused or throws.
pub data Write : Type 0 where
  no_clipboard written refused : Write

pub record Copying : Type 0 where
  pub status : CopyStatus
  pub timer : Option ℕ
  pub is_mounted : Bool
  pub running : List ℕ
  pub next_timer : ℕ

unfoldable pub initial : Copying
initial = record { status = idle; timer = none; is_mounted = true; running = []; next_timer = 0 }

abbrev pub is_running : ℕ → List ℕ → Bool
is_running t ts = any (λ s. s == t) ts

abbrev pub stopped : ℕ → List ℕ → List ℕ
stopped t [] = []
stopped t (s ∷ ts) = let rest = stopped t ts in if s == t then rest else s ∷ rest

unfoldable pub clear_timer : Copying → Copying
clear_timer c = elim c.timer [
  | none ↦ c
  | some t ↦ record c { timer = none; running = stopped t c.running }
]

unfoldable pub schedule_reset : Copying → Copying
unfolding clear_timer
schedule_reset c = started (clear_timer c)
  where
    started : Copying → Copying
    started d = record d {
      timer = some d.next_timer;
      running = d.next_timer ∷ d.running;
      next_timer = d.next_timer + 1;
    }

-- The callback of a timer.
unfoldable pub reset_fires : ℕ → Copying → Copying
reset_fires t c =
    if is_running t c.running
    then record c {
      timer = none;
      running = stopped t c.running;
      status = if c.is_mounted then idle else c.status;
    }
    else c

abbrev pub succeeded : Write → Bool
succeeded written = true
succeeded w = false

-- The rest of `copy` once the clipboard has answered; the promise gives `succeeded`.
unfoldable pub copy_end : Write → Copying → Copying × Bool
unfolding clear_timer schedule_reset
copy_end w c = (if c.is_mounted then shown (succeeded w) (clear_timer c) else c, succeeded w)
  where
    shown : Bool → Copying → Copying
    shown true d = schedule_reset (record d { status = copied })
    shown false d = record d { status = failed }

unfoldable pub reset_status : Copying → Copying
unfolding clear_timer
reset_status c = idled (clear_timer c)
  where
    idled : Copying → Copying
    idled d = record d { status = if d.is_mounted then idle else d.status }

unfoldable pub unmount : Copying → Copying
unfolding clear_timer
unmount c = clear_timer (record c { is_mounted = false })

pub data Event : Type 0 where
  answers : Write → Event
  resets unmounts : Event
  fires : ℕ → Event

unfoldable pub step : Copying → Event → Copying
step c (answers w) = (copy_end w c).0
step c resets = reset_status c
step c unmounts = unmount c
step c (fires t) = reset_fires t c

unfoldable pub run : Copying → List Event → Copying
unfolding step
run c [] = c
run c (e ∷ es) = run (step c e) es
