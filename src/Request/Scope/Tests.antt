-- ===== src/Request/Scope/Tests.antt =====
-- Runs of the request scope.
use query_craft.Common.{◌≡◌, refl, false, List, [], ◌∷◌, none, some}
use query_craft.Common.Int.{pos}
use query_craft.Common.Value.{Value, error_of, error}
use query_craft.Request.Scope.{
  Options, Event, deadline, finite, timer_fires, parent_aborts, outside, aborts, disposes,
  construct, run, step,
}
use query_craft.Request.Scope.Laws.{IsSound, run-construct-IsSound}

abbrev timed : Options
timed = record { signal = some false; timeout = some (finite (pos 100)) }

abbrev child : Options
child = record { signal = some false; timeout = none }

abbrev offline : Value
offline = error_of error "Failed to fetch" "TypeError"

abbrev late : List Event
late = outside timer_fires ∷ outside parent_aborts ∷ aborts ∷ disposes ∷ []

first_wins : (run (construct timed) late).reason ≡ some deadline
unfolding run step construct
first_wins = refl

called_once : (run (construct timed) late).calls ≡ deadline ∷ []
unfolding run step construct
called_once = refl

run-construct-IsSound_example : IsSound (run (construct timed) late)
run-construct-IsSound_example = run-construct-IsSound timed late
