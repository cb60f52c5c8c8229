-- ===== src/Workspace/Selection.antt =====
-- frontend/src/hooks/useConnectionSelection.ts: which connection is selected, and when the choice is
-- sent to the server. An event is a render with other arguments or a choice of the user; it is followed
-- by the hook's effects, and by another render and its effects when one of them selects a connection.
-- The updater of a state runs where it is passed. A request that the permission forbids is thrown away
-- before it is sent.
pub mod Rendering
pub mod Settled
pub mod Laws
pub mod Skipping
mod Tests
use query_craft.Common.{
  String, Bool, true, false, not, ◌&&◌, List, [], ◌∷◌, ◌++◌, Option, none, some, str_eq,
  if◌then◌else◌,
}
use query_craft.Workspace.Page.{same_id, is_set}

-- `selected` is what is rendered, `next` what the next render shows. `patches` are the requests made:
-- the session and the connection.
pub record Selection : Type 0 where
  pub session_id : Option String
  pub initial_connection_id : Option String
  pub available : List String
  pub can_submit : Bool
  pub selected : Option String
  pub next : Option String
  pub user_selected : Bool
  pub skip_next_patch : Bool
  pub prev_selected : Option String
  pub patches : List (String × String)

unfoldable pub sync_effect : Selection → Selection
sync_effect s =
    if not s.user_selected
      && not (same_id s.initial_connection_id none)
      && not (same_id s.next s.initial_connection_id)
    then record s { skip_next_patch = true; next = s.initial_connection_id }
    else s

abbrev pub only : List String → Option String
only (id ∷ []) = some id
only ids = none

unfoldable pub auto_select_effect : Selection → Selection
auto_select_effect s =
    if not s.user_selected && same_id s.selected none && same_id s.initial_connection_id none
    then elim (only s.available) [
      | none ↦ s
      | some id ↦ record s { skip_next_patch = true; next = some id }
    ]
    else s

-- The mutation: the request, where the permission allows it.
abbrev pub mutate : Option String → String → Selection → Selection
mutate none connection s = s
mutate (some session) connection s =
    if s.can_submit then record s { patches = s.patches ++ (session, connection) ∷ [] } else s

abbrev pub patch_selected : Option String → Selection → Selection
patch_selected none s = s
patch_selected (some connection) s =
    if s.skip_next_patch
    then record s { skip_next_patch = false }
    else mutate s.session_id connection s

unfoldable pub patch_effect : Selection → Selection
patch_effect s =
    if same_id s.prev_selected s.selected
    then s
    else if is_set s.session_id && is_set s.selected
    then patch_selected s.selected (record s { prev_selected = s.selected })
    else record s { prev_selected = s.selected }

-- One run of the effects, the first of them only where the initial connection is another.
unfoldable pub effects : Bool → Selection → Selection
unfolding sync_effect auto_select_effect patch_effect
effects is_synced s = patch_effect (auto_select_effect (if is_synced then sync_effect s else s))

abbrev pub rerender : Selection → Selection
rerender s = record s { selected = s.next }

unfoldable pub render : Bool → Selection → Selection
unfolding effects
render is_synced s =
    let t = effects is_synced s in
    if same_id t.selected t.next then t else effects false (rerender t)

pub record Arguments : Type 0 where
  pub session_id : Option String
  pub initial_connection_id : Option String
  pub available : List String
  pub can_submit : Bool

pub data Event : Type 0 where
  given : Arguments → Event
  chosen : Option String → Event

unfoldable pub with_arguments : Arguments → Selection → Selection
with_arguments a s = record s {
  session_id = a.session_id;
  initial_connection_id = a.initial_connection_id;
  available = a.available;
  can_submit = a.can_submit;
}

-- `setSelectedConnectionId`.
unfoldable pub set_selected_connection_id : Option String → Selection → Selection
set_selected_connection_id id s = record s { user_selected = true; next = id }

unfoldable pub step : Selection → Event → Selection
unfolding render with_arguments set_selected_connection_id
step s (given a) =
    render (not (same_id s.initial_connection_id a.initial_connection_id)) (with_arguments a s)
step s (chosen id) =
    let t = set_selected_connection_id id s in
    if same_id t.selected t.next then t else render false (rerender t)

-- The state at the first render.
abbrev pub mounted : Arguments → Selection
mounted a = record {
  session_id = a.session_id;
  initial_connection_id = a.initial_connection_id;
  available = a.available;
  can_submit = a.can_submit;
  selected = a.initial_connection_id;
  next = a.initial_connection_id;
  user_selected = false;
  skip_next_patch = false;
  prev_selected = a.initial_connection_id;
  patches = [];
}

unfoldable pub mount : Arguments → Selection
unfolding render
mount a = render true (mounted a)

unfoldable pub run : Selection → List Event → Selection
unfolding step
run s [] = s
run s (e ∷ es) = run (step s e) es
