-- ===== src/Workspace/Selection/Skipping.antt =====
-- A choice that frontend/src/hooks/useConnectionSelection.ts does not send.
use query_craft.Common.{String, Bool, true, false, List, [], ◌∷◌, none, some}
use query_craft.Workspace.Selection.{Selection, Arguments}

abbrev waiting : String → String → List String → Bool → Selection
waiting c sid available can_submit = record {
  session_id = some sid;
  initial_connection_id = some c;
  available = available;
  can_submit = can_submit;
  selected = some c;
  next = some c;
  user_selected = false;
  skip_next_patch = true;
  prev_selected = some c;
  patches = [];
}

abbrev alone_arguments : String → Bool → Arguments
alone_arguments c can_submit = record {
  session_id = none;
  initial_connection_id = none;
  available = c ∷ [];
  can_submit = can_submit;
}

abbrev session_arguments : String → String → List String → Bool → Arguments
session_arguments c sid available can_submit = record {
  session_id = some sid;
  initial_connection_id = some c;
  available = available;
  can_submit = can_submit;
}
