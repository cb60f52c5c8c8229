-- ===== src/Workspace/Selection/Tests.antt =====
-- A selection that the hook makes, and one that the user makes.
use query_craft.Common.{refl, String, true, List, [], ◌∷◌, Option, some}
use query_craft.Workspace.Selection.{Selection, Arguments, chosen, step, mounted}
use query_craft.Workspace.Selection.Rendering.{IsStable}
use query_craft.Workspace.Selection.Laws.{IsSent, step-IsStable}

abbrev arguments : Option String → Option String → List String → Arguments
arguments session initial available = record {
  session_id = session;
  initial_connection_id = initial;
  available = available;
  can_submit = true;
}

abbrev opened : Selection
opened = mounted (arguments (some "s1") (some "c1") ("c1" ∷ "c2" ∷ []))

step-IsStable_example :
    IsStable (step opened (chosen (some "c2")))
    × IsSent opened (chosen (some "c2")) (step opened (chosen (some "c2")))
step-IsStable_example =
    step-IsStable opened (chosen (some "c2")) (record { shown = refl; compared = refl })
