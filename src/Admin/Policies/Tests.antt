-- ===== src/Admin/Policies/Tests.antt =====
-- A run of the policy editor.
use query_craft.Common.{true, ◌≡◌, refl, List, [], ◌∷◌, none, some}
use query_craft.Admin.Policies.{
  Policy, TableColumns, Editor, open_editor, save_error, add_click, update, table_toggle,
}
use query_craft.Admin.Policies.Page.{
  Event, adds, edits, changes, saves, changes_connection, toggles_table, toggles_column, edit, run,
  step,
}
use query_craft.Admin.Policies.Saving.{IsValid, run-IsValid}
use query_craft.Admin.Policies.Places.{is_place}
use query_craft.Admin.Policies.Masks.{IsMasked}
use query_craft.Admin.Policies.Editing.{edit-IsMasked}

abbrev orders : TableColumns
orders = record { table = "orders"; columns = "id" ∷ "email" ∷ [] }

abbrev sales : Policy
sales = record {
  connection_id = "sales";
  allowed_tables = orders ∷ [];
  row_filters = [];
  column_masks = record { table = "orders"; columns = "email" ∷ [] } ∷ [];
}

abbrev opened : Editor
opened = open_editor (sales ∷ [])

abbrev entered : List Event
entered =
    adds ∷ changes (changes_connection "crm") ∷ changes (toggles_table "leads" ("id" ∷ [])) ∷ []

valid : IsValid opened
valid = record {
  distinct = (tt, tt);
  complete = (
    record {
      connected = refl;
      tabled = refl;
      columned = refl;
      filtered = refl;
      masked = (refl, tt);
    },
    tt,
  );
}

run-IsValid_example :
    IsValid (run opened (edits 0 ∷ changes (toggles_column "orders" "id") ∷ saves ∷ []))
run-IsValid_example =
    run-IsValid opened (edits 0 ∷ changes (toggles_column "orders" "id") ∷ saves ∷ []) valid

abbrev leads : Policy
leads = record {
  connection_id = "crm";
  allowed_tables = record { table = "leads"; columns = "id" ∷ [] } ∷ [];
  row_filters = [];
  column_masks = [];
}

is_entered : (run opened entered).active_policy ≡ some leads
unfolding run step add_click update edit table_toggle
is_entered = refl

is_accepted : save_error leads (run opened entered) ≡ none
unfolding run step add_click update edit table_toggle save_error
is_accepted = refl

is_last : is_place (run opened entered).editing_index (run opened entered).policies ≡ true
unfolding run step add_click update edit table_toggle
is_last = refl

-- A second policy for the same connection is refused.
refuses_duplicate : save_error sales opened ≡ some "admin.roles.form.duplicateConnectionPolicy"
unfolding save_error
refuses_duplicate = refl

edit-IsMasked_example : IsMasked (edit (some 0) (toggles_column "orders" "email") sales)
edit-IsMasked_example =
    edit-IsMasked (some 0) (toggles_column "orders" "email") sales
      (record { within = ((refl, tt), tt) })
