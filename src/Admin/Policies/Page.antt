-- ===== src/Admin/Policies/Page.antt =====
-- The page of frontend/src/components/admin/PolicyEditor.tsx: which handlers it offers when.
use query_craft.Common.{
  ℕ, String, Bool, true, false, not, List, [], ◌∷◌, Option, none, some, if◌then◌else◌, contains,
  get_elem?,
}
use query_craft.Admin.Policies.{
  Policy, Editor, Key, columns_of, add_click, edit_click, delete_click, update, save_active,
  cancel_active, connection_change, table_toggle, column_toggle, add_row_filter, update_row_filter,
  remove_row_filter, add_column_mask, update_column_mask_table, toggle_column_mask,
  remove_column_mask,
}

abbrev pub shows_form : Editor → Bool
shows_form s = elim s.active_policy [ none ↦ false | some p ↦ s.is_adding ]

-- The columns that the form offers for a mask: those of the table in `allowed_tables`.
abbrev pub offers : ℕ → String → Policy → Bool
offers i c p = elim (get_elem? p.column_masks i) [
  | none ↦ false
  | some m ↦ contains (columns_of m.table p.allowed_tables) c
]

-- What a user can do to the active policy.
pub data Edit : Type 0 where
  changes_connection : String → Edit
  toggles_table : String → List String → Edit
  toggles_column : String → String → Edit
  adds_filter : Edit
  updates_filter : ℕ → Key → String → Edit
  removes_filter : ℕ → Edit
  adds_mask : Edit
  updates_mask : ℕ → String → Edit
  toggles_mask : ℕ → String → Edit
  removes_mask : ℕ → Edit

-- The selector of the connection is disabled while a policy is edited, and a mask offers the columns
-- of its table only.
unfoldable pub edit : Option ℕ → Edit → Policy → Policy
unfolding table_toggle column_toggle update_row_filter toggle_column_mask
edit e (changes_connection id) p = elim e [ none ↦ connection_change id p | some i ↦ p ]
edit e (toggles_table name cs) p = table_toggle name cs p
edit e (toggles_column name c) p = column_toggle name c p
edit e adds_filter p = add_row_filter p
edit e (updates_filter i k v) p = update_row_filter i k v p
edit e (removes_filter i) p = remove_row_filter i p
edit e adds_mask p = add_column_mask p
edit e (updates_mask i name) p = update_column_mask_table i name p
edit e (toggles_mask i c) p = if offers i c p then toggle_column_mask i c p else p
edit e (removes_mask i) p = remove_column_mask i p

pub data Event : Type 0 where
  adds : Event
  edits deletes : ℕ → Event
  changes : Edit → Event
  saves cancels : Event

abbrev pub in_form : Event → Bool
in_form adds = false
in_form (edits i) = false
in_form (deletes i) = false
in_form e = true

abbrev pub act : Editor → Event → Editor
act s adds = add_click s
act s (edits i) = edit_click i s
act s (deletes i) = delete_click i s
act s (changes e) = update (edit s.editing_index e) s
act s saves = save_active s
act s cancels = cancel_active s

abbrev pub is_offered : Bool → Bool → Bool
is_offered true b = b
is_offered false b = not b

-- The page shows the form or the list, and each offers its own events only.
unfoldable pub step : Editor → Event → Editor
step s e = if is_offered (shows_form s) (in_form e) then act s e else s

unfoldable pub run : Editor → List Event → Editor
run s [] = s
run s (e ∷ es) = run (step s e) es
