-- ===== src/Admin/Policies.antt =====
-- frontend/src/components/admin/PolicyEditor.tsx: the editor of a role's connection policies. The
-- props `policies` and `onChange` are the caller's state and its setter, here a field of the state.
-- An index comes from the list that the page shows, so a write past the end, which would lengthen
-- the array, does not occur; here it changes nothing.
pub mod Page
pub mod Saving
pub mod Places
pub mod Masks
pub mod Editing
mod Tests
use query_craft.Common.{
  ℕ, suc, String, Bool, true, false, not, ◌&&◌, ◌||◌, ◌==◌, ltb, List, [], ◌∷◌, ◌++◌, map, Option,
  none, some, if◌then◌else◌, str_eq, contains, add, without, keep, find, any, set, remove_at,
  get_elem?, length, is_blank,
}

-- An entry of `allowed_tables` or of `column_masks`.
pub record TableColumns : Type 0 where
  pub table : String
  pub columns : List String

pub record RowFilter : Type 0 where
  pub table : String
  pub filter : String

pub record Policy : Type 0 where
  pub connection_id : String
  pub allowed_tables : List TableColumns
  pub row_filters : List RowFilter
  pub column_masks : List TableColumns

-- `alerts` are the messages that the form has raised, the last one first.
pub record Editor : Type 0 where
  pub policies : List Policy
  pub editing_index : Option ℕ
  pub is_adding : Bool
  pub active_policy : Option Policy
  pub alerts : List String

abbrev pub open_editor : List Policy → Editor
open_editor ps = record {
  policies = ps;
  editing_index = none;
  is_adding = false;
  active_policy = none;
  alerts = [];
}

abbrev pub has_filter_error : RowFilter → Bool
has_filter_error f = str_eq f.table "" || is_blank f.filter

-- Whether `getValidationErrors` finds any.
unfoldable pub has_validation_errors : Policy → Bool
has_validation_errors p = any has_filter_error p.row_filters

abbrev pub empty_policy : String → Policy
empty_policy id = record {
  connection_id = id;
  allowed_tables = [];
  row_filters = [];
  column_masks = [];
}

unfoldable pub add_click : Editor → Editor
add_click s = record s {
  active_policy = some (empty_policy "");
  editing_index = none;
  is_adding = true;
}

unfoldable pub edit_click : ℕ → Editor → Editor
edit_click i s = elim (get_elem? s.policies i) [
  | none ↦ s
  | some p ↦ record s { active_policy = some p; editing_index = some i; is_adding = true }
]

unfoldable pub delete_click : ℕ → Editor → Editor
delete_click i s = record s { policies = remove_at s.policies i }

-- What a handler does to the active policy, if there is one.
unfoldable pub update : (Policy → Policy) → Editor → Editor
update f s = elim s.active_policy [ none ↦ s | some p ↦ record s { active_policy = some (f p) } ]

abbrev pub connection_change : String → Policy → Policy
connection_change id p = empty_policy id

abbrev pub is_table : String → TableColumns → Bool
is_table name t = str_eq t.table name

-- `findIndex` with the `splice` of what it finds.
abbrev pub remove_first : String → List TableColumns → List TableColumns
remove_first name [] = []
remove_first name (t ∷ ts) =
    let rest = remove_first name ts in if is_table name t then ts else t ∷ rest

unfoldable pub table_toggle : String → List String → Policy → Policy
table_toggle name all_columns p =
    if any (is_table name) p.allowed_tables
    then record p {
      allowed_tables = remove_first name p.allowed_tables;
      row_filters = keep (λ f. not (str_eq f.table name)) p.row_filters;
      column_masks = keep (λ m. not (is_table name m)) p.column_masks;
    }
    else record p {
      allowed_tables = p.allowed_tables ++ record { table = name; columns = all_columns } ∷ [];
    }

-- A column that is listed goes, one that is not is appended.
unfoldable pub toggle_column : String → List String → List String
toggle_column c cs = if contains cs c then without cs c else cs ++ c ∷ []

unfoldable pub toggle_in : String → String → TableColumns → TableColumns
unfolding toggle_column
toggle_in name c t = if is_table name t then record t { columns = toggle_column c t.columns } else t

-- The columns of the first entry for a table.
abbrev pub columns_of : String → List TableColumns → List String
columns_of name ts = elim (find (is_table name) ts) [ none ↦ [] | some t ↦ t.columns ]

unfoldable pub clip : String → List String → TableColumns → TableColumns
clip name allowed m =
    if is_table name m then record m { columns = keep (contains allowed) m.columns } else m

abbrev pub is_nonempty {ℓ} : {A : Type ℓ} → List A → Bool
is_nonempty [] = false
is_nonempty (x ∷ xs) = true

unfoldable pub column_toggle : String → String → Policy → Policy
unfolding toggle_in clip
column_toggle name c p =
    let allowed = map (toggle_in name c) p.allowed_tables in
    record p {
      allowed_tables = allowed;
      column_masks =
          keep (λ m. is_nonempty m.columns)
            (map (clip name (columns_of name allowed)) p.column_masks);
    }

abbrev pub add_row_filter : Policy → Policy
add_row_filter p = record p {
  row_filters = p.row_filters ++ record { table = ""; filter = "" } ∷ [];
}

pub data Key : Type 0 where
  table_key filter_key : Key

abbrev pub with_key : Key → String → RowFilter → RowFilter
with_key table_key v f = record f { table = v }
with_key filter_key v f = record f { filter = v }

unfoldable pub update_row_filter : ℕ → Key → String → Policy → Policy
update_row_filter i k v p = elim (get_elem? p.row_filters i) [
  | none ↦ p
  | some f ↦ record p { row_filters = set p.row_filters i (with_key k v f) }
]

abbrev pub remove_row_filter : ℕ → Policy → Policy
remove_row_filter i p = record p { row_filters = remove_at p.row_filters i }

abbrev pub add_column_mask : Policy → Policy
add_column_mask p = record p {
  column_masks = p.column_masks ++ record { table = ""; columns = [] } ∷ [];
}

abbrev pub update_column_mask_table : ℕ → String → Policy → Policy
update_column_mask_table i name p = record p {
  column_masks = set p.column_masks i (record { table = name; columns = [] });
}

unfoldable pub toggle_column_mask : ℕ → String → Policy → Policy
toggle_column_mask i c p = elim (get_elem? p.column_masks i) [
  | none ↦ p
  | some m ↦ record p {
    column_masks = set p.column_masks i (record m { columns = toggle_column c m.columns });
  }
]

abbrev pub remove_column_mask : ℕ → Policy → Policy
remove_column_mask i p = record p { column_masks = remove_at p.column_masks i }

-- `findIndex((p, idx) => …) > -1`, from the index `i` on.
abbrev pub is_editing : Option ℕ → ℕ → Bool
is_editing none i = false
is_editing (some e) i = i == e

abbrev pub duplicates : String → Option ℕ → ℕ → List Policy → Bool
duplicates id e i [] = false
duplicates id e i (p ∷ ps) =
    (str_eq p.connection_id id && not (is_editing e i)) || duplicates id e (suc i) ps

abbrev pub is_kept_mask : TableColumns → Bool
is_kept_mask m = not (str_eq m.table "") && is_nonempty m.columns

-- The message of `handleSaveActive` when it refuses the active policy.
unfoldable pub save_error : Policy → Editor → Option String
unfolding has_validation_errors
save_error p s =
    if str_eq p.connection_id ""
    then some "admin.roles.form.connectionRequired"
    else if duplicates p.connection_id s.editing_index 0 s.policies
    then some "admin.roles.form.duplicateConnectionPolicy"
    else if not (is_nonempty p.allowed_tables)
    then some "admin.roles.form.noAllowedTables"
    else if any (λ t. not (is_nonempty t.columns)) p.allowed_tables
    then some "admin.roles.form.noAllowedColumns"
    else if has_validation_errors p
    then some "admin.roles.form.validationError"
    else none

abbrev pub policy_to_save : Policy → Policy
policy_to_save p = record p { column_masks = keep is_kept_mask p.column_masks }

abbrev pub next_policies : Policy → Option ℕ → List Policy → List Policy
next_policies p none ps = ps ++ p ∷ []
next_policies p (some i) ps = set ps i p

unfoldable pub save_policy : Policy → Editor → Editor
save_policy p s = elim (save_error p s) [
  | some message ↦ record s { alerts = message ∷ s.alerts }
  | none ↦ record s {
    policies = next_policies (policy_to_save p) s.editing_index s.policies;
    is_adding = false;
    active_policy = none;
  }
]

unfoldable pub save_active : Editor → Editor
save_active s = elim s.active_policy [ none ↦ s | some p ↦ save_policy p s ]

abbrev pub cancel_active : Editor → Editor
cancel_active s = record s { is_adding = false; active_policy = none }
