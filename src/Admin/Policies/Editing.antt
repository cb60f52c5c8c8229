-- ===== src/Admin/Policies/Editing.antt =====
-- Whatever is edited in a policy, its masks stay within what it allows.
use query_craft.Common.{
  ℕ, zero, suc, ◌≡◌, String, Bool, true, false, List, [], ◌∷◌, ◌++◌, Option, none, some,
  if◌then◌else◌, str_eq, arith, refl, ◌∙◌, sym, subst, set, get_elem?, contains, without, All,
  All-append, All-set, All-remove_at,
}
use mathlib.Core.Bool.{true≢false}
use query_craft.Admin.Policies.Page.{
  offers, Edit, changes_connection, toggles_table, toggles_column, adds_filter, updates_filter,
  removes_filter, adds_mask, updates_mask, toggles_mask, removes_mask, edit,
}
use query_craft.Admin.Policies.{
  RowFilter, with_key, TableColumns, Policy, Key, columns_of, toggle_column, toggle_column_mask,
  update_row_filter,
}
use query_craft.Admin.Policies.Masks.{
  Within, IsMasked, column_toggle-IsMasked, table_toggle-IsMasked,
}

module _ (P : String → Type 0) where
  All-without : (cs : List String) (c : String) → All P cs → All P (without cs c)
  All-without [] c h = tt
  All-without (d ∷ cs) c h =
      if-All (str_eq d c) (without cs c) (d ∷ without cs c) (All-without cs c h.1)
        (h.0, All-without cs c h.1)
    where
      if-All : (b : Bool) (xs ys : List String) → All P xs → All P ys → All P (if b then xs else ys)
      if-All true xs ys h k = h
      if-All false xs ys h k = k

  All-toggle_column : (cs : List String) (c : String) → P c → All P cs → All P (toggle_column c cs)
  unfolding toggle_column
  All-toggle_column cs c p h = by_contains (contains cs c)
    where
      by_contains : (b : Bool) → All P (if b then without cs c else cs ++ c ∷ [])
      by_contains true = All-without cs c h
      by_contains false = All-append P cs (c ∷ []) h (p, tt)

All-get {ℓ} :
    {A : Type ℓ} (P : A → Type 0) (xs : List A) (i : ℕ) (a : A)
    → All P xs
    → get_elem? xs i ≡ some a
    → P a
All-get P [] i a h g = absurd (ground (arith, g))
All-get P (x ∷ xs) zero a h g = subst P (ground (arith, g)) h.0
All-get P (x ∷ xs) (suc i) a h g = All-get P xs i a h.1 g

mask-set :
    (i : ℕ) (c : String) (p : Policy) (m : TableColumns)
    → get_elem? p.column_masks i ≡ some m
    → toggle_column_mask i c p ≡ record p {
      column_masks =
          set p.column_masks i (record { table = m.table; columns = toggle_column c m.columns });
    }
unfolding toggle_column_mask
mask-set i c p m g = ground (arith, g)

toggle_column_mask-IsMasked :
    (i : ℕ) (c : String) (p : Policy) (m : TableColumns)
    → get_elem? p.column_masks i ≡ some m
    → contains (columns_of m.table p.allowed_tables) c ≡ true
    → IsMasked p
    → IsMasked (toggle_column_mask i c p)
toggle_column_mask-IsMasked i c p m g h v = subst IsMasked (sym (mask-set i c p m g)) (record {
  within = All-set (Within p.allowed_tables) p.column_masks i _ v.within (
      All-toggle_column (λ d. contains (columns_of m.table p.allowed_tables) d ≡ true) m.columns c h
        (All-get (Within p.allowed_tables) p.column_masks i m v.within g));
})

offers-mask :
    (i : ℕ) (c : String) (p : Policy) (m : TableColumns)
    → get_elem? p.column_masks i ≡ some m
    → offers i c p ≡ contains (columns_of m.table p.allowed_tables) c
offers-mask i c p m g = ground (arith, g)

offers-none :
    (i : ℕ) (c : String) (p : Policy) → get_elem? p.column_masks i ≡ none → offers i c p ≡ false
offers-none i c p g = ground (arith, g)

toggle-offered :
    (i : ℕ) (c : String) (p : Policy)
    → offers i c p ≡ true
    → IsMasked p
    → IsMasked (toggle_column_mask i c p)
toggle-offered i c p o v = by_mask (get_elem? p.column_masks i) refl
  where
    by_mask :
        (m : Option TableColumns)
        → get_elem? p.column_masks i ≡ m
        → IsMasked (toggle_column_mask i c p)
    by_mask none g = absurd (true≢false (sym o ∙ offers-none i c p g))
    by_mask (some m) g = toggle_column_mask-IsMasked i c p m g (sym (offers-mask i c p m g) ∙ o) v

offered-IsMasked :
    (i : ℕ) (c : String) (p : Policy) (b : Bool)
    → offers i c p ≡ b
    → IsMasked p
    → IsMasked (if b then toggle_column_mask i c p else p)
offered-IsMasked i c p true o v = toggle-offered i c p o v
offered-IsMasked i c p false o v = v

update_row_filter-IsMasked :
    (i : ℕ) (k : Key) (t : String) (p : Policy) → IsMasked p → IsMasked (update_row_filter i k t p)
unfolding update_row_filter
update_row_filter-IsMasked i k t p v = by_filter (get_elem? p.row_filters i)
  where
    by_filter :
        (f : Option RowFilter)
        → IsMasked (elim f [
          | none ↦ p
          | some g ↦ record p { row_filters = set p.row_filters i (with_key k t g) }
        ])
    by_filter none = v
    by_filter (some g) = record { within = v.within }

-- Whatever is edited in a policy whose masks hold only columns that it allows for their tables, its
-- masks hold only such columns afterwards.
pub edit-IsMasked : (i : Option ℕ) (e : Edit) (p : Policy) → IsMasked p → IsMasked (edit i e p)
unfolding edit
edit-IsMasked none (changes_connection id) p v = record { within = tt }
edit-IsMasked (some i) (changes_connection id) p v = v
edit-IsMasked i (toggles_table name cs) p v = table_toggle-IsMasked name cs p v
edit-IsMasked i (toggles_column name c) p v = column_toggle-IsMasked name c p v
edit-IsMasked i adds_filter p v = record { within = v.within }
edit-IsMasked i (updates_filter j k t) p v = update_row_filter-IsMasked j k t p v
edit-IsMasked i (removes_filter j) p v = record { within = v.within }
edit-IsMasked i adds_mask p v = record {
  within = All-append (Within p.allowed_tables) p.column_masks (_ ∷ []) v.within (tt, tt);
}
edit-IsMasked i (updates_mask j name) p v = record {
  within = All-set (Within p.allowed_tables) p.column_masks j _ v.within tt;
}
edit-IsMasked i (toggles_mask j c) p v = offered-IsMasked j c p (offers j c p) refl v
edit-IsMasked i (removes_mask j) p v = record {
  within = All-remove_at (Within p.allowed_tables) p.column_masks j v.within;
}
