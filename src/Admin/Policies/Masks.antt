-- ===== src/Admin/Policies/Masks.antt =====
-- A column mask stays within the columns that the policy allows.
use query_craft.Common.{
  ◌≡◌, String, Bool, true, false, not, List, [], ◌∷◌, ◌++◌, map, if◌then◌else◌, str_eq, eq_iff,
  arith, refl, sym, subst, any, keep, contains, All, All-imp, All-zip, All-keep, keep-All,
}
use query_craft.Admin.Policies.{
  TableColumns, Policy, is_table, columns_of, remove_first, table_toggle, toggle_in, clip,
  column_toggle, is_nonempty,
}

-- The columns of a mask are among those allowed for its table.
abbrev pub Within : List TableColumns → TableColumns → Type 0
Within ts m = All (λ c. contains (columns_of m.table ts) c ≡ true) m.columns

pub record IsMasked (p : Policy) : Type 0 where
  pub within : All (Within p.allowed_tables) p.column_masks

columns_of-append :
    (name other : String) (cs : List String) (ts : List TableColumns) (c : String)
    → contains (columns_of name ts) c ≡ true
    → contains (columns_of name (ts ++ record { table = other; columns = cs } ∷ [])) c ≡ true
columns_of-append name other cs [] c h = ground arith
columns_of-append name other cs (t ∷ ts) c h = ground (arith, columns_of-append name other cs ts c)

columns_of-remove_first :
    (name other : String) (ts : List TableColumns)
    → str_eq name other ≡ false
    → columns_of name (remove_first other ts) ≡ columns_of name ts
columns_of-remove_first name other [] h = refl
columns_of-remove_first name other (t ∷ ts) h = ground (
  arith,
  columns_of-remove_first name other ts h,
  eq_iff t.table name,
  eq_iff t.table other,
  eq_iff name other,
)

columns_of-toggle_in :
    (name other c : String) (ts : List TableColumns)
    → str_eq name other ≡ false
    → columns_of name (map (toggle_in other c) ts) ≡ columns_of name ts
unfolding toggle_in
columns_of-toggle_in name other c [] h = refl
columns_of-toggle_in name other c (t ∷ ts) h = ground (
  arith,
  columns_of-toggle_in name other c ts h,
  eq_iff t.table name,
  eq_iff t.table other,
  eq_iff name other,
)

Within-same :
    (ts us : List TableColumns) (m : TableColumns)
    → columns_of m.table us ≡ columns_of m.table ts
    → Within ts m
    → Within us m
Within-same ts us m h w = subst (λ cs. All (λ c. contains cs c ≡ true) m.columns) (sym h) w

clip-hit :
    (name : String) (allowed : List String) (m : TableColumns)
    → is_table name m ≡ true
    → clip name allowed m ≡ record { table = m.table; columns = keep (contains allowed) m.columns }
unfolding clip
clip-hit name allowed m h = ground (arith, h)

clip-miss :
    (name : String) (allowed : List String) (m : TableColumns)
    → is_table name m ≡ false
    → clip name allowed m ≡ m
unfolding clip
clip-miss name allowed m h = ground (arith, h)

clip-Within :
    (name c : String) (ts : List TableColumns) (m : TableColumns)
    → Within ts m
    → Within (map (toggle_in name c) ts) (clip name (columns_of name (map (toggle_in name c) ts)) m)
clip-Within name c ts m w = by_table (is_table name m) refl
  where
    us : List TableColumns
    us = map (toggle_in name c) ts

    by_table : (b : Bool) → is_table name m ≡ b → Within us (clip name (columns_of name us) m)
    by_table true h = subst (Within us) (sym (clip-hit name (columns_of name us) m h)) (
        subst
          (λ n.
            All (λ d. contains (columns_of n us) d ≡ true)
              (keep (contains (columns_of name us)) m.columns))
          (sym ((eq_iff m.table name).0 h)) (keep-All (contains (columns_of name us)) m.columns))
    by_table false h =
        subst (Within us) (sym (clip-miss name (columns_of name us) m h))
          (Within-same ts us m (columns_of-toggle_in m.table name c ts h) w)

map-clip-Within :
    (name c : String) (ts ms : List TableColumns)
    → All (Within ts) ms
    → All
        (Within (map (toggle_in name c) ts))
        (map (clip name (columns_of name (map (toggle_in name c) ts))) ms)
map-clip-Within name c ts [] w = tt
map-clip-Within name c ts (m ∷ ms) w =
    (clip-Within name c ts m w.0, map-clip-Within name c ts ms w.1)

pub column_toggle-IsMasked :
    (name c : String) (p : Policy) → IsMasked p → IsMasked (column_toggle name c p)
unfolding column_toggle
column_toggle-IsMasked name c p v = record {
  within =
      All-keep (Within (map (toggle_in name c) p.allowed_tables)) (λ m. is_nonempty m.columns) _
        (map-clip-Within name c p.allowed_tables p.column_masks v.within);
}

removed-Within :
    (name : String) (ts : List TableColumns) (m : TableColumns)
    → not (is_table name m) ≡ true
    → Within ts m
    → Within (remove_first name ts) m
removed-Within name ts m h w =
    Within-same ts (remove_first name ts) m
      (columns_of-remove_first m.table name ts (ground (arith, h))) w

added-Within :
    (name : String) (cs : List String) (ts : List TableColumns) (m : TableColumns)
    → Within ts m
    → Within (ts ++ record { table = name; columns = cs } ∷ []) m
added-Within name cs ts m w =
    All-imp _ _ (λ c h. columns_of-append m.table name cs ts c h) m.columns w

if-IsMasked : (b : Bool) (p q : Policy) → IsMasked p → IsMasked q → IsMasked (if b then p else q)
if-IsMasked true p q v w = v
if-IsMasked false p q v w = w

pub table_toggle-IsMasked :
    (name : String) (cs : List String) (p : Policy) → IsMasked p → IsMasked (table_toggle name cs p)
unfolding table_toggle
table_toggle-IsMasked name cs p v =
    if-IsMasked (any (is_table name) p.allowed_tables) _ _
      (record {
        within =
            All-imp _ _ (λ m h. removed-Within name p.allowed_tables m h.0 h.1) _
              (All-zip _ _ _ (keep-All (λ m. not (is_table name m)) p.column_masks) (
                All-keep (Within p.allowed_tables) (λ m. not (is_table name m)) p.column_masks
                  v.within));
      })
      (record {
        within = All-imp _ _ (λ m. added-Within name cs p.allowed_tables m) p.column_masks v.within;
      })
