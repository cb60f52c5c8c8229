-- ===== src/Api/Semantics/Laws.antt =====
-- What a body that passes the semantic checks has.
use query_craft.Common.{
  ℕ, ◌≡◌, ◌<◌, refl, subst, String, Bool, true, false, not, ◌&&◌, [], ◌∷◌, arith, length, contains,
  All, All-imp, all→All,
}
use query_craft.Common.Int.{pos}
use query_craft.Common.Value.{
  Value, Items, undefined, null, nan, bool, int, real, str, arr, obj, get, is_str, is_same,
}
use query_craft.Api.Semantics.{
  to_list, all_items, length_of, is_row_of, is_below, is_cursor, is_valid_timestamp, has_times,
  validate_query_result, validate_session_list, validate_session_operation,
  validate_query_operation, validate_semantic_contract,
}

all_items-All :
    (test : Value → Bool) (v : Value)
    → all_items test v ≡ true
    → (vs : Items) × (v ≡ arr vs) × All (λ w. test w ≡ true) (to_list vs)
all_items-All test (arr vs) h = (vs, refl, all→All test (to_list vs) h)
all_items-All test undefined h = cc
all_items-All test null h = cc
all_items-All test nan h = cc
all_items-All test (bool b) h = cc
all_items-All test (int z) h = cc
all_items-All test (real n) h = cc
all_items-All test (str s) h = cc
all_items-All test (obj p fs) h = cc

-- A row has a cell for each column, the two being arrays.
abbrev pub IsRow : Value → Value → Type 0
IsRow columns row =
    (names cells : Items)
    → columns ≡ arr names
    → row ≡ arr cells
    → length (to_list cells) ≡ length (to_list names)

-- The rows are as many as the result says, and each is one of its columns.
abbrev pub IsRectangular : Value → Type 0
IsRectangular v =
    (rows : Items) × (get "rows" v ≡ arr rows)
    × (is_same (get "row_count" v) (int (pos (length (to_list rows)))) ≡ true)
    × All (IsRow (get "columns" v)) (to_list rows)

arrays-IsRow :
    (names cells : Items)
    → is_row_of (arr names) (arr cells) ≡ true
    → length (to_list cells) ≡ length (to_list names)
unfolding is_same
arrays-IsRow names cells h = ground (arith, h)

cells-IsRow : (columns row : Value) → is_row_of columns row ≡ true → IsRow columns row
cells-IsRow columns row h names cells e k =
    arrays-IsRow names cells
      (subst (λ c. is_row_of c (arr cells) ≡ true) e (subst (λ r. is_row_of columns r ≡ true) k h))

query_result-parts :
    (v : Value)
    → validate_query_result v ≡ true
    → (is_same (get "row_count" v) (length_of (get "rows" v)) ≡ true)
      × (all_items (is_row_of (get "columns" v)) (get "rows" v) ≡ true)
unfolding validate_query_result
query_result-parts v h = three _ _ _ h
  where
    three : (a b c : Bool) → (not a && b && c) ≡ true → (b ≡ true) × (c ≡ true)
    three a b c k = ground (arith, k)

query_result-IsRectangular : (v : Value) → validate_query_result v ≡ true → IsRectangular v
query_result-IsRectangular v h =
    let (counted, tested) = query_result-parts v h in
    let (rows, e, each) = all_items-All (is_row_of (get "columns" v)) (get "rows" v) tested in
    (
      rows,
      e,
      subst (λ r. is_same (get "row_count" v) (length_of r) ≡ true) e counted,
      All-imp _ _ (cells-IsRow (get "columns" v)) (to_list rows) each,
    )

module _ (parses_date : String → Bool) where
  query_operation :
      (operation : String) (status : ℕ) (v : Value)
      → validate_semantic_contract parses_date operation status v ≡ true
      → status < 400
      → validate_query_operation parses_date operation v ≡ true
  unfolding validate_semantic_contract
  query_operation operation status v h s = ground (arith, h)

  session_operation :
      (operation : String) (status : ℕ) (v : Value)
      → validate_semantic_contract parses_date operation status v ≡ true
      → status < 400
      → validate_session_operation parses_date operation v ≡ true
  unfolding validate_semantic_contract
  session_operation operation status v h s = ground (arith, h)

  query_result-passes :
      (operation : String) (v : Value)
      → validate_query_operation parses_date operation v ≡ true
      → contains ("submitQuestion" ∷ "rejectQuery" ∷ "regenerateQuery" ∷ []) operation ≡ true
      → is_str "refine" (get "kind" v) ≡ false
      → validate_query_result v ≡ true
  unfolding validate_query_operation
  query_result-passes operation v h o k = ground (arith, h, o, k)

  -- A successful answer of the operations that submit, reject and regenerate a query, which is no
  -- request to refine it and passes the semantic checks, is a table: as many rows as it says, each
  -- with one cell for each column where both are arrays.
  pub semantic_contract-IsRectangular :
      (operation : String) (status : ℕ) (v : Value)
      → validate_semantic_contract parses_date operation status v ≡ true
      → status < 400
      → contains ("submitQuestion" ∷ "rejectQuery" ∷ "regenerateQuery" ∷ []) operation ≡ true
      → is_str "refine" (get "kind" v) ≡ false
      → IsRectangular v
  semantic_contract-IsRectangular operation status v h s o k =
      query_result-IsRectangular v
        (query_result-passes operation v (query_operation operation status v h s) o k)

  session_list-passes :
      (v : Value)
      → validate_session_operation parses_date "getSessions" v ≡ true
      → validate_session_list parses_date v ≡ true
  unfolding validate_session_operation
  session_list-passes v h = ground (arith, h)

  -- A successful list of sessions that passes the checks has no negative total and no empty cursor,
  -- and each of its sessions has a time of creation and of its last activity with an offset.
  pub semantic_contract-session_list :
      (status : ℕ) (v : Value)
      → validate_semantic_contract parses_date "getSessions" status v ≡ true
      → status < 400
      → (is_below 0 (get "total" v) ≡ false)
        × (is_cursor (get "next_cursor" v) ≡ true)
        × ((items : Items) × (get "items" v ≡ arr items)
            × All
                (λ item.
                  (is_valid_timestamp parses_date (get "created_at" item) ≡ true)
                  × (is_valid_timestamp parses_date (get "last_activity_at" item) ≡ true))
                (to_list items))
  unfolding validate_session_list
  semantic_contract-session_list status v h s =
      let k = session_list-passes v (session_operation "getSessions" status v h s) in
      let (items, e, each) =
        all_items-All (has_times parses_date ("created_at" ∷ "last_activity_at" ∷ []))
          (get "items" v) (ground (arith, k)) in
      (
        ground (arith, k),
        ground (arith, k),
        (items, e, All-imp _ _ (λ item t. ground (arith, t)) (to_list items) each),
      )
