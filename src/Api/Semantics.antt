-- ===== src/Api/Semantics.antt =====
-- The semantic checks of frontend/src/api/responseValidation.ts, on a body that its schema has
-- accepted: what the schema leaves open about numbers, cursors, times and the shape of tables. A
-- check that throws gives false, whichever error it throws. `Date.parse` belongs to the platform and is a parameter: whether it
-- reads a text as a time.
pub mod Laws
pub mod Thresholds
mod Tests
use query_craft.Common.{
  ℕ, ◌+◌, String, Bool, true, false, not, ◌&&◌, ◌||◌, List, [], ◌∷◌, ◌++◌, map, Option, none, some,
  all, any, length, contains, codes, leb, ltb, ◌==◌, if◌then◌else◌,
}
use query_craft.Common.Int.{pos}
use query_craft.Common.Value.{
  Value, Items, Fields, undefined, null, int, real, str, arr, obj, nil, cons, end, field, get,
  is_same, is_str, is_truthy,
}
use query_craft.Common.Number.{less, is_finite}

-- The items of an array and the values of an object.
abbrev pub to_list : Items → List Value
to_list nil = []
to_list (cons v vs) = v ∷ to_list vs

abbrev pub items_of : Value → List Value
items_of (arr vs) = to_list vs
items_of v = []

abbrev values : Fields → List Value
values end = []
values (field k v fs) = v ∷ values fs

-- `v < n` for a number `n` of the source.
unfoldable pub is_below : ℕ → Value → Bool
unfolding less
is_below n v = less v (int (pos n))

abbrev pub is_nullish : Value → Bool
is_nullish undefined = true
is_nullish null = true
is_nullish v = false

-- A test of every item of an array. What is no array cannot be walked through.
abbrev pub all_items : (Value → Bool) → Value → Bool
all_items test (arr vs) = all test (to_list vs)
all_items test v = false

-- A test of every value of an object, by `Object.values`. Nothing has no values to ask for.
abbrev pub all_values : (Value → Bool) → Value → Bool
all_values test (obj p fs) = all test (values fs)
all_values test (arr vs) = all test (to_list vs)
all_values test v = not (is_nullish v)

-- `v !== null && v !== undefined && v < 0`.
abbrev pub is_below_zero : Value → Bool
is_below_zero v = is_below 0 v

is_digit : ℕ → Bool
is_digit c = leb b'0' c && leb c b'9'

is_sign : ℕ → Bool
is_sign c = c == b'+' || c == b'-'

-- `/(?:Z|[+-]\d{2}:\d{2})$/`, at the end of a text.
is_offset : List ℕ → Bool
unfolding is_digit is_sign
is_offset (c ∷ []) = c == b'Z'
is_offset (s ∷ a ∷ b ∷ m ∷ c ∷ d ∷ []) =
    is_sign s && is_digit a && is_digit b && m == b':' && is_digit c && is_digit d
is_offset cs = false

unfoldable pub ends_in_offset : List ℕ → Bool
unfolding is_offset
ends_in_offset [] = false
ends_in_offset (c ∷ cs) = is_offset (c ∷ cs) || ends_in_offset cs

-- `requireOptionalCursor`.
abbrev pub is_cursor : Value → Bool
is_cursor v = not (is_str "" v)

unfoldable pub validate_detection_thresholds : Value → Bool
unfolding less is_finite
validate_detection_thresholds v =
    let block = get "block_confidence" v in
    let flag = get "flag_confidence" v in
    is_finite block
    && is_finite flag
    && not (less block zero)
    && not (less one block)
    && not (less flag zero)
    && not (less one flag)
    && less flag block
  where
    zero : Value
    zero = int (pos 0)

    one : Value
    one = int (pos 1)

unfoldable pub validate_audit_pagination : Value → Bool
validate_audit_pagination v =
    let p = get "pagination" v in
    not (
      is_nullish p
      || is_below 1 (get "page" p)
      || is_below 1 (get "page_size" p)
      || is_below_zero (get "total_entries" p)
      || is_below_zero (get "total_pages" p))

unfoldable pub validate_dimension : Value → Bool
validate_dimension d = not (
    is_nullish d
    || is_below_zero (get "used" d)
    || is_below_zero (get "limit" d)
    || is_below_zero (get "remaining" d))

unfoldable pub validate_quota_status : Value → Bool
unfolding validate_dimension
validate_quota_status v =
    not (is_below_zero (get "total" v))
    && is_cursor (get "next_cursor" v)
    && all_items (λ r. all_values validate_dimension (get "dimensions" r)) (get "status" v)

-- `v.length`, with the surrogates of a text counted.
abbrev units : List ℕ → ℕ
units [] = 0
units (c ∷ cs) = (if leb 0x10000 c then 2 else 1) + units cs

abbrev pub length_of : Value → Value
length_of (arr vs) = int (pos (length (to_list vs)))
length_of (str s) = int (pos (units (codes s)))
length_of (obj p fs) = get "length" (obj p fs)
length_of v = undefined

-- `row.length === columns.length`, where neither is nothing. Objects are not the same as any other.
abbrev pub is_row_of : Value → Value → Bool
is_row_of columns row =
    not (is_nullish row) && not (is_nullish columns) && is_same (length_of row) (length_of columns)

unfoldable pub validate_query_result : Value → Bool
unfolding is_below is_same
validate_query_result v =
    not (is_below 1 (get "attempt_number" v))
    && is_same (get "row_count" v) (length_of (get "rows" v))
    && all_items (is_row_of (get "columns" v)) (get "rows" v)

module _ (parses_date : String → Bool) where
  unfoldable pub is_valid_timestamp : Value → Bool
  is_valid_timestamp (str s) = ends_in_offset (codes s) && parses_date s
  is_valid_timestamp v = false

  -- `requireTimestamps` of the times of one item.
  abbrev pub has_times : List String → Value → Bool
  has_times keys v = all (λ k. is_valid_timestamp (get k v)) keys

  unfoldable pub validate_session_list : Value → Bool
  validate_session_list v =
      not (is_below_zero (get "total" v))
      && is_cursor (get "next_cursor" v)
      && all_items (has_times ("created_at" ∷ "last_activity_at" ∷ [])) (get "items" v)

  unfoldable pub validate_session_detail : Value → Bool
  validate_session_detail v =
      not (is_below_zero (get "attempts_total" v))
      && is_cursor (get "attempts_next_cursor" v)
      && has_times ("created_at" ∷ "last_activity_at" ∷ []) v
      && all_items (has_times ("accepted_at" ∷ [])) (get "attempts" v)

  unfoldable pub validate_session_summary : Value → Bool
  validate_session_summary v = has_times ("created_at" ∷ "last_activity_at" ∷ []) v

  unfoldable pub validate_history_list : Value → Bool
  validate_history_list v =
      not (is_below_zero (get "total" v))
      && is_cursor (get "next_cursor" v)
      && all_items (has_times ("accepted_at" ∷ [])) (get "items" v)

  unfoldable pub validate_accepted_query : Value → Bool
  validate_accepted_query v = has_times ("accepted_at" ∷ []) v

  unfoldable pub validate_audit_retention : Value → Bool
  validate_audit_retention v =
      not (is_nullish v)
      && not (is_below_zero (get "retention_months" v))
      && (not (is_truthy (get "last_purge_at" v)) || is_valid_timestamp (get "last_purge_at" v))
      && not (is_below_zero (get "purged_count" v))

  -- A check that applies to some operations only.
  abbrev pub for_operations : List String → String → Bool → Bool
  for_operations ids operation b = not (contains ids operation) || b

  unfoldable pub validate_session_operation : String → Value → Bool
  validate_session_operation operation v =
      for_operations ("getSessions" ∷ []) operation (validate_session_list v)
      && for_operations ("getSession" ∷ []) operation (validate_session_detail v)
      && for_operations ("createSession" ∷ "updateSessionConnection" ∷ []) operation
          (validate_session_summary v)

  unfoldable pub validate_query_operation : String → Value → Bool
  validate_query_operation operation v =
      for_operations ("listHistory" ∷ []) operation (validate_history_list v)
      && for_operations ("acceptQuery" ∷ "getHistoryEntry" ∷ []) operation
          (validate_accepted_query v)
      && for_operations ("submitQuestion" ∷ "rejectQuery" ∷ "regenerateQuery" ∷ []) operation
          (is_str "refine" (get "kind" v) || validate_query_result v)

  unfoldable pub validate_semantic_contract : String → ℕ → Value → Bool
  validate_semantic_contract operation status v =
      leb 400 status
      || (validate_session_operation operation v
          && validate_query_operation operation v
          && for_operations ("getQuotaStatus" ∷ []) operation (validate_quota_status v)
          && for_operations ("searchAuditEntries" ∷ []) operation (validate_audit_pagination v)
          && for_operations ("getAuditRetention" ∷ []) operation (validate_audit_retention v)
          && for_operations ("getDetectionConfig" ∷ "updateDetectionConfig" ∷ []) operation
              (validate_detection_thresholds v))
