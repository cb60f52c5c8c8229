-- ===== src/Api/Semantics/Tests.antt =====
-- Bodies that pass the semantic checks, and some that do not.
use query_craft.Common.{◌≡◌, refl, String, Bool, true, false, codes}
use query_craft.Common.Number.{less, is_finite}
use query_craft.Common.Int.{pos}
use query_craft.Common.Value.{
  Value, obj, plain, field, int, real, str, arr, nil, cons, end, null, is_same,
}
use query_craft.Api.Semantics.{
  ends_in_offset, is_valid_timestamp, is_below, validate_detection_thresholds,
  validate_query_result, validate_session_list, validate_session_operation,
  validate_query_operation, validate_semantic_contract,
}

-- A platform that reads every text as a time.
abbrev reads_all : String → Bool
reads_all s = true

with_offset : ends_in_offset (codes "2026-07-03T10:00:00+03:00") ≡ true
unfolding ends_in_offset
with_offset = refl

without_offset : ends_in_offset (codes "2026-07-03T10:00:00") ≡ false
unfolding ends_in_offset
without_offset = refl

abbrev row : Value
row = arr (cons (int (pos 1)) (cons (str "x") nil))

abbrev answer : Value
answer = obj plain (
    field "kind" (str "result") (
      field "attempt_number" (int (pos 1)) (
        field "row_count" (int (pos 1)) (
          field "columns" (arr (cons (str "a") (cons (str "b") nil)))
            (field "rows" (arr (cons row nil)) end)))))

answer_passes : validate_semantic_contract reads_all "submitQuestion" 200 answer ≡ true
unfolding validate_semantic_contract validate_session_operation validate_query_operation
    validate_query_result is_same is_below
answer_passes = refl

abbrev listed : Value
listed = obj plain (
    field "created_at" (str "2026-07-03T10:00:00Z")
      (field "last_activity_at" (str "2026-07-03T10:00:00Z") end))

abbrev sessions : Value
sessions = obj plain (
    field "total" (int (pos 1))
      (field "next_cursor" null (field "items" (arr (cons listed nil)) end)))

sessions_pass : validate_semantic_contract reads_all "getSessions" 200 sessions ≡ true
unfolding validate_semantic_contract validate_session_operation validate_query_operation
    validate_session_list is_valid_timestamp ends_in_offset is_below
sessions_pass = refl

abbrev thresholds : Value → Value
thresholds flag =
    obj plain (field "flag_confidence" flag (field "block_confidence" (int (pos 1)) end))

half_passes : validate_detection_thresholds (thresholds (real 0x3fe0000000000000)) ≡ true
unfolding validate_detection_thresholds less is_finite
half_passes = refl

negative_fails : validate_detection_thresholds (thresholds (real 0xbfe0000000000000)) ≡ false
unfolding validate_detection_thresholds less is_finite
negative_fails = refl

infinite_fails : validate_detection_thresholds (thresholds (real 0xfff0000000000000)) ≡ false
unfolding validate_detection_thresholds less is_finite
infinite_fails = refl

below_one : is_below 1 (real 0x3fe0000000000000) ≡ true
unfolding is_below less
below_one = refl

without_rows : validate_query_result (obj plain (field "row_count" (int (pos 0)) end)) ≡ false
unfolding validate_query_result is_same is_below
without_rows = refl
