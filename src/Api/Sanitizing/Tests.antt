-- ===== src/Api/Sanitizing/Tests.antt =====
-- The result of a query is sanitized by the union of what a submission may answer.
pub mod Grounded
use mathlib.Core.Option.{some-injective}
use query_craft.Common.{
  ℕ, ◌≤◌, ◌<◌, ◌≡◌, refl, subst, String, Bool, true, false, ◌&&◌, List, [], ◌∷◌, Option, none, some,
  arith, All, Mem, length, str_eq, last_segment, if◌then◌else◌,
}
use query_craft.Common.Int.{pos}
use query_craft.Common.Sorting.Down.{sort_down}
use query_craft.Common.Value.{
  Value, Fields, plain, int, str, arr, obj, nil, cons, end, field, get, read, has_own, is_str,
  is_object, is_truthy,
}
use query_craft.Api.Semantics.{items_of}
use query_craft.Api.Sanitizing.{
  done, alternatives_of, accepting, reference_target, resolved_schema, with_counts,
  accepted_alternatives, matching_union_schema, sanitize_response, sanitize_items, sanitize_array,
  sanitize_properties, with_additional, sanitize_object, is_array, names, entries,
}
use query_craft.Api.Sanitizing.Fuel.{ended, AllValues, IsClosed}
use query_craft.Api.Sanitizing.Within.{IsPart}
use query_craft.Api.Sanitizing.Parts.{sanitize_response-IsPart}
use query_craft.Api.Sanitizing.Names.{sanitize_response-names}
use query_craft.Api.Sanitizing.Unions.{ValidatorsOf, IsAccepted, matching_union_schema-IsAccepted}
use query_craft.Api.Sanitizing.Termination.{IsGrounded, sanitize_response-ended}

abbrev leaf : Value
leaf = obj plain end

abbrev reference : String → Value
reference name = obj plain (field "$ref" (str name) end)

abbrev result_schema : Value
result_schema = obj plain (
    field "properties"
      (obj plain (
        field "kind" leaf (
          field "attempt_number" leaf
            (field "row_count" leaf (field "columns" leaf (field "rows" leaf end))))))
      end)

abbrev refine_schema : Value
refine_schema =
    obj plain (field "properties" (obj plain (field "kind" leaf (field "question" leaf end))) end)

abbrev pub union_schema : Value
union_schema = obj plain (
    field "anyOf" (arr (cons (reference "#/Refine") (cons (reference "#/Result") nil)))
      (field "x-querycraft-union-validator" (str "union_0000") end))

abbrev pub components : String → Option Value
components name =
    if str_eq name "Refine"
    then some refine_schema
    else if str_eq name "Result"
    then some result_schema
    else none

abbrev is_kind : String → Value → Bool
is_kind kind body = is_str kind (get "kind" body)

abbrev pub union_validators : String → Option (List (Value → Bool))
union_validators id =
    if str_eq id "union_0000" then some (is_kind "refine" ∷ is_kind "result" ∷ []) else none

abbrev table : Fields → Value
table rest = obj plain (
    field "kind" (str "result") (
      field "attempt_number" (int (pos 1)) (
        field "row_count" (int (pos 1)) (
          field "columns" (arr (cons (str "total") nil))
            (field "rows" (arr (cons (arr (cons (int (pos 7)) nil)) nil)) rest)))))

-- What the server sends, with a name that the schema does not have, and what is left of it.
abbrev pub sent : Value
sent = table (field "trace" (str "internal") end)

abbrev pub cleaned : Value
cleaned = table end

pub cleans : sanitize_response components union_validators 5 union_schema sent ≡ done cleaned
unfolding sanitize_response matching_union_schema accepted_alternatives with_counts resolved_schema
    reference_target alternatives_of accepting sanitize_object sanitize_properties with_additional
    sanitize_array sanitize_items last_segment sort_down
cleans = refl

resolves : resolved_schema components 4 (reference "#/Result") ≡ done result_schema
unfolding resolved_schema reference_target last_segment
resolves = refl

no_union : matching_union_schema components union_validators 4 result_schema sent ≡ done none
unfolding matching_union_schema alternatives_of
no_union = refl

cleans_result :
    sanitize_response components union_validators 5 (reference "#/Result") sent ≡ done cleaned
unfolding sanitize_response matching_union_schema accepted_alternatives with_counts resolved_schema
    reference_target alternatives_of accepting sanitize_object sanitize_properties with_additional
    sanitize_array sanitize_items last_segment sort_down
cleans_result = refl

chooses_result :
    matching_union_schema components union_validators 4 union_schema sent
    ≡ done (some (reference "#/Result"))
unfolding matching_union_schema accepted_alternatives with_counts resolved_schema reference_target
    alternatives_of accepting last_segment sort_down
chooses_result = refl
