-- ===== src/Api/Responses/Tests.antt =====
-- A submission's response, from the fetch to the client.
use mathlib.Core.Option.{some-injective}
use query_craft.Common.{
  ◌+◌, ◌∙◌, subst, ◌<◌, ◌≡◌, ◌⊎◌, refl, true, false, [], ◌∷◌, none, some, arith, show, codes_eq,
  includes_text, str_eq, if◌then◌else◌,
}
use query_craft.Common.Sorting.{sort_by}
use query_craft.Common.Value.{Value, obj, plain, field, end, int, real, get, is_same, resolved}
use query_craft.Api.Semantics.{
  validate_semantic_contract, validate_session_operation, validate_query_operation,
  validate_query_result, validate_detection_thresholds, is_below,
}
use query_craft.Api.Semantics.Thresholds.{AreThresholds}
use query_craft.Common.Number.{less, is_finite}
use query_craft.Common.Int.{pos}
use query_craft.Api.Semantics.Laws.{IsRectangular}
use query_craft.Api.Matching.{
  Operation, consumed_json, request_operation, candidates, path_matches, parameters,
  should_validate_response,
}
use query_craft.Api.Sanitizing.{
  done, sanitize_response, resolved_schema, reference_target, matching_union_schema,
  sanitize_object, alternatives_of,
}
use query_craft.Api.Sanitizing.Fuel.{inner_fuel}
use query_craft.Api.Sanitizing.Within.{IsPart}
use query_craft.Api.Sanitizing.Tests.{
  union_schema, components, union_validators, sent, cleaned, cleans,
}
use query_craft.Api.Sanitizing.Tests.Grounded.{ExampleSchema, union, depth, example-IsGrounded}
use query_craft.Api.Responses.{
  Setting, Response, manifest_by_id, response_contract, operation_validator,
  validate_operation_response, sanitized_json_response, validate_json_response,
  validate_fetch_response, validated_api_fetch, is_ok, Fetched, validation_throws,
}
use query_craft.Api.Responses.Laws.{
  validated-IsPart, validated-IsRectangular, validated-AreThresholds,
}
use query_craft.Api.Responses.Fetching.{IsReplaced, validate_fetch_response-passes}
use query_craft.Api.Responses.Settling.{validated_api_fetch-settles}

abbrev submission : Operation
submission = record {
  operation_id = "submitQuestion";
  method = "POST";
  path = "/api/v1/query/submit";
  classification = consumed_json;
  responses = record { status = "200"; schema = union_schema } ∷ [];
}

abbrev setting : Setting
setting = record {
  manifest = submission ∷ [];
  validators = λ k. if str_eq k "submitQuestion:200" then some (λ v. true) else none;
  components = components;
  union_validators = union_validators;
  parses_date = λ s. true;
  structured_clone = λ v. some v;
  parse_json = λ s. some sent;
  stringify = λ v. "cleaned";
  takes_response = λ r. true;
}

abbrev answer : Response
answer = record {
  status = 200;
  status_text = "OK";
  headers = ("content-type", "application/json; charset=utf-8") ∷ ("content-length", "99") ∷ [];
  text = "sent";
}

passes : validate_semantic_contract setting.parses_date "submitQuestion" 200 cleaned ≡ true
unfolding validate_semantic_contract validate_session_operation validate_query_operation
    validate_query_result is_same is_below
passes = refl

validates : validate_operation_response setting 5 "submitQuestion" 200 sent ≡ done cleaned
unfolding validate_operation_response operation_validator manifest_by_id response_contract show
validates = rw (cleans, passes) refl

validated-IsPart_example :
    (copy : Value) × (setting.structured_clone sent ≡ some copy) × IsPart cleaned copy
validated-IsPart_example = validated-IsPart setting 5 "submitQuestion" 200 sent cleaned validates

validated-IsRectangular_example : IsRectangular cleaned
validated-IsRectangular_example =
    validated-IsRectangular setting 5 "submitQuestion" 200 sent cleaned validates (omega arith) refl
      refl

abbrev thresholds : Value
thresholds =
    obj plain (
      field "flag_confidence" (real 0x3fe0000000000000)
        (field "block_confidence" (int (pos 1)) end))

abbrev detection : Operation
detection = record {
  operation_id = "getDetectionConfig";
  method = "GET";
  path = "/api/v1/admin/detection";
  classification = consumed_json;
  responses = record { status = "200"; schema = obj plain end } ∷ [];
}

abbrev detection_setting : Setting
detection_setting = record setting { manifest = detection ∷ []; validators = λ k. some (λ v. true) }

validates_thresholds :
    validate_operation_response detection_setting 5 "getDetectionConfig" 200 thresholds
    ≡ done thresholds
unfolding validate_operation_response operation_validator manifest_by_id response_contract show
    sanitize_response resolved_schema reference_target matching_union_schema sanitize_object
    validate_semantic_contract validate_session_operation validate_query_operation
    validate_detection_thresholds less is_finite alternatives_of
validates_thresholds = refl

validated-AreThresholds_example :
    AreThresholds (get "flag_confidence" thresholds) (get "block_confidence" thresholds)
validated-AreThresholds_example =
    validated-AreThresholds detection_setting 5 "getDetectionConfig" 200 thresholds thresholds
      validates_thresholds (omega arith) refl

abbrev answered : Response
answered = record {
  status = 200;
  status_text = "OK";
  headers = ("content-type", "application/json; charset=utf-8") ∷ [];
  text = "cleaned";
}

passes_fetch :
    validate_fetch_response setting 5 "POST" "/api/v1/query/submit" answer ≡ done answered
unfolding validate_fetch_response validate_json_response request_operation candidates path_matches
    parameters should_validate_response response_contract show sanitized_json_response codes_eq
    sort_by includes_text
passes_fetch = rw validates refl

validate_fetch_response-passes_example :
    ((answered ≡ answer)
      × ((o : Operation)
          → request_operation setting.manifest "POST" "/api/v1/query/submit" ≡ some o
          → should_validate_response o (is_ok answer) ≡ false))
    ⊎ ((o : Operation) × (request_operation setting.manifest "POST" "/api/v1/query/submit" ≡ some o)
        × (should_validate_response o (is_ok answer) ≡ true)
        × IsReplaced setting 5 o answer answered)
validate_fetch_response-passes_example =
    validate_fetch_response-passes setting 5 "POST" "/api/v1/query/submit" answer answered
      passes_fetch

abbrev broken : Response
broken = record { status = 200; status_text = "OK"; headers = []; text = "sent" }

rejects :
    validated_api_fetch setting 5 "POST" "/api/v1/query/submit" (resolved broken)
    ≡ some validation_throws
unfolding validated_api_fetch validate_fetch_response validate_json_response request_operation
    candidates path_matches parameters should_validate_response response_contract show codes_eq
    sort_by
rejects = refl

validated_api_fetch-settles_example :
    (s : Fetched) × (validated_api_fetch setting 60 "POST" "/api/v1/query/submit" (resolved answer)
      ≡ some s)
validated_api_fetch-settles_example =
    validated_api_fetch-settles setting 60 2 ExampleSchema depth "POST" "/api/v1/query/submit"
      (resolved answer) example-IsGrounded ((union, tt), tt)
      λ r body copy e p q.
        subst (λ c. 2 + inner_fuel 2 c + 1 < 60) (some-injective _ _ (p ∙ q)) (omega arith)
