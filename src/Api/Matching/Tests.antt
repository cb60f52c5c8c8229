-- ===== src/Api/Matching/Tests.antt =====
-- Which operation some requests are for.
use query_craft.Common.{◌≡◌, refl, String, List, [], ◌∷◌, some, codes_eq}
use query_craft.Common.Sorting.{sort_by}
use query_craft.Api.Matching.{
  Operation, consumed_json, path_matches, parameters, candidates, request_operation,
}

abbrev operation : String → String → Operation
operation id path = record {
  operation_id = id;
  method = "GET";
  path = path;
  classification = consumed_json;
  responses = [];
}

abbrev manifest : List Operation
manifest =
    operation "getSession" "/sessions/{session_id}" ∷ operation "getActive" "/sessions/active" ∷ []

-- The path without a parameter is preferred to the one with a parameter.
prefers_literal :
    request_operation manifest "GET" "/sessions/active"
    ≡ some (operation "getActive" "/sessions/active")
unfolding request_operation candidates path_matches parameters codes_eq sort_by
prefers_literal = refl
