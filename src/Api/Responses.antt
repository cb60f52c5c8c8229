-- ===== src/Api/Responses.antt =====
-- The validation of a response in frontend/src/api/responseValidation.ts, from the fetch to the
-- response that the client gets. The manifest and the validators are generated, and `Date.parse`,
-- `structuredClone`, `JSON.parse`, `JSON.stringify` and `new Response` belong to the platform: all are
-- parameters. The request has been made already, which may throw before anything is fetched.
pub mod Laws
pub mod Fetching
pub mod Settling
mod Tests
use query_craft.Common.{
  discard, ℕ, String, Bool, true, false, not, ◌||◌, List, [], ◌∷◌, Option, none, some, find, lookup,
  leb, ltb, ◌&&◌, show, str_eq, includes_text, if◌then◌else◌,
}
use Prim.Native.String.{◌++◌ as append}
use query_craft.Common.Value.{
  Value, Proto, client_contract_error, obj, field, end, str, get, is_str, is_truthy, Settled,
  resolved, rejected,
}
use query_craft.Api.Semantics.{validate_semantic_contract}
use query_craft.Api.Matching.{Operation, Contract, request_operation, should_validate_response}
use query_craft.Api.Sanitizing.{Outcome, done, failed, exhausted, ◌>>=◌, sanitize_response}

abbrev pub error_code : String
error_code = "client_contract_invalid_response"

abbrev has_contract_proto : Value → Bool
has_contract_proto (obj client_contract_error fs) = true
has_contract_proto v = false

unfoldable pub is_client_contract_error : Value → Bool
is_client_contract_error error = has_contract_proto error || is_str error_code (get "code" error)

-- `new Map(manifest.map(...)).get(id)`: the last operation of that name.
unfoldable pub manifest_by_id : List Operation → String → Option Operation
manifest_by_id [] id = none
manifest_by_id (o ∷ os) id = elim (manifest_by_id os id) [
  | some later ↦ some later
  | none ↦ if str_eq o.operation_id id then some o else none
]

unfoldable pub response_contract : Operation → ℕ → Option Contract
response_contract o status = find (λ c. str_eq c.status (show status)) o.responses

abbrev pub or_fail {ℓ} : {A : Type ℓ} → Option A → Outcome A
or_fail (some a) = done a
or_fail none = failed

abbrev pub require : Bool → Outcome (Unit {0})
require true = done tt
require false = failed

-- A response of the platform. The names of headers are in lower case.
pub record Response : Type 0 where
  pub status : ℕ
  pub status_text : String
  pub headers : List (String × String)
  pub text : String

-- What the platform and the generated files give. `new Response` takes not every body and status, and
-- throws otherwise.
pub record Setting : Type 0 where
  pub manifest : List Operation
  pub validators : String → Option (Value → Bool)
  pub components : String → Option Value
  pub union_validators : String → Option (List (Value → Bool))
  pub parses_date : String → Bool
  pub structured_clone : Value → Option Value
  pub parse_json : String → Option Value
  pub stringify : Value → String
  pub takes_response : Response → Bool

abbrev pub is_ok : Response → Bool
is_ok r = leb 200 r.status && leb r.status 299

abbrev pub is_json : Option String → Bool
is_json (some content_type) = includes_text content_type "application/json"
is_json none = false

-- How the promise of `validatedApiFetch` settles: it gives a response, it rejects as `fetch` does, or the
-- validation throws.
pub data Fetched : Type 0 where
  answered : Response → Fetched
  fetch_rejects : Value → Fetched
  validation_throws : Fetched

-- There is nothing where the fuel is out.
abbrev pub settle : Outcome Response → Option Fetched
settle (done r) = some (answered r)
settle failed = some validation_throws
settle exhausted = none

module _ (g : Setting) where
  unfoldable pub operation_validator : Operation → ℕ → Outcome (Value → Bool)
  operation_validator o status =
      or_fail (g.validators (append o.operation_id (append ":" (show status))))

  unfoldable pub validate_operation_response : ℕ → String → ℕ → Value → Outcome Value
  unfolding operation_validator
  validate_operation_response n operation_id status body = do
    o ← or_fail (manifest_by_id g.manifest operation_id)
    copy ← or_fail (g.structured_clone body)
    validator ← operation_validator o status
    _ ← require (validator copy)
    contract ← or_fail (response_contract o status)
    _ ← require (is_truthy contract.schema)
    validated ← sanitize_response g.components g.union_validators n contract.schema copy
    _ ← require (validate_semantic_contract g.parses_date operation_id status validated)
    done validated

  unfoldable pub sanitized_json_response : Response → Value → Response
  sanitized_json_response r validated = record r {
    headers =
        discard "transfer-encoding"
          (discard "content-length" (discard "content-encoding" r.headers));
    text = g.stringify validated;
  }

  -- What is done with a response of an operation that is to be validated.
  unfoldable pub validate_json_response : ℕ → Operation → Response → Outcome Response
  validate_json_response n o r = do
    _ ← or_fail (response_contract o r.status)
    _ ← require (is_json (lookup "content-type" r.headers))
    body ← or_fail (g.parse_json r.text)
    validated ← validate_operation_response n o.operation_id r.status body
    _ ← require (g.takes_response (sanitized_json_response r validated))
    done (sanitized_json_response r validated)

  -- `validateFetchResponse`, by the method and the path of the request.
  unfoldable pub validate_fetch_response : ℕ → String → String → Response → Outcome Response
  unfolding validate_json_response
  validate_fetch_response n method pathname r =
      elim (request_operation g.manifest method pathname) [
        | none ↦ done r
        | some o ↦ elim (should_validate_response o (is_ok r)) [
          | false ↦ done r
          | true ↦ validate_json_response n o r
        ]
      ]

  -- `validatedApiFetch`, on what `fetch` gave.
  unfoldable pub validated_api_fetch : ℕ → String → String → Settled Response → Option Fetched
  validated_api_fetch n method pathname (rejected e) = some (fetch_rejects e)
  validated_api_fetch n method pathname (resolved r) =
      settle (validate_fetch_response n method pathname r)
