-- ===== src/Api/Responses/Laws.antt =====
-- What a body that passes the validation of frontend/src/api/responseValidation.ts has been through.
use query_craft.Common.{
  ℕ, ◌<◌, ◌≡◌, ◌↔◌, refl, ap, subst, String, Bool, true, false, [], ◌∷◌, Option, none, some,
  contains,
}
use query_craft.Common.Value.{Value, get, is_str, is_truthy}
use query_craft.Api.Semantics.{validate_semantic_contract}
use query_craft.Api.Semantics.Laws.{IsRectangular, semantic_contract-IsRectangular}
use query_craft.Api.Semantics.Thresholds.{AreThresholds, semantic_contract-AreThresholds}
use query_craft.Api.Matching.{Operation, Contract}
use query_craft.Api.Sanitizing.{done, sanitize_response}
use query_craft.Api.Sanitizing.Within.{IsPart, bind_done, done-injective}
use query_craft.Api.Sanitizing.Parts.{sanitize_response-IsPart}
use query_craft.Api.Responses.{
  Setting, or_fail, require, manifest_by_id, response_contract, operation_validator,
  validate_operation_response,
}

pub or_fail_done {ℓ} : {A : Type ℓ} (o : Option A) {a : A} → or_fail o ≡ done a → o ≡ some a
or_fail_done (some b) h = ap some (done-injective h)
or_fail_done none h = cc

pub require_done : (b : Bool) {u : Unit {0}} → require b ≡ done u → b ≡ true
require_done true h = refl
require_done false h = cc

-- All that a body has to pass: its operation is in the manifest, it can be copied, the validator of
-- the operation and the status accepts the copy, the manifest has a schema for the status, the copy
-- sanitized by it is the result, and the result passes the semantic checks.
pub record IsValidated (g : Setting) (n : ℕ) (operation_id : String) (status : ℕ)
    (body result : Value) : Type 0 where
  pub o : Operation
  pub copy : Value
  pub validator : Value → Bool
  pub contract : Contract
  pub known : manifest_by_id g.manifest operation_id ≡ some o
  pub copied : g.structured_clone body ≡ some copy
  pub has_validator : operation_validator g o status ≡ done validator
  pub accepted : validator copy ≡ true
  pub has_contract : response_contract o status ≡ some contract
  pub has_schema : is_truthy contract.schema ≡ true
  pub sanitized :
      sanitize_response g.components g.union_validators n contract.schema copy ≡ done result
  pub sound : validate_semantic_contract g.parses_date operation_id status result ≡ true

module _ (g : Setting) (n : ℕ) (operation_id : String) (status : ℕ) (body result : Value) where
  returned-IsValidated :
      validate_operation_response g n operation_id status body ≡ done result
      → IsValidated g n operation_id status body result
  unfolding validate_operation_response
  returned-IsValidated h =
      let (o, e0, h0) = bind_done (or_fail (manifest_by_id g.manifest operation_id)) _ h in
      let (copy, e1, h1) = bind_done (or_fail (g.structured_clone body)) _ h0 in
      let (v, e2, h2) = bind_done (operation_validator g o status) _ h1 in
      let (_, e3, h3) = bind_done (require (v copy)) _ h2 in
      let (c, e4, h4) = bind_done (or_fail (response_contract o status)) _ h3 in
      let (_, e5, h5) = bind_done (require (is_truthy c.schema)) _ h4 in
      let (w, e6, h6) =
        bind_done (sanitize_response g.components g.union_validators n c.schema copy) _ h5 in
      let (_, e7, h7) =
        bind_done (require (validate_semantic_contract g.parses_date operation_id status w)) _ h6 in
      subst (IsValidated g n operation_id status body) (done-injective h7) (record {
        o = o;
        copy = copy;
        validator = v;
        contract = c;
        known = or_fail_done _ e0;
        copied = or_fail_done _ e1;
        has_validator = e2;
        accepted = require_done (v copy) e3;
        has_contract = or_fail_done _ e4;
        has_schema = require_done _ e5;
        sanitized = e6;
        sound = require_done _ e7;
      })

  IsValidated-returned :
      IsValidated g n operation_id status body result
      → validate_operation_response g n operation_id status body ≡ done result
  unfolding validate_operation_response
  IsValidated-returned v =
      rw
        (
          v.known, v.copied, v.has_validator, v.accepted, v.has_contract, v.has_schema, v.sanitized,
          v.sound,
        )
        refl

  -- The validation of a body gives a value exactly when the body has passed every check and the value
  -- is what the sanitizing made of its copy.
  pub validate_operation_response-IsValidated :
      (validate_operation_response g n operation_id status body ≡ done result)
      ↔ IsValidated g n operation_id status body result
  validate_operation_response-IsValidated = (returned-IsValidated, IsValidated-returned)

  -- What the validation of a body gives is a part of the copy of the body, and no name in it was not
  -- in the copy.
  pub validated-IsPart :
      validate_operation_response g n operation_id status body ≡ done result
      → (copy : Value) × (g.structured_clone body ≡ some copy) × IsPart result copy
  validated-IsPart h =
      let v = returned-IsValidated h in
      (
        v.copy,
        v.copied,
        sanitize_response-IsPart g.components g.union_validators n v.contract.schema v.copy result
            v.sanitized,
      )

  -- What the validation of a successful answer to the operations that submit, reject and regenerate a
  -- query gives is a table, unless it asks to refine the question: an array of as many rows as it says,
  -- and each row that is an array has one cell for each column, where the columns are an array, after
  -- sanitizing.
  pub validated-IsRectangular :
      validate_operation_response g n operation_id status body ≡ done result
      → status < 400
      → contains ("submitQuestion" ∷ "rejectQuery" ∷ "regenerateQuery" ∷ []) operation_id ≡ true
      → is_str "refine" (get "kind" result) ≡ false
      → IsRectangular result
  validated-IsRectangular h s o k =
      semantic_contract-IsRectangular g.parses_date operation_id status result
        (returned-IsValidated h).sound s o k

  -- What the validation of a successful answer to the operations that read and change the configuration
  -- of the detection gives has two thresholds, as multiples of the least double: both are from 0 to 1,
  -- and the one for flagging is below the one for blocking.
  pub validated-AreThresholds :
      validate_operation_response g n operation_id status body ≡ done result
      → status < 400
      → contains ("getDetectionConfig" ∷ "updateDetectionConfig" ∷ []) operation_id ≡ true
      → AreThresholds (get "flag_confidence" result) (get "block_confidence" result)
  validated-AreThresholds h s o =
      semantic_contract-AreThresholds g.parses_date operation_id status result
        (returned-IsValidated h).sound s o
