-- ===== src/Api/Responses/Settling.antt =====
-- That the client's fetch settles (frontend/src/api/responseValidation.ts): the sanitizing ends on
-- enough fuel, and nothing else in it repeats.
use mathlib.Core.Option.{some-injective}
use query_craft.Common.{
  All, find, show, ℕ, ◌+◌, ◌<◌, ◌≡◌, inl, inr, refl, ◌∙◌, subst, String, Bool, true, false, List,
  [], ◌∷◌, Option, none, some, arith, lookup, str_eq, Bool-cases, Option-cases,
}
use query_craft.Common.Value.{Value, is_truthy, Settled, resolved, rejected}
use query_craft.Api.Semantics.{validate_semantic_contract}
use query_craft.Api.Matching.{Operation, Contract, request_operation, should_validate_response}
use query_craft.Api.Sanitizing.{Outcome, done, failed, exhausted, sanitize_response}
use query_craft.Api.Sanitizing.Fuel.{ended, bind-ended, inner_fuel}
use query_craft.Api.Sanitizing.Termination.{IsGrounded, sanitize_response-ended}
use query_craft.Api.Responses.{
  Setting, Response, or_fail, require, manifest_by_id, response_contract, operation_validator,
  validate_operation_response, is_json, is_ok, validate_json_response, validate_fetch_response,
  validated_api_fetch, settle, Fetched, answered, fetch_rejects, validation_throws,
  sanitized_json_response,
}
use query_craft.Api.Responses.Laws.{or_fail_done}

or_fail-ended {ℓ} : {A : Type ℓ} (o : Option A) → ended (or_fail o) ≡ true
or_fail-ended (some a) = refl
or_fail-ended none = refl

require-ended : (b : Bool) → ended (require b) ≡ true
require-ended true = refl
require-ended false = refl

none_not_some {ℓ} : {A : Type ℓ} {a : A} → ¬ (none ≡ some a)
none_not_some h = cc

-- The schemas that the manifest has are schemas.
abbrev pub HasSchemas : (Value → Type 0) → List Operation → Type 0
HasSchemas IsSchema manifest = All (λ o. All (λ c. IsSchema c.schema) o.responses) manifest

module _ (P : Operation → Type 0) where
  manifest_by_id-All :
      (manifest : List Operation) (id : String) (o : Operation)
      → All P manifest
      → manifest_by_id manifest id ≡ some o
      → P o
  unfolding manifest_by_id
  manifest_by_id-All [] id o all h = cc
  manifest_by_id-All (p ∷ ps) id o all h = elim (Option-cases (manifest_by_id ps id)) [
    | inr (q, e) ↦ manifest_by_id-All ps id o all.1 (e ∙ rw (manifest_by_id, e) at h)
    | inl e ↦ elim (Bool-cases (str_eq p.operation_id id)) [
      | inl t ↦ subst P (some-injective _ _ (rw (manifest_by_id, e, t) at h)) all.0
      | inr t ↦ absurd (none_not_some (rw (manifest_by_id, e, t) at h))
    ]
  ]

find-All :
    (P : Contract → Type 0) (p : Contract → Bool) (cs : List Contract) (c : Contract)
    → All P cs
    → find p cs ≡ some c
    → P c
find-All P p [] c all h = cc
find-All P p (d ∷ ds) c all h = elim (Bool-cases (p d)) [
  | inl e ↦ subst P (some-injective _ _ (rw e at h)) all.0
  | inr e ↦ find-All P p ds c all.1 (rw e at h)
]

response_contract-All :
    (P : Contract → Type 0) (o : Operation) (status : ℕ) (c : Contract)
    → All P o.responses
    → response_contract o status ≡ some c
    → P c
unfolding response_contract
response_contract-All P o status c all h =
    find-All P (λ c. str_eq c.status (show status)) o.responses c all h

module _ (g : Setting) where
  operation_response-ended :
      (n d : ℕ) (IsSchema : Value → Type 0) (depth : Value → ℕ) (operation_id : String) (status : ℕ)
      (body : Value)
      → IsGrounded g.components IsSchema depth d
      → HasSchemas IsSchema g.manifest
      → ((copy : Value) → g.structured_clone body ≡ some copy → d + inner_fuel d copy + 1 < n)
      → ended (validate_operation_response g n operation_id status body) ≡ true
  unfolding validate_operation_response operation_validator
  operation_response-ended n d IsSchema depth operation_id status body grounded has enough =
      bind-ended (or_fail (manifest_by_id g.manifest operation_id)) _ (or_fail-ended _) λ o e0.
        bind-ended (or_fail (g.structured_clone body)) _ (or_fail-ended _) λ copy e1.
          bind-ended (operation_validator g o status) _ (or_fail-ended _) λ v e2.
            bind-ended (require (v copy)) _ (require-ended _) λ _ e3.
              bind-ended (or_fail (response_contract o status)) _ (or_fail-ended _) λ c e4.
                bind-ended (require (is_truthy c.schema)) _ (require-ended _) λ _ e5.
                  bind-ended (sanitize_response g.components g.union_validators n c.schema copy) _
                    (sanitize_response-ended g.components g.union_validators IsSchema depth d
                      grounded n c.schema copy
                      (is_schema o c (or_fail_done _ e0) (or_fail_done _ e4))
                      (omega (
                        arith,
                        enough copy (or_fail_done _ e1),
                        grounded.bounded c.schema
                            (is_schema o c (or_fail_done _ e0) (or_fail_done _ e4)),
                      )))
                    λ w e6.
                      bind-ended
                        (require (validate_semantic_contract g.parses_date operation_id status w)) _
                        (require-ended _) λ _ e7. refl
    where
      is_schema :
          (o : Operation) (c : Contract)
          → manifest_by_id g.manifest operation_id ≡ some o
          → response_contract o status ≡ some c
          → IsSchema c.schema
      is_schema o c e f =
          response_contract-All (λ c. IsSchema c.schema) o status c
            (manifest_by_id-All (λ o. All (λ c. IsSchema c.schema) o.responses) g.manifest
              operation_id o has e)
            f

  fetch_response-ended :
      (n d : ℕ) (IsSchema : Value → Type 0) (depth : Value → ℕ) (method pathname : String)
      (r : Response)
      → IsGrounded g.components IsSchema depth d
      → HasSchemas IsSchema g.manifest
      → ((body copy : Value)
          → g.parse_json r.text ≡ some body
          → g.structured_clone body ≡ some copy
          → d + inner_fuel d copy + 1 < n)
      → ended (validate_fetch_response g n method pathname r) ≡ true
  unfolding validate_fetch_response validate_json_response
  fetch_response-ended n d IsSchema depth method pathname r grounded has enough =
      elim (Option-cases (request_operation g.manifest method pathname)) [
        | inl e ↦ rw (validate_fetch_response, e) refl
        | inr (o, e) ↦ elim (Bool-cases (should_validate_response o (is_ok r))) [
          | inr v ↦ rw (validate_fetch_response, e, v) refl
          | inl v ↦
              rw (validate_fetch_response, e, v)
                (bind-ended (or_fail (response_contract o r.status)) _ (or_fail-ended _) λ c e0.
                  bind-ended (require (is_json (lookup "content-type" r.headers))) _
                    (require-ended _)
                    λ _ e1.
                      bind-ended (or_fail (g.parse_json r.text)) _ (or_fail-ended _) λ body e2.
                        bind-ended (validate_operation_response g n o.operation_id r.status body) _
                          (operation_response-ended n d IsSchema depth o.operation_id r.status body
                            grounded has (λ copy k. enough body copy (or_fail_done _ e2) k))
                          λ w e3.
                            bind-ended (require (g.takes_response (sanitized_json_response g r w)))
                              _ (require-ended _) λ _ e4. refl)
        ]
      ]

  -- The client's fetch settles when the schemas of the program, those of the manifest among them, are
  -- grounded, and the fuel is above what the copy of the response's JSON takes.
  pub validated_api_fetch-settles :
      (n d : ℕ) (IsSchema : Value → Type 0) (depth : Value → ℕ) (method pathname : String)
      (fetched : Settled Response)
      → IsGrounded g.components IsSchema depth d
      → HasSchemas IsSchema g.manifest
      → ((r : Response) (body copy : Value)
          → fetched ≡ resolved r
          → g.parse_json r.text ≡ some body
          → g.structured_clone body ≡ some copy
          → d + inner_fuel d copy + 1 < n)
      → (s : Fetched) × (validated_api_fetch g n method pathname fetched ≡ some s)
  unfolding validated_api_fetch
  validated_api_fetch-settles n d IsSchema depth method pathname (rejected e) grounded has enough =
      (fetch_rejects e, refl)
  validated_api_fetch-settles n d IsSchema depth method pathname (resolved r) grounded has enough =
      settle_some (validate_fetch_response g n method pathname r) (
        fetch_response-ended n d IsSchema depth method pathname r grounded has
          (λ body copy. enough r body copy refl))
    where
      settle_some : (m : Outcome Response) → ended m ≡ true → (s : Fetched) × (settle m ≡ some s)
      settle_some (done s) h = (answered s, refl)
      settle_some failed h = (validation_throws, refl)
      settle_some exhausted h = cc
