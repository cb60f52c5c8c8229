-- ===== src/Api/Responses/Fetching.antt =====
-- What the client gets from `validatedApiFetch` (frontend/src/api/responseValidation.ts).
use mathlib.Core.Option.{some-injective}
use query_craft.Common.{
  discard, lookup-discard, ℕ, ◌≡◌, ◌⊎◌, inl, inr, refl, sym, ◌∙◌, subst, String, true, false, List,
  [], ◌∷◌, none, some, arith, contains, lookup, Bool-cases, Option-cases, if◌then◌else◌,
}
use query_craft.Common.Value.{Value}
use query_craft.Api.Matching.{Operation, request_operation, should_validate_response}
use query_craft.Api.Sanitizing.{done}
use query_craft.Api.Sanitizing.Within.{bind_done, done-injective}
use query_craft.Api.Responses.{
  Setting, Response, or_fail, require, response_contract, validate_operation_response,
  sanitized_json_response, is_json, is_ok, validate_json_response, validate_fetch_response,
}
use query_craft.Api.Responses.Laws.{or_fail_done, require_done}

none_not_some {ℓ} : {A : Type ℓ} {a : A} → ¬ (none ≡ some a)
none_not_some h = cc

abbrev pub transport_headers : List String
transport_headers = "content-encoding" ∷ "content-length" ∷ "transfer-encoding" ∷ []

module _ (g : Setting) where
  -- The response that carries a validated body has the status of the one it replaces, the body as
  -- JSON, and its headers but for the three that say how the old body was sent.
  pub sanitized_json_response_lem :
      (r : Response) (validated : Value)
      → let s = sanitized_json_response g r validated in
        (s.status ≡ r.status)
        × (s.status_text ≡ r.status_text)
        × (s.text ≡ g.stringify validated)
        × ((j : String)
            → lookup j s.headers
              ≡ (if contains transport_headers j then none else lookup j r.headers))
  unfolding sanitized_json_response
  sanitized_json_response_lem r validated = (refl, refl, refl, headers)
    where
      headers :
          (j : String)
          → lookup j (
              discard "transfer-encoding"
                (discard "content-length" (discard "content-encoding" r.headers)))
            ≡ (if contains transport_headers j then none else lookup j r.headers)
      headers j = ground (
        arith,
        lookup-discard "transfer-encoding" j
            (discard "content-length" (discard "content-encoding" r.headers)),
        lookup-discard "content-length" j (discard "content-encoding" r.headers),
        lookup-discard "content-encoding" j r.headers,
      )

  -- What a response is replaced by: its body, read as JSON, has been validated for the operation.
  abbrev pub IsReplaced : ℕ → Operation → Response → Response → Type 0
  IsReplaced n o r s =
      (body : Value) × (validated : Value) × (g.parse_json r.text ≡ some body)
      × (is_json (lookup "content-type" r.headers) ≡ true)
      × (validate_operation_response g n o.operation_id r.status body ≡ done validated)
      × (s ≡ sanitized_json_response g r validated)

  json_response-IsReplaced :
      (n : ℕ) (o : Operation) (r s : Response)
      → validate_json_response g n o r ≡ done s
      → IsReplaced n o r s
  unfolding validate_json_response
  json_response-IsReplaced n o r s h =
      let (c, e0, h0) = bind_done (or_fail (response_contract o r.status)) _ h in
      let (_, e1, h1) = bind_done (require (is_json (lookup "content-type" r.headers))) _ h0 in
      let (body, e2, h2) = bind_done (or_fail (g.parse_json r.text)) _ h1 in
      let (w, e3, h3) =
        bind_done (validate_operation_response g n o.operation_id r.status body) _ h2 in
      let (_, e4, h4) =
        bind_done (require (g.takes_response (sanitized_json_response g r w))) _ h3 in
      (body, w, or_fail_done _ e2, require_done _ e1, e3, sym (done-injective h4))

  -- A response gets through either as it is, when the request is for no operation or the operation's
  -- response is not one to validate, or replaced by one whose body is the validated body.
  pub validate_fetch_response-passes :
      (n : ℕ) (method pathname : String) (r s : Response)
      → validate_fetch_response g n method pathname r ≡ done s
      → ((s ≡ r)
          × ((o : Operation)
              → request_operation g.manifest method pathname ≡ some o
              → should_validate_response o (is_ok r) ≡ false))
        ⊎ ((o : Operation) × (request_operation g.manifest method pathname ≡ some o)
            × (should_validate_response o (is_ok r) ≡ true)
            × IsReplaced n o r s)
  unfolding validate_fetch_response
  validate_fetch_response-passes n method pathname r s h =
      elim (Option-cases (request_operation g.manifest method pathname)) [
        | inl e ↦ inl (
          sym (done-injective (rw (validate_fetch_response, e) at h)),
          λ o f. absurd (none_not_some (sym e ∙ f)),
        )
        | inr (o, e) ↦ elim (Bool-cases (should_validate_response o (is_ok r))) [
          | inl v ↦
              inr (
                o,
                e,
                v,
                json_response-IsReplaced n o r s (rw (validate_fetch_response, e, v) at h),
              )
          | inr v ↦ inl (
            sym (done-injective (rw (validate_fetch_response, e, v) at h)),
            λ p f.
                subst (λ q. should_validate_response q (is_ok r) ≡ false)
                  (some-injective _ _ (sym e ∙ f)) v,
          )
        ]
      ]
