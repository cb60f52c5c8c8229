-- ===== src/Api/Sanitizing/Termination.antt =====
-- How much fuel sanitizing takes (frontend/src/api/responseValidation.ts). The schemas of a program
-- end: each has a depth that falls along a reference and along an alternative of a union, and the
-- depths have a bound.
use query_craft.Common.{
  ℕ, zero, suc, ◌+◌, ◌≡◌, ◌≤◌, ◌<◌, refl, ap, sym, subst, ◌∙◌, String, Bool, true, List, [], ◌∷◌,
  Option, none, some, arith, All, All-imp, Bool-cases, Option-cases, inl, inr,
}
use query_craft.Common.Value.{Value}
use query_craft.Api.Semantics.{items_of}
use query_craft.Api.Sanitizing.{
  done, entries, names, is_array, alternatives_of, sanitize_value, sanitize_response,
  reference_target, resolved_schema, with_counts, accepted_alternatives, matching_union_schema,
}
use query_craft.Api.Sanitizing.Within.{done-injective}
use query_craft.Api.Sanitizing.Unions.{
  accepting-All, accepted_alternatives-accepting, matching_union_schema-All,
}
use query_craft.Api.Sanitizing.Fuel.{ended, bind-ended, inner_fuel, IsClosed, value-ended}

-- The schemas of a program: what is inside a schema is one, a depth falls from a schema to the
-- component that it refers to and to the alternatives of its union, and the depths have a bound.
pub record IsGrounded (components : String → Option Value) (IsSchema : Value → Type 0)
    (depth : Value → ℕ) (d : ℕ) : Type 0 where
  pub closed : IsClosed IsSchema
  pub bounded : (s : Value) → IsSchema s → depth s ≤ d
  pub referring :
      (s target : Value)
      → IsSchema s
      → reference_target components s ≡ some target
      → IsSchema target × (depth target < depth s)
  pub choosing :
      (s : Value)
      → IsSchema s
      → All (λ a. IsSchema a × (depth a < depth s)) (items_of (alternatives_of s))

module _ (components : String → Option Value)
    (union_validators : String → Option (List (Value → Bool))) (IsSchema : Value → Type 0)
    (depth : Value → ℕ) (d : ℕ) (grounded : IsGrounded components IsSchema depth d) where
  resolved_schema-ended :
      (n : ℕ) (schema : Value)
      → IsSchema schema
      → depth schema < n
      → ended (resolved_schema components n schema) ≡ true
  unfolding resolved_schema
  resolved_schema-ended zero schema i h = absurd (omega arith)
  resolved_schema-ended (suc n) schema i h =
      elim (Option-cases (reference_target components schema)) [
        | inl e ↦ rw (resolved_schema, e) refl
        | inr (t, e) ↦
            rw (resolved_schema, e)
              (let (j, l) = grounded.referring schema t i e in
                resolved_schema-ended n t j (omega arith))
      ]

  resolved_schema-depth :
      (n : ℕ) (schema resolved : Value)
      → IsSchema schema
      → resolved_schema components n schema ≡ done resolved
      → IsSchema resolved × (depth resolved ≤ depth schema)
  unfolding resolved_schema
  resolved_schema-depth zero schema resolved i h = cc
  resolved_schema-depth (suc n) schema resolved i h =
      elim (Option-cases (reference_target components schema)) [
        | inl e ↦
            subst (λ r. IsSchema r × (depth r ≤ depth schema))
              (done-injective (rw (resolved_schema, e) at h)) (i, omega arith)
        | inr (t, e) ↦
            let (j, l) = grounded.referring schema t i e in
            let (k, m) = resolved_schema-depth n t resolved j (rw (resolved_schema, e) at h) in
            (k, omega arith)
      ]

  with_counts-ended :
      (n : ℕ) (keys : List String) (alternatives : List Value)
      → All (λ a. IsSchema a × (depth a < n)) alternatives
      → ended (with_counts components n keys alternatives) ≡ true
  unfolding with_counts
  with_counts-ended n keys [] h = refl
  with_counts-ended n keys (a ∷ others) h =
      bind-ended (resolved_schema components n a) _ (resolved_schema-ended n a h.0.0 h.0.1) λ s e.
        bind-ended (with_counts components n keys others) _ (with_counts-ended n keys others h.1)
          λ rest f. refl

  accepted_alternatives-ended :
      (schema body : Value) (alternatives : List Value)
      → ended (accepted_alternatives union_validators schema body alternatives) ≡ true
  unfolding accepted_alternatives
  accepted_alternatives-ended schema body alternatives = ground arith

  matching_union_schema-ended :
      (n : ℕ) (schema body : Value)
      → IsSchema schema
      → depth schema ≤ n
      → ended (matching_union_schema components union_validators n schema body) ≡ true
  unfolding matching_union_schema
  matching_union_schema-ended n schema body i h =
      elim (Bool-cases (is_array (alternatives_of schema))) [
        | inr e ↦ rw (matching_union_schema, e) refl
        | inl e ↦
            rw (matching_union_schema, e)
              (bind-ended (accepted_alternatives union_validators schema body alternatives) _
                (accepted_alternatives-ended schema body alternatives)
                λ accepted f.
                  bind-ended (with_counts components n (names (entries body)) accepted) _
                    (with_counts-ended n (names (entries body)) accepted (accepted-All accepted f))
                    λ counted g. refl)
      ]
    where
      alternatives : List Value
      alternatives = items_of (alternatives_of schema)

      accepted-All :
          (accepted : List Value)
          → accepted_alternatives union_validators schema body alternatives ≡ done accepted
          → All (λ a. IsSchema a × (depth a < n)) accepted
      accepted-All accepted f =
          let (ps, v, m) =
            accepted_alternatives-accepting components union_validators schema body alternatives
              accepted f in
          subst (All (λ a. IsSchema a × (depth a < n))) (sym m) (
            accepting-All (λ a. IsSchema a × (depth a < n)) ps body alternatives
              (All-imp _ _ (λ a k. (k.0, omega arith)) alternatives (grounded.choosing schema i)))

  union-ended :
      (m : ℕ) (resolved body : Value) (union : Option Value)
      → ((schema body : Value)
          → IsSchema schema
          → depth schema + inner_fuel d body < m
          → ended (sanitize_response components union_validators (suc m) schema body) ≡ true)
      → IsSchema resolved
      → inner_fuel d body + depth resolved ≤ m
      → ((a : Value) → union ≡ some a → IsSchema a × (depth a < depth resolved))
      → ended (elim union [
        | some alternative ↦ sanitize_response components union_validators (suc m) alternative body
        | none ↦
            sanitize_value (sanitize_response components union_validators (suc m)) resolved body
      ])
        ≡ true
  union-ended m resolved body (some a) ih i h k = let (j, l) = k a refl in ih a body j (omega arith)
  union-ended m resolved body none ih i h k =
      value-ended IsSchema grounded.closed d m
        (sanitize_response components union_validators (suc m))
        (λ s v j l. ih s v j (omega (arith, grounded.bounded s j))) resolved body i (omega arith)

  -- When the schemas of the program are grounded, sanitizing a body by one of them ends, with a value or
  -- by throwing, on fuel above the depth of the schema and what the values in the body take, each the
  -- bound of the depths and one.
  pub sanitize_response-ended :
      (n : ℕ) (schema body : Value)
      → IsSchema schema
      → depth schema + inner_fuel d body + 1 < n
      → ended (sanitize_response components union_validators n schema body) ≡ true
  unfolding sanitize_response
  sanitize_response-ended zero schema body i h = absurd (omega arith)
  sanitize_response-ended (suc zero) schema body i h = absurd (omega arith)
  sanitize_response-ended (suc (suc m)) schema body i h =
      bind-ended (resolved_schema components (suc m) schema) _
        (resolved_schema-ended (suc m) schema i (omega arith))
        λ resolved e.
          let (j, l) = resolved_schema-depth (suc m) schema resolved i e in
          bind-ended (matching_union_schema components union_validators (suc m) resolved body) _
            (matching_union_schema-ended (suc m) resolved body j (omega arith))
            λ union f.
              union-ended m resolved body union
                (λ s v k l. sanitize_response-ended (suc m) s v k (omega arith)) j (omega arith)
                (λ a k.
                  matching_union_schema-All components union_validators
                    (λ a. IsSchema a × (depth a < depth resolved)) (suc m) resolved body a
                    (grounded.choosing resolved j) (f ∙ ap done k))
