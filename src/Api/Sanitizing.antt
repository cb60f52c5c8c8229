-- ===== src/Api/Sanitizing.antt =====
-- The sanitizing of a body in frontend/src/api/responseValidation.ts: the body without what its
-- schema does not name. The component schemas and the validators of the alternatives of a union are
-- generated and are parameters. A schema is a JSON object, and so is what its `properties` holds.
-- Following references and unions ends for the schemas of a program; fuel stands for it here, and
-- Sanitizing/Termination.antt says how much is enough.
pub mod Within
pub mod Parts
pub mod Names
pub mod Unions
pub mod Fuel
pub mod Termination
pub mod Tests
use query_craft.Common.{
  ℕ, zero, suc, String, Bool, true, false, not, ◌&&◌, List, [], ◌∷◌, map, Option, none, some, keep,
  length, contains, last_segment, ◌==◌, str_eq, if◌then◌else◌,
}
use query_craft.Common.Sorting.{first}
use query_craft.Common.Sorting.Down.{sort_down}
use query_craft.Common.Value.{
  if_nullish, Value, Items, Fields, Proto, plain, undefined, null, bool, str, arr, obj, nil, cons,
  end, field, get, read, has_own, put, spread, is_object,
}
use query_craft.Api.Semantics.{items_of}

-- A call returns, throws, or is out of fuel. It throws by `failContract`, or as the platform does, on a
-- member of nothing say: which error it is is left open.
pub data Outcome {ℓ} (A : Type ℓ) : Type ℓ where
  done : A → Outcome A
  failed exhausted : Outcome A

infixl 5 ◌>>=◌
abbrev pub ◌>>=◌ {ℓ κ} : {A : Type ℓ} {B : Type κ} → Outcome A → (A → Outcome B) → Outcome B
done a >>= f = f a
failed >>= f = failed
exhausted >>= f = exhausted

-- `Object.entries` of an object, and its names.
abbrev pub entries : Value → Fields
entries (obj p fs) = fs
entries v = end

abbrev pub names : Fields → List String
names end = []
names (field k v fs) = k ∷ names fs

abbrev pub is_array : Value → Bool
is_array (arr vs) = true
is_array v = false

abbrev pub is_true : Value → Bool
is_true (bool b) = b
is_true v = false

-- `schema.anyOf ?? schema.oneOf`.
unfoldable pub alternatives_of : Value → Value
alternatives_of schema = if_nullish (get "anyOf" schema) (get "oneOf" schema)

abbrev pub union_id : Value → Option String
union_id (str s) = some s
union_id v = none

-- The alternatives whose validator, that of the same index, accepts the body.
unfoldable pub accepting : List (Value → Bool) → Value → List Value → List Value
accepting (p ∷ ps) body (a ∷ others) =
    let rest = accepting ps body others in if p body then a ∷ rest else rest
accepting _ body _ = []

-- What `sanitizeResponse` does with its own recursive calls, which are an argument.
module _ (recur : Value → Value → Outcome Value) where
  unfoldable pub sanitize_items : Value → Items → Outcome Items
  sanitize_items schema nil = done nil
  sanitize_items schema (cons v vs) = do
    w ← recur schema v
    ws ← sanitize_items schema vs
    done (cons w ws)

  unfoldable pub sanitize_array : Value → Items → Outcome Value
  sanitize_array schema vs = elim (is_object (get "items" schema)) [
    | false ↦ done (arr vs)
    | true ↦ sanitize_items (get "items" schema) vs >>= λ ws. done (arr ws)
  ]

  -- The loop over the properties that the schema names, with what is sanitized so far.
  unfoldable pub sanitize_properties : Fields → Fields → Fields → Outcome Fields
  sanitize_properties end body sanitized = done sanitized
  sanitize_properties (field k schema properties) body sanitized = elim (has_own k body) [
    | false ↦ sanitize_properties properties body sanitized
    | true ↦
        recur schema (read k body) >>= λ w. sanitize_properties properties body (put k w sanitized)
  ]

  -- The loop over the other entries of the body, when the schema says of what kind they are. The
  -- entry of a name is what the body reads there.
  unfoldable pub sanitize_additional :
      Value → Fields → List String → Fields → Fields → Outcome Fields
  sanitize_additional schema properties [] body sanitized = done sanitized
  sanitize_additional schema properties (k ∷ ks) body sanitized = elim (has_own k properties) [
    | true ↦ sanitize_additional schema properties ks body sanitized
    | false ↦ recur schema (read k body) >>= λ w.
        sanitize_additional schema properties ks body (put k w sanitized)
  ]

  unfoldable pub with_additional : Value → Fields → Fields → Fields → Outcome Fields
  unfolding sanitize_additional
  with_additional additional properties body sanitized = elim (is_true additional) [
    | true ↦ done (spread body sanitized)
    | false ↦ elim (is_object additional) [
      | true ↦ sanitize_additional additional properties (names body) body sanitized
      | false ↦ done sanitized
    ]
  ]

  unfoldable pub sanitize_object : Value → Proto → Fields → Outcome Value
  unfolding sanitize_properties with_additional
  sanitize_object schema p body = elim (is_object (get "properties" schema)) [
    | false ↦ done (obj p body)
    | true ↦ do
      sanitized ← sanitize_properties (entries (get "properties" schema)) body end
      result ←
          with_additional (get "additionalProperties" schema) (entries (get "properties" schema))
            body sanitized
      done (obj plain result)
  ]

  -- What follows when no union stands in the way.
  abbrev pub sanitize_value : Value → Value → Outcome Value
  sanitize_value schema (arr vs) = sanitize_array schema vs
  sanitize_value schema (obj p fs) = sanitize_object schema p fs
  sanitize_value schema v = done v

module _ (union_validators : String → Option (List (Value → Bool))) where
  unfoldable pub accepted_alternatives : Value → Value → List Value → Outcome (List Value)
  accepted_alternatives schema body alternatives =
      elim (union_id (get "x-querycraft-union-validator" schema)) [
        | none ↦ failed
        | some id ↦ elim (union_validators id) [
          | none ↦ failed
          | some ps ↦
              if length ps == length alternatives
              then done (accepting ps body alternatives)
              else failed
        ]
      ]

module _ (components : String → Option Value) where
  -- The component that a schema refers to.
  unfoldable pub reference_target : Value → Option Value
  reference_target schema = target (get "$ref" schema)
    where
      target : Value → Option Value
      target (str reference) =
          let name = last_segment reference in if str_eq name "" then none else components name
      target v = none

  unfoldable pub resolved_schema : ℕ → Value → Outcome Value
  resolved_schema zero schema = exhausted
  resolved_schema (suc n) schema = elim (reference_target schema) [
    | none ↦ done schema
    | some component ↦ resolved_schema n component
  ]

  -- How many properties of an alternative the body has, for each alternative.
  unfoldable pub with_counts : ℕ → List String → List Value → Outcome (List (Value × ℕ))
  with_counts n keys [] = done []
  with_counts n keys (a ∷ others) = do
    schema ← resolved_schema n a
    rest ← with_counts n keys others
    done (
        (a, length (keep (λ k. contains keys k) (names (entries (get "properties" schema)))))
        ∷ rest)

  module _ (union_validators : String → Option (List (Value → Bool))) where
    unfoldable pub matching_union_schema : ℕ → Value → Value → Outcome (Option Value)
    matching_union_schema n schema body = elim (is_array (alternatives_of schema)) [
      | false ↦ done none
      | true ↦ do
        accepted ←
            accepted_alternatives union_validators schema body (items_of (alternatives_of schema))
        counted ← with_counts n (names (entries body)) accepted
        done (first (map (λ a. a.0) (sort_down (λ a. a.1) counted)))
    ]

    unfoldable pub sanitize_response : ℕ → Value → Value → Outcome Value
    sanitize_response zero schema body = exhausted
    sanitize_response (suc n) schema body = do
      resolved ← resolved_schema n schema
      union ← matching_union_schema n resolved body
      elim union [
        | some alternative ↦ sanitize_response n alternative body
        | none ↦ sanitize_value (sanitize_response n) resolved body
      ]
