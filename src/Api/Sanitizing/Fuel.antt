-- ===== src/Api/Sanitizing/Fuel.antt =====
-- The fuel that the values inside a body take (frontend/src/api/responseValidation.ts), with the
-- recursive call as an argument.
use query_craft.Common.{
  ℕ, ◌+◌, ◌≡◌, ◌≤◌, ◌<◌, refl, String, Bool, true, false, List, [], ◌∷◌, arith, str_eq, All,
  Bool-cases, inl, inr,
}
use query_craft.Common.Value.{
  Value, Items, Fields, Proto, arr, obj, nil, cons, end, field, get, read, has_own, put, is_object,
}
use query_craft.Api.Sanitizing.{
  Outcome, done, failed, exhausted, ◌>>=◌, entries, names, is_true, sanitize_items, sanitize_array,
  sanitize_properties, sanitize_additional, with_additional, sanitize_object, sanitize_value,
}
use query_craft.Api.Sanitizing.Within.{names-own}

-- A call that throws or returns has not run out of fuel.
abbrev pub ended {ℓ} : {A : Type ℓ} → Outcome A → Bool
ended (done a) = true
ended failed = true
ended exhausted = false

pub bind-ended {ℓ κ} :
    {A : Type ℓ} {B : Type κ} (m : Outcome A) (f : A → Outcome B)
    → ended m ≡ true
    → ((a : A) → m ≡ done a → ended (f a) ≡ true)
    → ended (m >>= f) ≡ true
bind-ended (done a) f h k = k a refl
bind-ended failed f h k = refl
bind-ended exhausted f h k = h

-- The fuel for what stands in a body, with `d` for each value in it.
abbrev mutual
  pub inner_fuel : ℕ → Value → ℕ
  inner_fuel d (arr vs) = items_fuel d vs
  inner_fuel d (obj p fs) = fields_fuel d fs
  inner_fuel d v = 0

  pub items_fuel : ℕ → Items → ℕ
  items_fuel d nil = 0
  items_fuel d (cons v vs) = (d + 1 + inner_fuel d v) + items_fuel d vs

  pub fields_fuel : ℕ → Fields → ℕ
  fields_fuel d end = 0
  fields_fuel d (field k v fs) = (d + 1 + inner_fuel d v) + fields_fuel d fs

read-fuel :
    (d : ℕ) (k : String) (fs : Fields)
    → has_own k fs ≡ true
    → d + 1 + inner_fuel d (read k fs) ≤ fields_fuel d fs
read-fuel d k end h = cc
read-fuel d k (field j v fs) h = elim (Bool-cases (str_eq j k)) [
  | inl e ↦ rw e (omega arith)
  | inr e ↦ rw e (omega (arith, read-fuel d k fs (rw e at h)))
]

-- What holds of the values of an object.
abbrev pub AllValues : (Value → Type 0) → Fields → Type 0
AllValues P end = Unit
AllValues P (field k v fs) = P v × AllValues P fs

-- The schemas inside a schema are schemas.
pub record IsClosed (IsSchema : Value → Type 0) : Type 0 where
  pub in_items :
      (s : Value) → IsSchema s → is_object (get "items" s) ≡ true → IsSchema (get "items" s)
  pub in_properties : (s : Value) → IsSchema s → AllValues IsSchema (entries (get "properties" s))
  pub in_additional :
      (s : Value)
      → IsSchema s
      → is_object (get "additionalProperties" s) ≡ true
      → IsSchema (get "additionalProperties" s)

module _ (IsSchema : Value → Type 0) (closed : IsClosed IsSchema) (d fuel : ℕ)
    (recur : Value → Value → Outcome Value)
    (ih : (schema body : Value)
      → IsSchema schema
      → d + inner_fuel d body < fuel
      → ended (recur schema body) ≡ true) where
  items-ended :
      (schema : Value) (vs : Items)
      → IsSchema schema
      → items_fuel d vs ≤ fuel
      → ended (sanitize_items recur schema vs) ≡ true
  unfolding sanitize_items
  items-ended schema nil i h = refl
  items-ended schema (cons v vs) i h =
      bind-ended (recur schema v) _ (ih schema v i (omega arith)) λ w e.
        bind-ended (sanitize_items recur schema vs) _ (items-ended schema vs i (omega arith))
          λ ws f. refl

  properties-ended :
      (properties body sanitized : Fields)
      → AllValues IsSchema properties
      → fields_fuel d body ≤ fuel
      → ended (sanitize_properties recur properties body sanitized) ≡ true
  unfolding sanitize_properties
  properties-ended end body sanitized i h = refl
  properties-ended (field k schema properties) body sanitized i h =
      elim (Bool-cases (has_own k body)) [
        | inl e ↦
            rw (sanitize_properties, e)
              (bind-ended (recur schema (read k body)) _
                (ih schema (read k body) i.0 (omega (arith, read-fuel d k body e)))
                λ w f. properties-ended properties body (put k w sanitized) i.1 h)
        | inr e ↦ rw (sanitize_properties, e) (properties-ended properties body sanitized i.1 h)
      ]

  additional-ended :
      (schema : Value) (properties : Fields) (ks : List String) (body sanitized : Fields)
      → IsSchema schema
      → fields_fuel d body ≤ fuel
      → All (λ k. has_own k body ≡ true) ks
      → ended (sanitize_additional recur schema properties ks body sanitized) ≡ true
  unfolding sanitize_additional
  additional-ended schema properties [] body sanitized i h own = refl
  additional-ended schema properties (k ∷ ks) body sanitized i h own =
      elim (Bool-cases (has_own k properties)) [
        | inl e ↦
            rw (sanitize_additional, e)
              (additional-ended schema properties ks body sanitized i h own.1)
        | inr e ↦
            rw (sanitize_additional, e)
              (bind-ended (recur schema (read k body)) _
                (ih schema (read k body) i (omega (arith, read-fuel d k body own.0)))
                λ w f. additional-ended schema properties ks body (put k w sanitized) i h own.1)
      ]

  with_additional-ended :
      (additional : Value) (properties body sanitized : Fields)
      → (is_object additional ≡ true → IsSchema additional)
      → fields_fuel d body ≤ fuel
      → ended (with_additional recur additional properties body sanitized) ≡ true
  unfolding with_additional
  with_additional-ended additional properties body sanitized i h =
      elim (Bool-cases (is_true additional)) [
        | inl e ↦ rw (with_additional, e) refl
        | inr e ↦ elim (Bool-cases (is_object additional)) [
          | inl f ↦
              rw (with_additional, e, f)
                (additional-ended additional properties (names body) body sanitized (i f) h
                  (names-own body))
          | inr f ↦ rw (with_additional, e, f) refl
        ]
      ]

  object-ended :
      (schema : Value) (p : Proto) (body : Fields)
      → IsSchema schema
      → fields_fuel d body ≤ fuel
      → ended (sanitize_object recur schema p body) ≡ true
  unfolding sanitize_object
  object-ended schema p body i h = elim (Bool-cases (is_object (get "properties" schema))) [
    | inr e ↦ rw (sanitize_object, e) refl
    | inl e ↦
        rw (sanitize_object, e)
          (bind-ended (sanitize_properties recur properties body end) _
            (properties-ended properties body end (closed.in_properties schema i) h)
            λ s f.
              bind-ended (with_additional recur additional properties body s) _
                (with_additional-ended additional properties body s (closed.in_additional schema i)
                  h)
                λ r g. refl)
  ]
    where
      properties : Fields
      properties = entries (get "properties" schema)

      additional : Value
      additional = get "additionalProperties" schema

  array-ended :
      (schema : Value) (vs : Items)
      → IsSchema schema
      → items_fuel d vs ≤ fuel
      → ended (sanitize_array recur schema vs) ≡ true
  unfolding sanitize_array
  array-ended schema vs i h = elim (Bool-cases (is_object (get "items" schema))) [
    | inr e ↦ rw (sanitize_array, e) refl
    | inl e ↦
        rw (sanitize_array, e)
          (bind-ended (sanitize_items recur (get "items" schema) vs) _
            (items-ended (get "items" schema) vs (closed.in_items schema i e) h) λ ws f. refl)
  ]

  pub value-ended :
      (schema body : Value)
      → IsSchema schema
      → inner_fuel d body ≤ fuel
      → ended (sanitize_value recur schema body) ≡ true
  value-ended schema (arr vs) i h = array-ended schema vs i h
  value-ended schema (obj p fs) i h = object-ended schema p fs i h
  value-ended schema v i h = refl
