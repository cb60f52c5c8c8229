-- ===== src/Api/Sanitizing/Parts.antt =====
-- Sanitizing only takes away (frontend/src/api/responseValidation.ts): what comes out is a part of
-- what went in.
use query_craft.Common.{
  ℕ, zero, suc, ◌≡◌, subst, String, Bool, true, List, [], ◌∷◌, Option, none, some, Bool-cases, inl,
  inr, All,
}
use query_craft.Common.Value.{
  Value, Items, Fields, Proto, plain, arr, obj, nil, cons, end, field, get, read, has_own, put,
  is_object,
}
use query_craft.Api.Sanitizing.{
  Outcome, done, ◌>>=◌, entries, names, is_true, sanitize_items, sanitize_array,
  sanitize_properties, sanitize_additional, with_additional, sanitize_object, sanitize_value,
  sanitize_response, matching_union_schema, resolved_schema,
}
use query_craft.Api.Sanitizing.Within.{
  IsPart, ArePart, same, of_items, of_fields, none_left, one_more, Within, bind_done,
  done-injective, put-Within, spread_from-Within, self-Within, nothing-Within, names-own,
}

module _ (recur : Value → Value → Outcome Value)
    (ih : (schema body result : Value) → recur schema body ≡ done result → IsPart result body) where
  items-ArePart :
      (schema : Value) (vs ws : Items) → sanitize_items recur schema vs ≡ done ws → ArePart ws vs
  unfolding sanitize_items
  items-ArePart schema nil ws h =
      subst (λ (us : Items). ArePart us nil) (done-injective h) none_left
  items-ArePart schema (cons v vs) ws h =
      let (w, e, k) = bind_done (recur schema v) _ h in
      let (us, f, l) = bind_done (sanitize_items recur schema vs) _ k in
      subst (λ (us : Items). ArePart us (cons v vs)) (done-injective l)
        (one_more (ih schema v w e) (items-ArePart schema vs us f))

  array-IsPart :
      (schema : Value) (vs : Items) (result : Value)
      → sanitize_array recur schema vs ≡ done result
      → IsPart result (arr vs)
  unfolding sanitize_array
  array-IsPart schema vs result h = elim (Bool-cases (is_object (get "items" schema))) [
    | inl e ↦
        let (ws, f, l) =
          bind_done (sanitize_items recur (get "items" schema) vs) _
            (rw (sanitize_array, e) at h) in
        subst (λ r. IsPart r (arr vs)) (done-injective l)
          (of_items (items-ArePart (get "items" schema) vs ws f))
    | inr e ↦
        subst (λ r. IsPart r (arr vs)) (done-injective (rw (sanitize_array, e) at h))
          (same (arr vs))
  ]

  properties-Within :
      (properties body sanitized result : Fields)
      → Within sanitized body
      → sanitize_properties recur properties body sanitized ≡ done result
      → Within result body
  unfolding sanitize_properties
  properties-Within end body sanitized result within h =
      subst (λ r. Within r body) (done-injective h) within
  properties-Within (field k schema properties) body sanitized result within h =
      elim (Bool-cases (has_own k body)) [
        | inl e ↦
            let (w, f, l) =
              bind_done (recur schema (read k body)) next (rw (sanitize_properties, e) at h) in
            properties-Within properties body (put k w sanitized) result
              (put-Within k w sanitized body e (ih schema (read k body) w f) within) l
        | inr e ↦
            properties-Within properties body sanitized result within
              (rw (sanitize_properties, e) at h)
      ]
    where
      next : Value → Outcome Fields
      next w = sanitize_properties recur properties body (put k w sanitized)

  additional-Within :
      (schema : Value) (properties : Fields) (ks : List String) (body sanitized result : Fields)
      → All (λ k. has_own k body ≡ true) ks
      → Within sanitized body
      → sanitize_additional recur schema properties ks body sanitized ≡ done result
      → Within result body
  unfolding sanitize_additional
  additional-Within schema properties [] body sanitized result own within h =
      subst (λ r. Within r body) (done-injective h) within
  additional-Within schema properties (k ∷ ks) body sanitized result own within h =
      elim (Bool-cases (has_own k properties)) [
        | inl e ↦
            additional-Within schema properties ks body sanitized result own.1 within
              (rw (sanitize_additional, e) at h)
        | inr e ↦
            let (w, f, l) =
              bind_done (recur schema (read k body)) next (rw (sanitize_additional, e) at h) in
            additional-Within schema properties ks body (put k w sanitized) result own.1
              (put-Within k w sanitized body own.0 (ih schema (read k body) w f) within) l
      ]
    where
      next : Value → Outcome Fields
      next w = sanitize_additional recur schema properties ks body (put k w sanitized)

  with_additional-Within :
      (additional : Value) (properties body sanitized result : Fields)
      → Within sanitized body
      → with_additional recur additional properties body sanitized ≡ done result
      → Within result body
  unfolding with_additional
  with_additional-Within additional properties body sanitized result within h =
      elim (Bool-cases (is_true additional)) [
        | inl e ↦
            subst (λ r. Within r body) (done-injective (rw (with_additional, e) at h))
              (spread_from-Within sanitized body sanitized body within (λ k i. i)
                (self-Within body))
        | inr e ↦ elim (Bool-cases (is_object additional)) [
          | inl f ↦
              additional-Within additional properties (names body) body sanitized result
                (names-own body) within (rw (with_additional, e, f) at h)
          | inr f ↦
              subst (λ r. Within r body) (done-injective (rw (with_additional, e, f) at h)) within
        ]
      ]

  object-IsPart :
      (schema : Value) (p : Proto) (body : Fields) (result : Value)
      → sanitize_object recur schema p body ≡ done result
      → IsPart result (obj p body)
  unfolding sanitize_object
  object-IsPart schema p body result h = elim (Bool-cases (is_object (get "properties" schema))) [
    | inr e ↦
        subst (λ r. IsPart r (obj p body)) (done-injective (rw (sanitize_object, e) at h))
          (same (obj p body))
    | inl e ↦
        let (s, f, l) =
          bind_done (sanitize_properties recur properties body end) rest
            (rw (sanitize_object, e) at h) in
        let (r, g, m) = bind_done (with_additional recur additional properties body s) _ l in
        let w =
          with_additional-Within additional properties body s r
            (properties-Within properties body end s (nothing-Within body) f) g in
        subst (λ (r : Value). IsPart r (obj p body)) (done-injective m) (of_fields w.0 w.1)
  ]
    where
      properties : Fields
      properties = entries (get "properties" schema)

      additional : Value
      additional = get "additionalProperties" schema

      rest : Fields → Outcome Value
      rest s = with_additional recur additional properties body s >>= λ r. done (obj plain r)

  value-IsPart :
      (schema body result : Value)
      → sanitize_value recur schema body ≡ done result
      → IsPart result body
  value-IsPart schema (arr vs) result h = array-IsPart schema vs result h
  value-IsPart schema (obj p fs) result h = object-IsPart schema p fs result h
  value-IsPart schema v result h = subst (λ r. IsPart r v) (done-injective h) (same v)

module _ (components : String → Option Value)
    (union_validators : String → Option (List (Value → Bool))) where
  union-IsPart :
      (n : ℕ)
      → ((schema body result : Value)
          → sanitize_response components union_validators n schema body ≡ done result
          → IsPart result body)
      → (resolved body : Value) (union : Option Value) (result : Value)
      → elim union [
        | some alternative ↦ sanitize_response components union_validators n alternative body
        | none ↦ sanitize_value (sanitize_response components union_validators n) resolved body
      ]
        ≡ done result
      → IsPart result body
  union-IsPart n ih resolved body (some a) result h = ih a body result h
  union-IsPart n ih resolved body none result h =
      value-IsPart (sanitize_response components union_validators n) ih resolved body result h

  -- A body that is sanitized, by whatever schema, is a part of what it was: lists keep their items and
  -- their order, objects have no names that they did not have, and this holds of all that stands in
  -- them.
  pub sanitize_response-IsPart :
      (n : ℕ) (schema body result : Value)
      → sanitize_response components union_validators n schema body ≡ done result
      → IsPart result body
  unfolding sanitize_response
  sanitize_response-IsPart zero schema body result h = cc
  sanitize_response-IsPart (suc n) schema body result h =
      let (resolved, e, k) = bind_done (resolved_schema components n schema) _ h in
      let (union, f, l) =
        bind_done (matching_union_schema components union_validators n resolved body) _ k in
      union-IsPart n (sanitize_response-IsPart n) resolved body union result l
