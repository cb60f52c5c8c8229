-- ===== src/Api/Sanitizing/Names.antt =====
-- Which names an object keeps when it is sanitized (frontend/src/api/responseValidation.ts).
use query_craft.Common.{
  ℕ, suc, ◌≡◌, sym, String, Bool, true, false, ◌&&◌, ◌||◌, List, Option, none, arith, eq_iff,
  Bool-cases, inl, inr,
}
use query_craft.Common.Value.{
  Value, Fields, Proto, plain, obj, end, field, get, read, has_own, put, has_own-put, is_object,
  is_truthy, arr, bool,
}
use query_craft.Api.Sanitizing.{
  Outcome, done, ◌>>=◌, entries, sanitize_properties, with_additional, sanitize_object,
  sanitize_response, matching_union_schema, resolved_schema,
}
use query_craft.Api.Sanitizing.Within.{bind_done, done-injective}

module _ (recur : Value → Value → Outcome Value) where
  properties-names :
      (properties body sanitized result : Fields)
      → sanitize_properties recur properties body sanitized ≡ done result
      → (j : String)
      → has_own j result ≡ (has_own j sanitized || (has_own j properties && has_own j body))
  unfolding sanitize_properties
  properties-names end body sanitized result h j = ground (arith, done-injective h)
  properties-names (field k schema properties) body sanitized result h j =
      elim (Bool-cases (has_own k body)) [
        | inl e ↦
            let (w, f, l) =
              bind_done (recur schema (read k body)) next (rw (sanitize_properties, e) at h) in
            ground (
              arith,
              properties-names properties body (put k w sanitized) result l j,
              has_own-put k j w sanitized,
              eq_iff k j,
              e,
            )
        | inr e ↦ ground (
          arith,
          properties-names properties body sanitized result (rw (sanitize_properties, e) at h) j,
          eq_iff k j,
          e,
        )
      ]
    where
      next : Value → Outcome Fields
      next w = sanitize_properties recur properties body (put k w sanitized)

  object-names :
      (schema : Value) (p : Proto) (body : Fields) (result : Value)
      → is_object (get "properties" schema) ≡ true
      → is_truthy (get "additionalProperties" schema) ≡ false
      → sanitize_object recur schema p body ≡ done result
      → (ws : Fields) × (result ≡ obj plain ws)
        × ((j : String)
            → has_own j ws ≡ (has_own j (entries (get "properties" schema)) && has_own j body))
  unfolding sanitize_object with_additional
  object-names schema p body result e a h =
      let (s, f, l) =
        bind_done (sanitize_properties recur properties body end) rest
          (rw (sanitize_object, e) at h) in
      let (r, g, m) = bind_done (with_additional recur additional properties body s) _ l in
      (
        r,
        sym (done-injective m),
        λ j. ground (arith, properties-names properties body end s f j, closed additional s r a g),
      )
    where
      properties : Fields
      properties = entries (get "properties" schema)

      additional : Value
      additional = get "additionalProperties" schema

      rest : Fields → Outcome Value
      rest s = with_additional recur additional properties body s >>= λ r. done (obj plain r)

      closed :
          (v : Value) (s r : Fields)
          → is_truthy v ≡ false
          → with_additional recur v properties body s ≡ done r
          → s ≡ r
      closed (arr vs) s r a g = cc
      closed (obj q fs) s r a g = cc
      closed (bool true) s r a g = cc
      closed v s r a g = done-injective g

module _ (components : String → Option Value)
    (union_validators : String → Option (List (Value → Bool))) where
  -- An object that is sanitized by a schema which resolves to one with properties, with no union to
  -- choose from and nothing said of additional properties, keeps exactly the names that the schema
  -- has, of those that it had.
  pub sanitize_response-names :
      (n : ℕ) (schema resolved : Value) (p : Proto) (body : Fields) (result : Value)
      → resolved_schema components n schema ≡ done resolved
      → matching_union_schema components union_validators n resolved (obj p body) ≡ done none
      → is_object (get "properties" resolved) ≡ true
      → is_truthy (get "additionalProperties" resolved) ≡ false
      → sanitize_response components union_validators (suc n) schema (obj p body) ≡ done result
      → (ws : Fields) × (result ≡ obj plain ws)
        × ((j : String)
            → has_own j ws ≡ (has_own j (entries (get "properties" resolved)) && has_own j body))
  unfolding sanitize_response
  sanitize_response-names n schema resolved p body result e u o a h =
      object-names (sanitize_response components union_validators n) resolved p body result o a
        (rw (sanitize_response, e, u) at h)
