-- ===== src/Api/Sanitizing/Unions.antt =====
-- Which alternative of a union a body is sanitized by (frontend/src/api/responseValidation.ts).
use mathlib.Core.Option.{some-injective}
use query_craft.Common.{
  ℕ, suc, ◌≡◌, ◌≤◌, refl, sym, ap, ◌∙◌, subst, String, Bool, true, false, List, [], ◌∷◌, map,
  Option, none, some, arith, length, get_elem?, All, All-imp, All-Mem, Mem, Bool-cases,
  Option-cases, inl, inr, ◌==◌, if◌then◌else◌,
}
use query_craft.Common.Sorting.{first}
use query_craft.Common.Sorting.Down.{sort_down, first-sort_down, first-sort_down_greatest}
use query_craft.Common.Value.{Value, get}
use query_craft.Api.Semantics.{items_of}
use query_craft.Api.Sanitizing.{
  Outcome, done, failed, ◌>>=◌, entries, names, is_array, alternatives_of, union_id, accepting,
  resolved_schema, with_counts, accepted_alternatives, matching_union_schema,
}
use query_craft.Api.Sanitizing.Within.{bind_done, done-injective}

-- The validators of the alternatives, when there is one for each.
abbrev pub ValidatorsOf :
    (String → Option (List (Value → Bool))) → Value → List Value → List (Value → Bool) → Type 0
ValidatorsOf union_validators schema alternatives ps =
    (id : String) × (union_id (get "x-querycraft-union-validator" schema) ≡ some id)
    × (union_validators id ≡ some ps)
    × (length ps ≡ length alternatives)

-- The validator at the place of an alternative accepts the body.
abbrev pub IsAccepted : List (Value → Bool) → Value → List Value → Value → Type 0
IsAccepted ps body alternatives a =
    (i : ℕ) × (p : Value → Bool) × (get_elem? alternatives i ≡ some a)
    × (get_elem? ps i ≡ some p)
    × (p body ≡ true)

accepting-IsAccepted :
    (ps : List (Value → Bool)) (body : Value) (alternatives : List Value)
    → All (IsAccepted ps body alternatives) (accepting ps body alternatives)
unfolding accepting
accepting-IsAccepted [] body [] = tt
accepting-IsAccepted [] body (a ∷ others) = tt
accepting-IsAccepted (p ∷ ps) body [] = tt
accepting-IsAccepted (p ∷ ps) body (a ∷ others) = by_test (p body) refl (
    All-imp (IsAccepted ps body others) (IsAccepted (p ∷ ps) body (a ∷ others))
      (λ b (i, q, e, f, g). (suc i, q, e, f, g)) (accepting ps body others)
      (accepting-IsAccepted ps body others))
  where
    by_test :
        (b : Bool)
        → p body ≡ b
        → All (IsAccepted (p ∷ ps) body (a ∷ others)) (accepting ps body others)
        → All
            (IsAccepted (p ∷ ps) body (a ∷ others))
            (if b then a ∷ accepting ps body others else accepting ps body others)
    by_test true e later = ((0, p, refl, refl, e), later)
    by_test false e later = later

-- What holds of all alternatives holds of those that are accepted.
pub accepting-All {κ} :
    (P : Value → Type κ) (ps : List (Value → Bool)) (body : Value) (alternatives : List Value)
    → All P alternatives
    → All P (accepting ps body alternatives)
unfolding accepting
accepting-All P [] body [] h = tt
accepting-All P [] body (a ∷ others) h = tt
accepting-All P (p ∷ ps) body [] h = tt
accepting-All P (p ∷ ps) body (a ∷ others) h = ground (arith, accepting-All P ps body others h.1)

module _ {κ} (components : String → Option Value) (P : Value → Type κ) where
  with_counts-All :
      (n : ℕ) (keys : List String) (alternatives : List Value) (counted : List (Value × ℕ))
      → All P alternatives
      → with_counts components n keys alternatives ≡ done counted
      → All (λ a. P a.0) counted
  unfolding with_counts
  with_counts-All n keys [] counted all h = subst (λ c. All (λ a. P a.0) c) (done-injective h) tt
  with_counts-All n keys (a ∷ others) counted all h =
      let (s, e, k) = bind_done (resolved_schema components n a) _ h in
      let (rest, f, l) = bind_done (with_counts components n keys others) _ k in
      subst (λ c. All (λ a. P a.0) c) (done-injective l)
        (all.0, with_counts-All n keys others rest all.1 f)

failed_not_done {ℓ} : {A : Type ℓ} {a : A} → ¬ (failed ≡ done a)
failed_not_done h = cc

none_not_some {ℓ} : {A : Type ℓ} {a : A} → ¬ (none ≡ some a)
none_not_some h = cc

first-map :
    (xs : List (Value × ℕ)) (a : Value)
    → first (map (λ x. x.0) xs) ≡ some a
    → (c : ℕ) × (first xs ≡ some (a, c))
first-map [] a h = cc
first-map ((b, c) ∷ xs) a h = (c, ap (λ d. some (d, c)) (some-injective _ _ h))

module _ (components : String → Option Value)
    (union_validators : String → Option (List (Value → Bool))) where
  pub accepted_alternatives-accepting :
      (schema body : Value) (alternatives accepted : List Value)
      → accepted_alternatives union_validators schema body alternatives ≡ done accepted
      → (ps : List (Value → Bool)) × ValidatorsOf union_validators schema alternatives ps
        × (accepted ≡ accepting ps body alternatives)
  unfolding accepted_alternatives
  accepted_alternatives-accepting schema body alternatives accepted h =
      elim (Option-cases (union_id (get "x-querycraft-union-validator" schema))) [
        | inl i ↦ absurd (failed_not_done (rw (accepted_alternatives, i) at h))
        | inr (id, i) ↦ elim (Option-cases (union_validators id)) [
          | inl v ↦ absurd (failed_not_done (rw (accepted_alternatives, i, v) at h))
          | inr (ps, v) ↦ elim (Bool-cases (length ps == length alternatives)) [
            | inl l ↦ (
              ps,
              (id, i, v, ground (arith, l)),
              sym (done-injective (rw (accepted_alternatives, i, v, l) at h)),
            )
            | inr l ↦ absurd (failed_not_done (rw (accepted_alternatives, i, v, l) at h))
          ]
        ]
      ]

  matching_union_schema-counted :
      (n : ℕ) (schema body a : Value)
      → matching_union_schema components union_validators n schema body ≡ done (some a)
      → (ps : List (Value → Bool)) × (counted : List (Value × ℕ)) × (c : ℕ) × ValidatorsOf
          union_validators schema
          (items_of (alternatives_of schema))
          ps
        × (with_counts components n
              (names (entries body))
              (accepting ps body (items_of (alternatives_of schema)))
            ≡ done counted)
        × (first (sort_down (λ x. x.1) counted) ≡ some (a, c))
  unfolding matching_union_schema
  matching_union_schema-counted n schema body a h =
      elim (Bool-cases (is_array (alternatives_of schema))) [
        | inr e ↦ absurd (none_not_some (done-injective (rw (matching_union_schema, e) at h)))
        | inl e ↦
            let (accepted, f, k) =
              bind_done (accepted_alternatives union_validators schema body alternatives) counts
                (rw (matching_union_schema, e) at h) in
            let (counted, g, l) = bind_done (with_counts components n keys accepted) _ k in
            let (ps, v, m) = accepted_alternatives-accepting schema body alternatives accepted f in
            let (c, o) = first-map (sort_down (λ x. x.1) counted) a (done-injective l) in
            (ps, counted, c, v, ap (with_counts components n keys) (sym m) ∙ g, o)
      ]
    where
      alternatives : List Value
      alternatives = items_of (alternatives_of schema)

      keys : List String
      keys = names (entries body)

      counts : List Value → Outcome (Option Value)
      counts accepted = with_counts components n keys accepted >>= λ counted.
          done (first (map (λ x. x.0) (sort_down (λ x. x.1) counted)))

  -- When an alternative of a union is chosen for a body, the union has a validator for each of its
  -- alternatives, the validator at the place of this one accepts the body, and no other alternative
  -- that is accepted has more properties that the body has too.
  pub matching_union_schema-IsAccepted :
      (n : ℕ) (schema body a : Value)
      → matching_union_schema components union_validators n schema body ≡ done (some a)
      → (ps : List (Value → Bool)) × (counted : List (Value × ℕ)) × (c : ℕ) × ValidatorsOf
          union_validators schema
          (items_of (alternatives_of schema))
          ps
        × IsAccepted ps body (items_of (alternatives_of schema)) a
        × (with_counts components n
              (names (entries body))
              (accepting ps body (items_of (alternatives_of schema)))
            ≡ done counted)
        × Mem (a, c) counted
        × All (λ x. x.1 ≤ c) counted
  matching_union_schema-IsAccepted n schema body a h =
      let (ps, counted, c, v, g, o) = matching_union_schema-counted n schema body a h in
      (
        ps,
        counted,
        c,
        v,
        first-sort_down (λ x. x.1)
            (λ (x : Value × ℕ). IsAccepted ps body (items_of (alternatives_of schema)) x.0) counted
            (a, c) o
            (with_counts-All components (IsAccepted ps body (items_of (alternatives_of schema))) n
              (names (entries body)) (accepting ps body (items_of (alternatives_of schema))) counted
              (accepting-IsAccepted ps body (items_of (alternatives_of schema))) g),
        g,
        first-sort_down (λ x. x.1) (λ x. Mem x counted) counted (a, c) o (All-Mem counted),
        first-sort_down_greatest (λ x. x.1) counted (a, c) o,
      )

module _ {κ} (components : String → Option Value)
    (union_validators : String → Option (List (Value → Bool))) (P : Value → Type κ) where
  -- What holds of all alternatives of a union holds of the chosen one.
  pub matching_union_schema-All :
      (n : ℕ) (schema body a : Value)
      → All P (items_of (alternatives_of schema))
      → matching_union_schema components union_validators n schema body ≡ done (some a)
      → P a
  matching_union_schema-All n schema body a all h =
      let (ps, counted, c, v, g, o) =
        matching_union_schema-counted components union_validators n schema body a h in
      first-sort_down (λ x. x.1) (λ (x : Value × ℕ). P x.0) counted (a, c) o
        (with_counts-All components P n (names (entries body))
          (accepting ps body (items_of (alternatives_of schema))) counted
          (accepting-All P ps body (items_of (alternatives_of schema)) all) g)
