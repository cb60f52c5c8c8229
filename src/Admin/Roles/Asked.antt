-- ===== src/Admin/Roles/Asked.antt =====
-- What it takes of a role that the code of frontend/src/hooks/useAdminRoles.ts finds to be the one that
-- was asked for. Lists are compared as texts, after sorting.
use mathlib.Core.List.{Perm}
use mathlib.Core.List.Perm
use query_craft.Common.{
  ◌≡◌, ◌⊎◌, inl, inr, refl, sym, ap, ◌∙◌, subst, String, Bool, true, ◌&&◌, ◌||◌, List, [], ◌∷◌, map,
  arith, Bool-cases, eq_iff,
}
use query_craft.Common.Value.{Value, undefined, str, arr, get, is_same}
use query_craft.Admin.Roles.{
  Platform, from_list, insert_value, is_undefined, sort_values, canonicalize, canonical_items,
  same_value, group_values, compared_policies, agrees, agrees_scalar, role_matches_update,
}

abbrev pub texts : List String → Value
texts ss = arr (from_list (map str ss))

-- `JSON.stringify` tells two arrays of texts apart.
abbrev pub TellsTextsApart : Platform → Type 0
TellsTextsApart g =
    (ss ts : List String) → g.stringify (texts ss) ≡ g.stringify (texts ts) → ss ≡ ts

undefined-lem : (v : Value) → is_undefined v ≡ true → v ≡ undefined
undefined-lem undefined h = refl
undefined-lem _ h = cc

undefined_not_texts : (ts : List String) → ¬ (undefined ≡ texts ts)
undefined_not_texts ts h = cc

module _ (g : Platform) where
  -- Two lists of texts with the same members, as often.
  abbrev pub SameTexts : Value → Value → Type 0
  SameTexts v w = (ss ts : List String) → v ≡ texts ss → w ≡ texts ts → Perm ss ts

  abbrev pub SamePrint : Value → Value → Type 0
  SamePrint v w = g.stringify (canonicalize g v) ≡ g.stringify (canonicalize g w)

  abbrev pub IsScalar : Value → Value → String → Type 0
  IsScalar role update k = (get k update ≡ undefined) ⊎ (is_same (get k role) (get k update) ≡ true)

  -- The role has what the request names: the same name, description and priority, the same permissions
  -- and the same values of groups in any order, and policies that print alike after sorting.
  pub record IsAsked (role update : Value) : Type 0 where
    pub name : IsScalar role update "name"
    pub description : IsScalar role update "description"
    pub priority : IsScalar role update "priority"
    pub permissions : SameTexts (get "permissions" role) (get "permissions" update)
    pub groups : SameTexts (group_values g role) (get "group_mappings" update)
    pub policies :
        (get "connection_policies" update ≡ undefined)
        ⊎ SamePrint
            (compared_policies g (get "connection_policies" role))
            (compared_policies g (get "connection_policies" update))

  insert-texts :
      (s : String) (ts : List String)
      → (us : List String) × Perm (s ∷ ts) us × (insert_value g (str s) (map str ts) ≡ map str us)
  unfolding insert_value
  insert-texts s [] = (s ∷ [], Perm.refl (s ∷ []), refl)
  insert-texts s (t ∷ ts) =
      let (us, p, e) = insert-texts s ts in
      elim (Bool-cases (g.is_before (g.stringify (str s)) (g.stringify (str t)))) [
        | inl b ↦ (s ∷ t ∷ ts, Perm.refl (s ∷ t ∷ ts), rw b refl)
        | inr b ↦ (t ∷ us, Perm.trans (Perm.swap t s ts) (Perm.cons t p), rw (b, e) refl)
      ]

  sort-texts :
      (ss : List String)
      → (us : List String) × Perm ss us × (sort_values g (map str ss) ≡ map str us)
  unfolding sort_values
  sort-texts [] = ([], Perm.nil, refl)
  sort-texts (s ∷ ss) =
      let (ts, p, e) = sort-texts ss in
      let (us, q, k) = insert-texts s ts in
      (us, Perm.trans (Perm.cons s p) q, ap (insert_value g (str s)) e ∙ k)

  items-texts : (ss : List String) → canonical_items g (from_list (map str ss)) ≡ map str ss
  unfolding canonical_items canonicalize
  items-texts [] = refl
  items-texts (s ∷ ss) = ap (λ vs. str s ∷ vs) (items-texts ss)

  canonicalize-texts :
      (ss : List String) → (us : List String) × Perm ss us × (canonicalize g (texts ss) ≡ texts us)
  unfolding canonicalize canonical_items
  canonicalize-texts ss =
      let (us, p, e) = sort-texts ss in
      (
        us,
        p,
        ap (λ vs. arr (from_list (sort_values g vs))) (items-texts ss)
            ∙ ap (λ vs. arr (from_list vs)) e,
      )

  same_value-SamePrint : (v w : Value) → same_value g v w ≡ true → SamePrint v w
  unfolding same_value
  same_value-SamePrint v w h = (eq_iff _ _).0 h

  SamePrint-SameTexts : TellsTextsApart g → (v w : Value) → SamePrint v w → SameTexts v w
  SamePrint-SameTexts apart v w h ss ts e k =
      let (us, p, c) = canonicalize-texts ss in
      let (vs, q, d) = canonicalize-texts ts in
      let same : us ≡ vs = apart us vs (
        ap g.stringify (sym c)
        ∙ ap (λ x. g.stringify (canonicalize g x)) (sym e)
        ∙ h
        ∙ ap (λ x. g.stringify (canonicalize g x)) k
        ∙ ap g.stringify d) in
      Perm.trans p (subst (λ x. Perm x ts) (sym same) (Perm.symm q))

  agrees-SameTexts :
      TellsTextsApart g
      → (k : String) (v update : Value) → agrees g k v update ≡ true
      → SameTexts v (get k update)
  agrees-SameTexts apart k v update h = elim (Bool-cases (is_undefined (get k update))) [
    | inl e ↦ λ ss ts a b. absurd (undefined_not_texts ts (sym (undefined-lem _ e) ∙ b))
    | inr e ↦
        SamePrint-SameTexts apart v (get k update)
          (same_value-SamePrint v (get k update) (ground (arith, h, e)))
  ]

  scalar-IsScalar :
      (role update : Value) (k : String)
      → agrees_scalar g role update k ≡ true
      → IsScalar role update k
  scalar-IsScalar role update k h = elim (Bool-cases (is_undefined (get k update))) [
    | inl e ↦ inl (undefined-lem _ e)
    | inr e ↦ inr (ground (arith, h, e))
  ]

  update-parts :
      (role update : Value)
      → role_matches_update g role update ≡ true
      → (agrees_scalar g role update "name" ≡ true)
        × (agrees_scalar g role update "description" ≡ true)
        × (agrees_scalar g role update "priority" ≡ true)
        × (agrees g "permissions" (get "permissions" role) update ≡ true)
        × (agrees g "group_mappings" (group_values g role) update ≡ true)
        × ((is_undefined (get "connection_policies" update)
              || same_value g
                  (compared_policies g (get "connection_policies" role))
                  (compared_policies g (get "connection_policies" update)))
            ≡ true)
  unfolding role_matches_update
  update-parts role update h =
      six (agrees_scalar g role update "name") (agrees_scalar g role update "description")
        (agrees_scalar g role update "priority")
        (agrees g "permissions" (get "permissions" role) update)
        (agrees g "group_mappings" (group_values g role) update)
        (is_undefined (get "connection_policies" update)
          || same_value g (compared_policies g (get "connection_policies" role))
              (compared_policies g (get "connection_policies" update)))
        h
    where
      six :
          (a b c d e f : Bool)
          → ((a && (b && (c && true))) && d && e && f) ≡ true
          → (a ≡ true) × (b ≡ true) × (c ≡ true) × (d ≡ true) × (e ≡ true) × (f ≡ true)
      six a b c d e f k = ground (arith, k)

  pub role_matches_update-IsAsked :
      TellsTextsApart g
      → (role update : Value) → role_matches_update g role update ≡ true
      → IsAsked role update
  role_matches_update-IsAsked apart role update h =
      let (n, d, p, ps, gs, cs) = update-parts role update h in
      record {
        name = scalar-IsScalar role update "name" n;
        description = scalar-IsScalar role update "description" d;
        priority = scalar-IsScalar role update "priority" p;
        permissions = agrees-SameTexts apart "permissions" (get "permissions" role) update ps;
        groups = agrees-SameTexts apart "group_mappings" (group_values g role) update gs;
        policies = elim (Bool-cases (is_undefined (get "connection_policies" update))) [
          | inl e ↦ inl (undefined-lem _ e)
          | inr e ↦ inr (same_value-SamePrint _ _ (ground (arith, cs, e)))
        ];
      }
