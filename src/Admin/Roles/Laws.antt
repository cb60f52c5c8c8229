-- ===== src/Admin/Roles/Laws.antt =====
-- When frontend/src/hooks/useAdminRoles.ts reports that a role has been saved.
use mathlib.Core.Option.{some-injective}
use query_craft.Common.{
  ◌≡◌, ◌⊎◌, inl, inr, refl, ap, ◌∙◌, subst, String, Bool, true, false, not, ◌&&◌, List, [], ◌∷◌,
  map, Option, none, some, arith, keep, contains, All, All-imp, All-append, All-keep, All-zip,
  All-Mem, Mem, keep-All, Bool-cases, Option-cases,
}
use query_craft.Common.Value.{Value, Settled, resolved, rejected}
use query_craft.Admin.Roles.{
  Platform, normalize_role, is_ambiguous_network_failure, role_matches_update,
  role_could_be_created_candidate, role_matches_create, as_update,
}
use query_craft.Admin.Roles.Asked.{TellsTextsApart, IsAsked, role_matches_update-IsAsked}
use query_craft.Admin.Roles.Saving.{
  SaveError, saved, failed_with, fetch_authoritative_role, fetch_authoritative_roles, id_of, ids_of,
  some_of, found, committed_roles, the_only, recovered_create, create_role, update_role,
}

module _ (g : Platform) (prior after : List Value) (detail : String → Settled Value)
    (request : Value) where
  -- A role that stands for the one that was asked for: a listed role that was not there before, whose
  -- details are the role and match the request.
  abbrev pub IsCommitted : Value → Type 0
  IsCommitted role =
      (listed : Value) × Mem listed after
      × (contains (ids_of prior) (id_of listed) ≡ false)
      × (fetch_authoritative_role (detail (id_of listed)) ≡ some role)
      × (role_matches_create g role request ≡ true)

  -- Such a role by what it takes to match the request.
  abbrev pub IsCreated : Value → Type 0
  IsCreated role =
      (listed : Value) × Mem listed after
      × (contains (ids_of prior) (id_of listed) ≡ false)
      × (fetch_authoritative_role (detail (id_of listed)) ≡ some role)
      × IsAsked g role (as_update g request)

  IsCommitted-IsCreated : TellsTextsApart g → (role : Value) → IsCommitted role → IsCreated role
  unfolding role_matches_create
  IsCommitted-IsCreated apart role (listed, m, new, d, matches) =
      (listed, m, new, d, role_matches_update-IsAsked g apart role (as_update g request) matches)

  abbrev IsNew : Value → Type 0
  IsNew listed = Mem listed after × (contains (ids_of prior) (id_of listed) ≡ false)

  abbrev IsDetail : Value → Type 0
  IsDetail role =
      (listed : Value) × IsNew listed
      × (fetch_authoritative_role (detail (id_of listed)) ≡ some role)

  candidates-IsNew : All IsNew (
      keep
        (λ role.
          not (contains (ids_of prior) (id_of role))
          && role_could_be_created_candidate g role request)
        after)
  candidates-IsNew =
      All-imp _ _ (λ role h. (h.0, ground (arith, h.1))) _
        (All-zip _ _ _ (All-keep (λ role. Mem role after) _ after (All-Mem after))
          (keep-All _ after))

  found-IsDetail :
      (listed : List Value)
      → All IsNew listed
      → All IsDetail (found (map (λ role. fetch_authoritative_role (detail (id_of role))) listed))
  found-IsDetail [] h = tt
  found-IsDetail (r ∷ rs) h =
      All-append IsDetail (some_of (fetch_authoritative_role (detail (id_of r)))) _
        (one (fetch_authoritative_role (detail (id_of r))) refl) (found-IsDetail rs h.1)
    where
      one :
          (o : Option Value)
          → fetch_authoritative_role (detail (id_of r)) ≡ o
          → All IsDetail (some_of o)
      one none e = tt
      one (some role) e = ((r, h.0, e), tt)

  committed_roles-IsCommitted : All IsCommitted (committed_roles g prior after detail request)
  unfolding committed_roles
  committed_roles-IsCommitted =
      All-imp _ IsCommitted (λ role h. (h.0.0, h.0.1.0, h.0.1.1, h.0.2, h.1)) _
        (All-zip _ _ _
          (All-keep IsDetail (λ role. role_matches_create g role request) _
            (found-IsDetail _ candidates-IsNew))
          (keep-All (λ role. role_matches_create g role request) _))

  the_only-IsCommitted :
      (roles : List Value) (role : Value)
      → the_only g roles ≡ some role
      → All IsCommitted roles
      → IsCommitted role
  the_only-IsCommitted [] role e h = cc
  the_only-IsCommitted (r ∷ []) role e h = subst IsCommitted (some-injective _ _ e) h.0
  the_only-IsCommitted (r ∷ s ∷ rs) role e h = cc

saved-injective : {v w : Value} → saved v ≡ saved w → v ≡ w
saved-injective h = cc

failed_not_saved : {v : Value} {e : SaveError} → ¬ (failed_with e ≡ saved v)
failed_not_saved h = cc

none_not_some : {v : Value} → ¬ (none ≡ some v)
none_not_some h = cc

module _ (g : Platform) where
  recovered_create-IsCommitted :
      (e : Value) (before after : Option (List Value)) (detail : String → Settled Value)
      (request role : Value)
      → recovered_create g e before after detail request ≡ some role
      → (is_ambiguous_network_failure g e ≡ true)
        × ((prior : List Value) × (roles : List Value) × (before ≡ some prior)
            × (after ≡ some roles)
            × IsCommitted g prior roles detail request role)
  unfolding recovered_create
  recovered_create-IsCommitted e before after detail request role h =
      elim (Bool-cases (is_ambiguous_network_failure g e)) [
        | inr a ↦ absurd (none_not_some (rw (recovered_create, a) at h))
        | inl a ↦ (
          a,
          elim (Option-cases after) [
            | inl b ↦ absurd (none_not_some (rw (recovered_create, a, b) at h))
            | inr (roles, b) ↦ elim (Option-cases before) [
              | inl c ↦ absurd (none_not_some (rw (recovered_create, a, b, c) at h))
              | inr (prior, c) ↦ (
                prior,
                roles,
                c,
                b,
                the_only-IsCommitted g prior roles detail request
                    (committed_roles g prior roles detail request) role
                    (rw (recovered_create, a, b, c) at h)
                    (committed_roles-IsCommitted g prior roles detail request),
              )
            ]
          ],
        )
      ]

  -- When the mutation reports a new role as saved, the user may manage roles, and either the server
  -- has answered the request with the role, or the request failed in the network, the server's lists of
  -- roles from before and after it are known, and the role is what the server says of one that is in the
  -- later list only, and has what was asked for: the same name, description and priority, the same
  -- permissions and groups in any order, and policies that print alike after sorting.
  pub create_role-saved :
      (can_manage : Bool) (before created after : Settled Value) (detail : String → Settled Value)
      (request role : Value)
      → TellsTextsApart g
      → (create_role g can_manage before created after detail request).0 ≡ saved role
      → (can_manage ≡ true)
        × (((body : Value) × (created ≡ resolved body) × (normalize_role body ≡ role))
            ⊎ ((e : Value) × (created ≡ rejected e)
                × (is_ambiguous_network_failure g e ≡ true)
                × (prior : List Value) × (roles : List Value) × (fetch_authoritative_roles before
                    ≡ some prior)
                × (fetch_authoritative_roles after ≡ some roles)
                × IsCreated g prior roles detail request role))
  unfolding create_role
  create_role-saved false before created after detail request role apart h = cc
  create_role-saved true before (resolved body) after detail request role apart h =
      (refl, inl (body, refl, saved-injective h))
  create_role-saved true before (rejected e) after detail request role apart h =
      let (a, (prior, roles, b, c, d)) = recovered (Option-cases recovery) in
      (
        refl,
        inr (
          e,
          refl,
          a,
          prior,
          roles,
          b,
          c,
          IsCommitted-IsCreated g prior roles detail request apart role d,
        ),
      )
    where
      recovery : Option Value
      recovery =
          recovered_create g e (fetch_authoritative_roles before) (fetch_authoritative_roles after)
            detail request

      recovered :
          (recovery ≡ none) ⊎ ((r : Value) × (recovery ≡ some r))
          → (is_ambiguous_network_failure g e ≡ true)
            × ((prior : List Value) × (roles : List Value) × (fetch_authoritative_roles before
                  ≡ some prior)
                × (fetch_authoritative_roles after ≡ some roles)
                × IsCommitted g prior roles detail request role)
      recovered (inl k) = absurd (failed_not_saved (rw (create_role, k) at h))
      recovered (inr (r, k)) =
          recovered_create-IsCommitted e (fetch_authoritative_roles before)
            (fetch_authoritative_roles after) detail request role
            (k ∙ ap some (saved-injective (rw (create_role, k) at h)))

  -- When the mutation reports a change of a role as saved, the user may manage roles, and either the
  -- server has answered the request with the role, or the request failed in the network and the role, as
  -- the server has it afterwards, has what the request asked for, as far as it asked: the same name,
  -- description and priority, the same permissions and groups in any order, and policies that print alike
  -- after sorting.
  pub update_role-saved :
      (can_manage : Bool) (updated after : Settled Value) (request role : Value)
      → TellsTextsApart g
      → (update_role g can_manage updated after request).0 ≡ saved role
      → (can_manage ≡ true)
        × (((body : Value) × (updated ≡ resolved body) × (normalize_role body ≡ role))
            ⊎ ((e : Value) × (updated ≡ rejected e)
                × (is_ambiguous_network_failure g e ≡ true)
                × (fetch_authoritative_role after ≡ some role)
                × IsAsked g role request))
  unfolding update_role
  update_role-saved false updated after request role apart h = cc
  update_role-saved true (resolved body) after request role apart h =
      (refl, inl (body, refl, saved-injective h))
  update_role-saved true (rejected e) after request role apart h =
      elim (Option-cases (fetch_authoritative_role after)) [
        | inl a ↦ absurd (failed_not_saved (rw (update_role, a) at h))
        | inr (r, a) ↦
            elim (Bool-cases
              (is_ambiguous_network_failure g e && role_matches_update g r request)) [
                | inr b ↦ absurd (failed_not_saved (rw (update_role, a, b) at h))
                | inl b ↦
                    let k = saved-injective (rw (update_role, a, b) at h) in
                    (
                      refl,
                      inr (
                        e,
                        refl,
                        ground (arith, b),
                        a ∙ ap some k,
                        role_matches_update-IsAsked g apart role request (
                            subst (λ q. role_matches_update g q request ≡ true) k
                              (ground (arith, b))),
                      ),
                    )
              ]
      ]
