-- ===== src/Api/Matching/Laws.antt =====
-- The operation of a request matches it, with the fewest parameters.
use query_craft.Common.{
  ℕ, ◌≡◌, ◌≤◌, refl, String, Bool, true, ◌&&◌, List, [], ◌∷◌, some, arith, codes_eq, str_eq, eq_iff,
  All, All-imp, All-keep, All-zip, All-Mem, keep-All, Mem,
}
use query_craft.Common.Sorting.{first-sort_by, first-sort_by_least}
use query_craft.Api.Matching.{
  Operation, segments_match, path_matches, parameters, candidates, request_operation,
}

codes_eq_refl : (cs : List ℕ) → codes_eq cs cs ≡ true
unfolding codes_eq
codes_eq_refl [] = refl
codes_eq_refl (c ∷ cs) = ground (arith, codes_eq_refl cs)

segments_match_refl : (ss : List (List ℕ)) → segments_match ss ss ≡ true
unfolding segments_match
segments_match_refl [] = refl
segments_match_refl (s ∷ ss) = ground (arith, codes_eq_refl s, segments_match_refl ss)

abbrev Fits : List Operation → String → String → Operation → Type 0
Fits manifest method pathname o =
    Mem o manifest × (o.method ≡ method) × (path_matches o.path pathname ≡ true)

candidates-Fits :
    (manifest : List Operation) (method pathname : String)
    → All (Fits manifest method pathname) (candidates manifest method pathname)
unfolding candidates
candidates-Fits manifest method pathname =
    All-imp _ _
      (λ o h. (h.0, (eq_iff o.method method).0 (ground (arith, h.1)), ground (arith, h.1))) _
      (All-zip _ _ _ (All-keep (λ o. Mem o manifest) fits manifest (All-Mem manifest))
        (keep-All fits manifest))
  where
    fits : Operation → Bool
    fits o = str_eq o.method method && path_matches o.path pathname

-- The operation that a request is checked against stands in the manifest, has the request's method
-- and a path that matches, and of all such operations it has the fewest parameters in its path.
pub request_operation_least :
    (manifest : List Operation) (method pathname : String) (o : Operation)
    → request_operation manifest method pathname ≡ some o
    → Mem o manifest
      × (o.method ≡ method)
      × (path_matches o.path pathname ≡ true)
      × All (λ p. parameters o ≤ parameters p) (candidates manifest method pathname)
unfolding request_operation
request_operation_least manifest method pathname o h =
    let f =
      first-sort_by parameters (Fits manifest method pathname) (candidates manifest method pathname)
        o h (candidates-Fits manifest method pathname) in
    (f.0, f.1, f.2, first-sort_by_least parameters (candidates manifest method pathname) o h)
