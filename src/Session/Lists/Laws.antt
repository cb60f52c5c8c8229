-- ===== src/Session/Lists/Laws.antt =====
-- The lists hold each item once, and a deleted session not at all.
use query_craft.Common.{
  ◌≡◌, refl, String, Bool, true, false, not, ◌&&◌, ◌||◌, List, [], ◌∷◌, ◌++◌, map, arith, str_eq,
  str_eq_self, eq_iff, contains, keep, any, ap, ◌∙◌, if◌then◌else◌,
}
use query_craft.Session.Lists.{
  concat, unique_from, unique_by_id, Summary, Page, has_session, drop_session, without_session,
}

-- No text occurs twice.
abbrev pub is_distinct : List String → Bool
is_distinct [] = true
is_distinct (s ∷ ss) = not (contains ss s) && is_distinct ss

module _ {ℓ} {A : Type ℓ} (id_of : A → String) where
  contains-unique_from :
      (seen : List String) (xs : List A) (k : String)
      → contains (map id_of (unique_from id_of seen xs)) k
        ≡ (contains (map id_of xs) k && not (contains seen k))
  unfolding unique_from
  contains-unique_from seen [] k = refl
  contains-unique_from seen (x ∷ xs) k = ground (
    arith,
    contains-unique_from seen xs k,
    contains-unique_from (id_of x ∷ seen) xs k,
    eq_iff (id_of x) k,
  )

  unique_from-distinct :
      (seen : List String) (xs : List A)
      → is_distinct (map id_of (unique_from id_of seen xs)) ≡ true
  unfolding unique_from
  unique_from-distinct seen [] = refl
  unique_from-distinct seen (x ∷ xs) = ground (
    arith,
    unique_from-distinct seen xs,
    unique_from-distinct (id_of x ∷ seen) xs,
    contains-unique_from (id_of x ∷ seen) xs (id_of x),
    str_eq_self (id_of x),
  )

  -- The items that are put together from pages have distinct ids, and the ids are those of the pages.
  pub unique_by_id_lem :
      (groups : List (List A)) (k : String)
      → (is_distinct (map id_of (unique_by_id id_of groups)) ≡ true)
        × (contains (map id_of (unique_by_id id_of groups)) k
            ≡ contains (map id_of (concat groups)) k)
  unfolding unique_by_id
  unique_by_id_lem groups k = (
    unique_from-distinct [] (concat groups),
    contains-unique_from [] (concat groups) k ∙ ground arith,
  )

abbrev pub ids : Page → List String
ids p = map (λ s. s.id) p.items

-- The ids of all pages, one after the other.
abbrev pub all_ids : List Page → List String
all_ids ps = map (λ s. s.id) (concat (map (λ p. p.items) ps))

contains-append :
    (xs ys : List String) (k : String) → contains (xs ++ ys) k ≡ (contains xs k || contains ys k)
contains-append [] ys k = refl
contains-append (x ∷ xs) ys k = ground (arith, contains-append xs ys k)

map-append :
    (xs ys : List Summary) → map (λ s. s.id) (xs ++ ys) ≡ map (λ s. s.id) xs ++ map (λ s. s.id) ys
map-append [] ys = refl
map-append (x ∷ xs) ys = ap (λ t. x.id ∷ t) (map-append xs ys)

contains-keep :
    (sid : String) (xs : List Summary) (k : String)
    → contains (map (λ s. s.id) (keep (λ s. not (str_eq s.id sid)) xs)) k
      ≡ (contains (map (λ s. s.id) xs) k && not (str_eq sid k))
contains-keep sid [] k = refl
contains-keep sid (x ∷ xs) k =
    ground (arith, contains-keep sid xs k, eq_iff x.id sid, eq_iff x.id k, eq_iff sid k)

all_ids-cons :
    (p : Page) (ps : List Page) (k : String)
    → contains (all_ids (p ∷ ps)) k ≡ (contains (ids p) k || contains (all_ids ps) k)
all_ids-cons p ps k =
    ap (λ t. contains t k) (map-append p.items (concat (map (λ q. q.items) ps)))
    ∙ contains-append (ids p) (all_ids ps) k

dropped-ids :
    (sid : String) (ps : List Page) (k : String)
    → contains (all_ids (map (drop_session sid) ps)) k
      ≡ (contains (all_ids ps) k && not (str_eq sid k))
dropped-ids sid [] k = refl
dropped-ids sid (p ∷ ps) k = ground (
  arith,
  all_ids-cons (drop_session sid p) (map (drop_session sid) ps) k,
  all_ids-cons p ps k,
  dropped-ids sid ps k,
  contains-keep sid p.items k,
)

has_session-ids :
    (sid : String) (xs : List Summary)
    → any (λ s. str_eq s.id sid) xs ≡ contains (map (λ s. s.id) xs) sid
has_session-ids sid [] = refl
has_session-ids sid (x ∷ xs) = ground (arith, has_session-ids sid xs)

any-ids : (sid : String) (ps : List Page) → any (has_session sid) ps ≡ contains (all_ids ps) sid
any-ids sid [] = refl
any-ids sid (p ∷ ps) =
    ground (arith, any-ids sid ps, all_ids-cons p ps sid, has_session-ids sid p.items)

-- After its deletion a session is on no page of the cached list, and every other session is listed as
-- before.
pub without_session-ids :
    (sid : String) (ps : List Page) (k : String)
    → contains (all_ids (without_session sid ps)) k
      ≡ (contains (all_ids ps) k && not (str_eq sid k))
unfolding without_session
without_session-ids sid ps k = by_listed (any (has_session sid) ps) refl
  where
    by_listed :
        (b : Bool)
        → any (has_session sid) ps ≡ b
        → contains (all_ids (if b then map (drop_session sid) ps else ps)) k
          ≡ (contains (all_ids ps) k && not (str_eq sid k))
    by_listed true h = dropped-ids sid ps k
    by_listed false h = ground (arith, any-ids sid ps, h, eq_iff sid k)
