-- ===== src/Session/Lists.antt =====
-- frontend/src/hooks/useSessions.ts: the lists that are put together from pages, the fetch of one
-- session, and what the deletion of a session does to the cached data. The query client's cache of
-- these queries is a record.
pub mod Laws
pub mod Cache
pub mod Deleting
mod Tests
use query_craft.Common.{
  ℕ, ◌-◌, String, Bool, true, false, not, ◌||◌, List, [], ◌∷◌, ◌++◌, map, Option, none, some,
  if◌then◌else◌, str_eq, contains, keep, any, lookup, insert,
}
use query_craft.Common.Value.{Value, Settled, resolved, rejected}
use query_craft.Auth.Permissions.{permission_required, query_submit}
use query_craft.Session.Deletion.{
  Lifecycle, begin_deletion, rollback, is_unavailable, did_start, deletion_version, session_deleted,
}

abbrev pub concat {ℓ} : {A : Type ℓ} → List (List A) → List A
concat [] = []
concat (xs ∷ xss) = xs ++ concat xss

module _ {ℓ} {A : Type ℓ} (id_of : A → String) where
  -- The loops of `uniqueById`, with `seenIds`.
  unfoldable pub unique_from : List String → List A → List A
  unique_from seen [] = []
  unique_from seen (x ∷ xs) = elim (contains seen (id_of x)) [
    | true ↦ unique_from seen xs
    | false ↦ x ∷ unique_from (id_of x ∷ seen) xs
  ]

  unfoldable pub unique_by_id : List (List A) → List A
  unique_by_id groups = unique_from [] (concat groups)

pub record Summary : Type 0 where
  pub id : String
  pub created_at : String
  pub last_activity_at : String
  pub preview_text : String

pub record Page : Type 0 where
  pub items : List Summary
  pub total : ℕ
  pub next_cursor : Option String

abbrev last_cursor : Page → List Page → Option String
last_cursor p [] = p.next_cursor
last_cursor p (q ∷ qs) = last_cursor q qs

unfoldable pub flattened_session_list : List Page → Option Page
flattened_session_list [] = none
flattened_session_list (p ∷ ps) = some (record {
  items = unique_by_id (λ s. s.id) (map (λ q. q.items) (p ∷ ps));
  total = p.total;
  next_cursor = last_cursor p ps;
})

-- Of an attempt and of the details of a session, the fields that are only copied are left out.
pub record Attempt : Type 0 where
  pub id : String
  pub accepted_at : String

pub record Detail : Type 0 where
  pub id : String
  pub attempts : List Attempt
  pub attempts_total : ℕ
  pub attempts_next_cursor : Option String

abbrev last_attempts_cursor : Detail → List Detail → Option String
last_attempts_cursor p [] = p.attempts_next_cursor
last_attempts_cursor p (q ∷ qs) = last_attempts_cursor q qs

unfoldable pub flattened_session_detail : List Detail → Option Detail
flattened_session_detail [] = none
flattened_session_detail (p ∷ ps) = some (record p {
  attempts = unique_by_id (λ a. a.id) (map (λ q. q.attempts) (p ∷ ps));
  attempts_next_cursor = last_attempts_cursor p ps;
})

-- The query function of `useSessionDetail`: the version when it begins, then the answer.
unfoldable pub detail_start : String → Lifecycle → Option ℕ
detail_start sid s = if is_unavailable sid s then none else some (deletion_version sid s)

unfoldable pub detail_settle : String → ℕ → Settled Detail → Lifecycle → Settled Detail
detail_settle sid version (rejected e) s = rejected e
detail_settle sid version (resolved d) s =
    if did_start sid version s then rejected session_deleted else resolved d

abbrev pub has_session : String → Page → Bool
has_session sid p = any (λ s. str_eq s.id sid) p.items

abbrev pub drop_session : String → Page → Page
drop_session sid p = record p {
  items = keep (λ s. not (str_eq s.id sid)) p.items;
  total = p.total - 1;
}

-- `setQueryData(['sessions'], …)` after a deletion, on the pages of the cached list.
unfoldable pub without_session : String → List Page → List Page
without_session sid ps = if any (has_session sid) ps then map (drop_session sid) ps else ps
