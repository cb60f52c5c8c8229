-- ===== src/Session/Lists/Cache.antt =====
-- `useDeleteSession` in frontend/src/hooks/useSessions.ts: what the mutation does to the lifecycle
-- and to the query client's cache, here the pages of the list, the details by session and the keys
-- that were invalidated.
use query_craft.Common.{
  ℕ, String, List, [], ◌∷◌, Option, none, some, if◌then◌else◌, str_eq, lookup, insert,
}
use query_craft.Session.Deletion.{Lifecycle, begin_deletion, rollback}
use query_craft.Session.Lists.{Page, Detail, without_session}

pub data QueryKey : Type 0 where
  sessions history : QueryKey
  session : String → QueryKey

pub record Cache : Type 0 where
  pub lifecycle : Lifecycle
  pub pages : Option (List Page)
  pub details : List (String × List Detail)
  pub invalidated : List QueryKey

-- `removeQueries` with an exact key.
abbrev pub removed {ℓ} : {A : Type ℓ} → String → List (String × A) → List (String × A)
removed k [] = []
removed k ((j, v) ∷ m) = let rest = removed k m in if str_eq j k then rest else (j, v) ∷ rest

-- `onMutate`: the state, with the listeners that the deletion calls, and the context.
unfoldable pub delete_mutate : String → Cache → Cache × List (ℕ × String) × Option (List Detail)
delete_mutate sid c =
    let (l, calls) = begin_deletion sid c.lifecycle in
    (record c { lifecycle = l; details = removed sid c.details }, calls, lookup sid c.details)

abbrev deleted_from : String → Option (List Page) → Option (List Page)
deleted_from sid none = none
deleted_from sid (some ps) = some (without_session sid ps)

-- `onSuccess`.
unfoldable pub delete_succeeded : String → Cache → Cache
delete_succeeded sid c = record c {
  pages = deleted_from sid c.pages;
  details = removed sid c.details;
  invalidated = history ∷ sessions ∷ c.invalidated;
}

abbrev pub restored {ℓ} : {A : Type ℓ} → String → Option A → List (String × A) → List (String × A)
restored k none m = m
restored k (some v) m = insert k v m

-- `onError`, with the context.
unfoldable pub delete_failed : String → Option (List Detail) → Cache → Cache
delete_failed sid previous c = record c {
  lifecycle = rollback sid c.lifecycle;
  details = restored sid previous c.details;
  invalidated = history ∷ session sid ∷ sessions ∷ c.invalidated;
}
