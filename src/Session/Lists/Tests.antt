-- ===== src/Session/Lists/Tests.antt =====
-- Session lists on some pages.
use query_craft.Common.{◌≡◌, refl, false, String, List, [], ◌∷◌, map, none, some, lookup}
use query_craft.Session.Deletion.{Lifecycle, is_unavailable, deletion_version}
use query_craft.Session.Lists.{unique_by_id, unique_from, Summary, Page, Detail, detail_start}
use query_craft.Session.Lists.Cache.{Cache, delete_mutate, delete_failed}
use query_craft.Session.Lists.Deleting.{delete_failed-delete_mutate}

abbrev summary : String → Summary
summary id = record { id = id; created_at = ""; last_activity_at = ""; preview_text = id }

abbrev groups : List (List Summary)
groups = (summary "a" ∷ summary "b" ∷ []) ∷ (summary "b" ∷ summary "c" ∷ []) ∷ []

-- An item that moved to the next page between two fetches is listed once.
listed_once : map (λ s. s.id) (unique_by_id (λ s. s.id) groups) ≡ "a" ∷ "b" ∷ "c" ∷ []
unfolding unique_by_id unique_from
listed_once = refl

abbrev pages : List Page
pages = record { items = summary "a" ∷ summary "b" ∷ []; total = 2; next_cursor = none } ∷ []

abbrev detail : Detail
detail = record { id = "a"; attempts = []; attempts_total = 0; attempts_next_cursor = none }

abbrev quiet : Lifecycle
quiet = record { versions = []; unavailable = []; listeners = [] }

abbrev cached : Cache
cached = record {
  lifecycle = quiet;
  pages = some pages;
  details = ("a", detail ∷ []) ∷ [];
  invalidated = [];
}

delete_failed_example :
    (lookup "a"
        (delete_failed "a" (delete_mutate "a" cached).2 (delete_mutate "a" cached).0).details
      ≡ lookup "a" cached.details)
    × (is_unavailable "a"
          (delete_failed "a" (delete_mutate "a" cached).2 (delete_mutate "a" cached).0).lifecycle
        ≡ false)
delete_failed_example = delete_failed-delete_mutate "a" cached "a"

is_fetched : detail_start "a" quiet ≡ some 0
unfolding detail_start is_unavailable deletion_version
is_fetched = refl
