-- ===== src/Workspace/Restoring.antt =====
-- A deletion that fails takes nothing from the page of frontend/src/pages/WorkspacePage.tsx.
use query_craft.Common.{
  ℕ, ◌≡◌, refl, ap, sym, subst, String, Bool, true, false, List, [], ◌∷◌, Option, none, some, arith,
  any, find, contains, add, lookup, discard, str_eq, eq_iff, str_eq_self, contains-add,
  contains-without, lookup-insert, lookup-discard, Bool-cases, Option-cases, inl, inr,
  if◌then◌else◌,
}
use query_craft.Common.Value.{Value, rejected, is_str}
use query_craft.Workspace.Turns.{
  delete_failed, Turn, get_api_error_code, is_definite_server_failure,
}
use query_craft.Workspace.Page.{Page, Served, all_turns, is_current_session_context}
use query_craft.Workspace.Deleting.{
  Snapshot, has_saved_id, find_index, restore_local, restore_deleted_turn, snapshot_of, requests,
  ignored, refused, delete_start, delete_end, finished, delete_settle,
}
use query_craft.Workspace.Showing.{all_turns-shown}

find_index-any :
    (test : Turn → Bool) (ts : List Turn) (i : ℕ) → find_index test ts ≡ some i → any test ts ≡ true
find_index-any test [] i h = cc
find_index-any test (t ∷ ts) i h = elim (Option-cases (find_index test ts)) [
  | inl f ↦ ground (arith, f)
  | inr (j, f) ↦ ground (arith, f, find_index-any test ts j f)
]

pub requests-injective {ℓ} : {A : Type ℓ} {a b : A} → requests a ≡ requests b → a ≡ b
requests-injective h = cc

pub ignored_not {ℓ} : {A : Type ℓ} {a : A} → ¬ (ignored ≡ requests a)
ignored_not h = cc

pub refused_not {ℓ} : {A : Type ℓ} {a : A} → ¬ (refused ≡ requests a)
refused_not h = cc

abbrev begun : String → Page → Page
begun id p = record p {
  pending_delete_ids = add p.pending_delete_ids id;
  saved_turn_recoveries = discard id p.saved_turn_recoveries;
  deleted_saved_ids = add p.deleted_saved_ids id;
}

-- What a started deletion has done to the page.
start-page :
    (can_view : Bool) (server : Served) (id : String) (p q : Page) (s : Snapshot)
    → delete_start can_view server id p ≡ requests (s, q)
    → (turn : Turn) × (contains p.pending_delete_ids id ≡ false)
      × ◌≡◌ {A = Snapshot × Page} (snapshot_of id turn p, begun id p) (s, q)
unfolding delete_start
start-page can_view server id p q s h = elim (Bool-cases can_view) [
  | inr a ↦ absurd (refused_not (rw (delete_start, a) at h))
  | inl a ↦ elim (Bool-cases (contains p.pending_delete_ids id)) [
    | inl b ↦ absurd (ignored_not (rw (delete_start, a, b) at h))
    | inr b ↦ elim (Option-cases (find (has_saved_id id) (all_turns server p))) [
      | inl f ↦ absurd (ignored_not (rw (delete_start, a, b, f) at h))
      | inr (turn, f) ↦ (turn, b, requests-injective (rw (delete_start, a, b, f) at h))
    ]
  ]
]

restore_local-same :
    (id : String) (turn : Turn) (p : Page)
    → restore_local (snapshot_of id turn p) p.local_turns ≡ p.local_turns
unfolding snapshot_of
restore_local-same id turn p = by_index (find_index (has_saved_id id) p.local_turns) refl
  where
    by_index :
        (o : Option ℕ)
        → find_index (has_saved_id id) p.local_turns ≡ o
        → restore_local (record (snapshot_of id turn p) { local_index = o }) p.local_turns
          ≡ p.local_turns
    by_index none e = refl
    by_index (some i) e = ground (arith, find_index-any (has_saved_id id) p.local_turns i e)

abbrev restored : Snapshot → Page → Page
restored s q = delete_end s (restore_deleted_turn s delete_failed q)

restored-deleted :
    (id : String) (turn : Turn) (p : Page) (j : String)
    → contains (restored (snapshot_of id turn p) (begun id p)).deleted_saved_ids j
      ≡ contains p.deleted_saved_ids j
unfolding delete_end restore_deleted_turn snapshot_of
restored-deleted id turn p j = ground (
  arith,
  contains-add p.deleted_saved_ids id j,
  contains-without (add p.deleted_saved_ids id) id j,
  eq_iff id j,
)

restored-pending :
    (id : String) (turn : Turn) (p : Page) (j : String)
    → contains p.pending_delete_ids id ≡ false
    → contains (restored (snapshot_of id turn p) (begun id p)).pending_delete_ids j
      ≡ contains p.pending_delete_ids j
unfolding delete_end restore_deleted_turn snapshot_of
restored-pending id turn p j b = ground (
  arith,
  contains-add p.pending_delete_ids id j,
  contains-without (add p.pending_delete_ids id) id j,
  eq_iff id j,
  b,
)

restored-notes :
    (id : String) (turn : Turn) (p : Page) (j : String)
    → lookup j (restored (snapshot_of id turn p) (begun id p)).saved_turn_recoveries
      ≡ (if str_eq id j then some delete_failed else lookup j p.saved_turn_recoveries)
unfolding delete_end restore_deleted_turn snapshot_of
restored-notes id turn p j = ground (
  arith,
  lookup-insert id j delete_failed (discard id p.saved_turn_recoveries),
  lookup-discard id j p.saved_turn_recoveries,
)

restored-local :
    (id : String) (turn : Turn) (p : Page)
    → (restored (snapshot_of id turn p) (begun id p)).local_turns ≡ p.local_turns
unfolding delete_end restore_deleted_turn
restored-local id turn p = restore_local-same id turn p

-- When the server refuses a deletion and nothing else has happened on the page since its start, nothing
-- is lost: the turns of the page are what they were, the same saved queries are deleted and pending, and
-- of the notes only that of this query has changed, which says that its deletion failed.
pub delete_settle-delete_start :
    (can_view : Bool) (server : Served) (id : String) (p q : Page) (s : Snapshot) (e : Value)
    → delete_start can_view server id p ≡ requests (s, q)
    → is_current_session_context q s.session_id s.version ≡ true
    → is_str "not_found" (get_api_error_code e) ≡ false
    → is_definite_server_failure e ≡ true
    → (r : Page) × (delete_settle s (rejected e) q ≡ finished r)
      × (r.local_turns ≡ p.local_turns)
      × ((j : String) → contains r.deleted_saved_ids j ≡ contains p.deleted_saved_ids j)
      × ((j : String) → contains r.pending_delete_ids j ≡ contains p.pending_delete_ids j)
      × ((j : String)
          → lookup j r.saved_turn_recoveries
            ≡ (if str_eq id j then some delete_failed else lookup j p.saved_turn_recoveries))
unfolding delete_settle
delete_settle-delete_start can_view server id p q s e h c n d =
    let (turn, b, eq) = start-page can_view server id p q s h in
    (
      restored (snapshot_of id turn p) (begun id p),
      rw (delete_settle, c, n, d) (ap (λ x. finished (restored x.0 x.1)) (sym eq)),
      restored-local id turn p,
      restored-deleted id turn p,
      (λ j. restored-pending id turn p j b),
      restored-notes id turn p,
    )

-- From the start of its deletion on, a saved query is not shown, whatever history the server sends.
pub delete_start-hidden :
    (can_view : Bool) (server later : Served) (id : String) (p q : Page) (s : Snapshot)
    → delete_start can_view server id p ≡ requests (s, q)
    → str_eq id "" ≡ false
    → any (has_saved_id id) (all_turns later q) ≡ false
delete_start-hidden can_view server later id p q s h n =
    let (turn, b, eq) = start-page can_view server id p q s h in
    subst (λ (x : Snapshot × Page). any (has_saved_id id) (all_turns later x.1) ≡ false) eq
      (ground (
        arith,
        all_turns-shown later (begun id p) id n,
        contains-add p.deleted_saved_ids id id,
        str_eq_self id,
      ))
