-- ===== src/Workspace/Refusing.antt =====
-- A deletion that is refused after anything else has happened on the page of
-- frontend/src/pages/WorkspacePage.tsx.
use mathlib.Core.Option.{some-injective}
use query_craft.Common.{
  ℕ, zero, suc, ◌≡◌, refl, ap, sym, subst, String, Bool, true, false, not, ◌&&◌, ◌||◌, List, [],
  ◌∷◌, some, arith, any, find, contains, lookup, str_eq, str_eq_self, contains-without,
  lookup-insert, Bool-cases, Option-cases, inl, inr,
}
use query_craft.Common.Value.{Value, rejected, is_str}
use query_craft.Workspace.Turns.{
  delete_failed, Turn, get_api_error_code, is_definite_server_failure,
}
use query_craft.Workspace.Page.{Page, Served, all_turns, is_current_session_context}
use query_craft.Workspace.Deleting.{
  Snapshot, has_saved_id, find_index, insert_at, restore_local, restore_deleted_turn, snapshot_of,
  requests, delete_start, delete_end, finished, delete_settle,
}
use query_craft.Workspace.Showing.{all_turns-shown}
use query_craft.Workspace.Restoring.{requests-injective, ignored_not, refused_not}

find_holds :
    (test : Turn → Bool) (ts : List Turn) (t : Turn)
    → find test ts ≡ some t
    → (test t ≡ true) × (any test ts ≡ true)
find_holds test [] t h = cc
find_holds test (u ∷ ts) t h = elim (Bool-cases (test u)) [
  | inl e ↦ (subst (λ v. test v ≡ true) (some-injective u t (rw e at h)) e, ground (arith, e))
  | inr e ↦ let (a, b) = find_holds test ts t (rw e at h) in (a, ground (arith, b))
]

any-index :
    (test : Turn → Bool) (ts : List Turn)
    → any test ts ≡ true
    → (i : ℕ) × (find_index test ts ≡ some i)
any-index test [] h = cc
any-index test (t ∷ ts) h = elim (Bool-cases (test t)) [
  | inl e ↦ (0, rw e refl)
  | inr e ↦ let (i, k) = any-index test ts (ground (arith, h, e)) in (suc i, rw (e, k) refl)
]

any-insert_at :
    (test : Turn → Bool) (i : ℕ) (t : Turn) (ts : List Turn)
    → test t ≡ true
    → any test (insert_at i t ts) ≡ true
any-insert_at test zero t ts h = ground (arith, h)
any-insert_at test (suc i) t [] h = ground (arith, h)
any-insert_at test (suc i) t (u ∷ ts) h = ground (arith, any-insert_at test i t ts h)

-- What a started deletion remembers: a turn with the saved query, which was shown.
start-snapshot :
    (can_view : Bool) (server : Served) (id : String) (p q : Page) (s : Snapshot)
    → str_eq id "" ≡ false
    → delete_start can_view server id p ≡ requests (s, q)
    → (turn : Turn) × (has_saved_id id turn ≡ true)
      × (contains p.deleted_saved_ids id ≡ false)
      × (s ≡ snapshot_of id turn p)
unfolding delete_start
start-snapshot can_view server id p q s n h = elim (Bool-cases can_view) [
  | inr a ↦ absurd (refused_not (rw (delete_start, a) at h))
  | inl a ↦ elim (Bool-cases (contains p.pending_delete_ids id)) [
    | inl b ↦ absurd (ignored_not (rw (delete_start, a, b) at h))
    | inr b ↦ elim (Option-cases (find (has_saved_id id) (all_turns server p))) [
      | inl f ↦ absurd (ignored_not (rw (delete_start, a, b, f) at h))
      | inr (turn, f) ↦
          let (has, shown) = find_holds (has_saved_id id) (all_turns server p) turn f in
          (
            turn,
            has,
            ground (arith, shown, all_turns-shown server p id n),
            ap (λ x. x.0) (sym (requests-injective (rw (delete_start, a, b, f) at h))),
          )
    ]
  ]
]

restored-local :
    (s : Snapshot) (i : ℕ) (ts : List Turn)
    → s.local_index ≡ some i
    → has_saved_id s.saved_query_id s.turn ≡ true
    → any (has_saved_id s.saved_query_id) (restore_local s ts) ≡ true
restored-local s i ts e has = elim (Bool-cases (any (has_saved_id s.saved_query_id) ts)) [
  | inl a ↦ rw (e, a) a
  | inr a ↦ rw (e, a) (any-insert_at (has_saved_id s.saved_query_id) i s.turn ts has)
]

abbrev put_back : Snapshot → Page → Page
put_back s t = delete_end s (restore_deleted_turn s delete_failed t)

put_back-local :
    (id : String) (turn : Turn) (p t : Page)
    → has_saved_id id turn ≡ true
    → any (has_saved_id id) p.local_turns ≡ true
    → any (has_saved_id id) (put_back (snapshot_of id turn p) t).local_turns ≡ true
unfolding delete_end restore_deleted_turn snapshot_of
put_back-local id turn p t has k =
    let (i, e) = any-index (has_saved_id id) p.local_turns k in
    restored-local (snapshot_of id turn p) i t.local_turns e has

put_back-deleted :
    (id : String) (turn : Turn) (p t : Page) (j : String)
    → contains p.deleted_saved_ids id ≡ false
    → contains (put_back (snapshot_of id turn p) t).deleted_saved_ids j
      ≡ (contains t.deleted_saved_ids j && not (str_eq id j))
unfolding delete_end restore_deleted_turn snapshot_of
put_back-deleted id turn p t j k = rw k (contains-without t.deleted_saved_ids id j)

put_back-note :
    (id : String) (turn : Turn) (p t : Page)
    → lookup id (put_back (snapshot_of id turn p) t).saved_turn_recoveries ≡ some delete_failed
unfolding delete_end restore_deleted_turn snapshot_of
put_back-note id turn p t =
    ground (arith, lookup-insert id id delete_failed t.saved_turn_recoveries, str_eq_self id)

put_back-pending :
    (id : String) (turn : Turn) (p t : Page)
    → contains (put_back (snapshot_of id turn p) t).pending_delete_ids id ≡ false
unfolding delete_end restore_deleted_turn snapshot_of
put_back-pending id turn p t =
    ground (arith, contains-without t.pending_delete_ids id id, str_eq_self id)

-- When the server refuses a deletion, and whatever page `t` has become of the one that it started on,
-- its session being current again: the saved query is shown once more, if its turn was one of the
-- page's own or the history has it still. It may be deleted anew, its note says that the deletion
-- failed, and no other saved query is deleted or restored by it.
pub delete_settle-shown :
    (can_view : Bool) (server later : Served) (id : String) (p q t : Page) (s : Snapshot)
    (e : Value)
    → str_eq id "" ≡ false
    → delete_start can_view server id p ≡ requests (s, q)
    → is_current_session_context t s.session_id s.version ≡ true
    → is_str "not_found" (get_api_error_code e) ≡ false
    → is_definite_server_failure e ≡ true
    → (any (has_saved_id id) p.local_turns || any (λ a. str_eq a.id id) later.attempts) ≡ true
    → (r : Page) × (delete_settle s (rejected e) t ≡ finished r)
      × (any (has_saved_id id) (all_turns later r) ≡ true)
      × (contains r.pending_delete_ids id ≡ false)
      × (lookup id r.saved_turn_recoveries ≡ some delete_failed)
      × ((j : String)
          → contains r.deleted_saved_ids j ≡ (contains t.deleted_saved_ids j && not (str_eq id j)))
unfolding delete_settle
delete_settle-shown can_view server later id p q t s e n h c m d held =
    let (turn, has, deleted, same) = start-snapshot can_view server id p q s n h in
    let r = put_back (snapshot_of id turn p) t in
    (
      r,
      rw (delete_settle, c, m, d) (ap (λ x. finished (put_back x t)) same),
      ground (
        arith,
        held,
        all_turns-shown later r id n,
        put_back-deleted id turn p t id deleted,
        str_eq_self id,
        put_back-local id turn p t has,
      ),
      put_back-pending id turn p t,
      put_back-note id turn p t,
      (λ j. put_back-deleted id turn p t j deleted),
    )
