-- ===== src/Workspace/Page.antt =====
-- The state of frontend/src/pages/WorkspacePage.tsx, the conversation that it shows, and the functions
-- that its handlers share. A handler reads what the page last rendered, which is the state that it is
-- given. The record also holds what the page shares with the rest of the program: the active session
-- of the store, and the deletion lifecycle.
use mathlib.Core.List.{reverse}
use query_craft.Common.{
  ℕ, String, Bool, true, false, not, ◌&&◌, List, [], ◌∷◌, ◌++◌, map, Option, none, some, keep,
  contains, lookup, str_eq, if◌then◌else◌,
}
use query_craft.Session.Deletion.{Lifecycle, is_unavailable, did_start}
use query_craft.Workspace.Turns.{
  RecoveryKind, Turn, Attempt, Connection, non_empty, build_history_turn,
}

-- A query of the cache that is invalidated: the history, or one session.
pub data CacheKey : Type 0 where
  history : CacheKey
  session : String → CacheKey

pub record Page : Type 0 where
  pub local_turns : List Turn
  pub deleted_saved_ids : List String
  pub saved_turn_recoveries : List (String × RecoveryKind)
  pub rendered_session_id : Option String
  pub prev_session_id : Option String
  pub pending_submit : Bool
  pub pending_delete_ids : List String
  pub pending_regenerate_ids : List String
  pub pending_connection_retry_ids : List String
  pub alert : Option String
  pub active_session_id : Option String
  pub lifecycle : Lifecycle
  pub invalidated : List CacheKey

-- What the page has from the server: the attempts of the session and the connections.
pub record Served : Type 0 where
  pub attempts : List Attempt
  pub connections : List Connection

abbrev pub same_id : Option String → Option String → Bool
same_id none none = true
same_id (some s) (some t) = str_eq s t
same_id _ _ = false

-- `t.savedQueryId && ids.has(t.savedQueryId)`.
abbrev pub is_among : List String → Option String → Bool
is_among ids none = false
is_among ids (some s) = not (str_eq s "") && contains ids s

abbrev pub is_set : Option String → Bool
is_set none = false
is_set (some s) = not (str_eq s "")

abbrev pub cons_some : Option String → List String → List String
cons_some none ids = ids
cons_some (some s) ids = s ∷ ids

abbrev pub saved_ids : List Turn → List String
saved_ids [] = []
saved_ids (t ∷ ts) = cons_some t.saved_query_id (saved_ids ts)

unfoldable pub local_saved_ids_with_active_attempt : Page → List String
local_saved_ids_with_active_attempt p = saved_ids (
    keep
      (λ t.
        is_set t.saved_query_id
        && is_set t.attempt_id
        && not (is_among p.deleted_saved_ids t.saved_query_id))
      p.local_turns)

unfoldable pub history_attempts : Served → Page → List Attempt
history_attempts server p =
    keep
      (λ a.
        not (contains p.deleted_saved_ids a.id)
        && not (contains (local_saved_ids_with_active_attempt p) a.id))
      server.attempts

unfoldable pub deduped_local_turns : Served → Page → List Turn
unfolding history_attempts
deduped_local_turns server p =
    keep
      (λ t.
        not (is_among (map (λ a. a.id) (history_attempts server p)) t.saved_query_id)
        && not (is_among p.deleted_saved_ids t.saved_query_id))
      p.local_turns

unfoldable pub with_recovery : List (String × RecoveryKind) → Turn → Turn
with_recovery recoveries t = elim (non_empty t.saved_query_id) [
  | none ↦ t
  | some id ↦ elim (lookup id recoveries) [
    | none ↦ t
    | some kind ↦ record t { recovery = some kind }
  ]
]

unfoldable pub all_turns : Served → Page → List Turn
unfolding history_attempts deduped_local_turns with_recovery
all_turns server p = map (with_recovery p.saved_turn_recoveries) (
    map (λ a. build_history_turn a server.connections) (reverse (history_attempts server p))
    ++ deduped_local_turns server p)

-- The effect that runs when the active session is another.
unfoldable pub session_effect : Page → Page
session_effect p =
    let q = record p { prev_session_id = p.active_session_id } in
    if same_id p.rendered_session_id p.active_session_id
    then q
    else if same_id p.prev_session_id none
        && not (same_id p.active_session_id none)
        && p.pending_submit
    then record q { pending_submit = false; rendered_session_id = p.active_session_id }
    else record q {
      rendered_session_id = p.active_session_id;
      local_turns = [];
      deleted_saved_ids = [];
      saved_turn_recoveries = [];
    }

-- `useUIStore` gets another active session, and the page renders.
unfoldable pub switch_session : Option String → Page → Page
unfolding session_effect
switch_session id p = session_effect (record p { active_session_id = id })

unfoldable pub is_current_session_context : Page → Option String → ℕ → Bool
is_current_session_context p id version = same_id p.active_session_id id && elim (non_empty id) [
  | none ↦ true
  | some s ↦ not (is_unavailable s p.lifecycle) && not (did_start s version p.lifecycle)
]

unfoldable pub is_current_retry_context : Page → Option String → ℕ → Option String → Bool
unfolding is_current_session_context
is_current_retry_context p id version result_session = elim (non_empty id) [
  | some s ↦ is_current_session_context p id version
  | none ↦ elim (non_empty result_session) [
    | some r ↦ same_id p.active_session_id (some r)
    | none ↦ same_id p.active_session_id none
  ]
]

-- `turn.attemptId || turn.id`.
abbrev pub turn_key : Turn → String
turn_key t = elim (non_empty t.attempt_id) [ none ↦ t.id | some a ↦ a ]

abbrev pub change_where : (Turn → Bool) → (Turn → Turn) → List Turn → List Turn
change_where test patch [] = []
change_where test patch (t ∷ ts) = (if test t then patch t else t) ∷ change_where test patch ts

unfoldable pub update_turn : String → (Turn → Turn) → Page → Page
update_turn key patch p = record p {
  local_turns = change_where (λ t. str_eq (turn_key t) key) patch p.local_turns;
}

-- The cache keys that are invalidated with the history.
unfoldable pub invalidate_workspace_history : Option String → Page → Page
invalidate_workspace_history id p = record p {
  invalidated = p.invalidated ++ history ∷ of_session (non_empty id);
}
  where
    of_session : Option String → List CacheKey
    of_session none = []
    of_session (some s) = session s ∷ []
