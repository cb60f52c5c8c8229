-- ===== src/Ui/Store.antt =====
-- frontend/src/stores/uiStore.ts: the state that pages share, and what of it is kept in storage.
use query_craft.Common.{String, Bool, true, false, not, Option, none}

pub record UiState : Type 0 where
  pub sidebar_collapsed : Bool
  pub active_session_id : Option String
  pub hovered_session_id : Option String
  pub prompt_draft : String

abbrev pub initial : UiState
initial = record {
  sidebar_collapsed = false;
  active_session_id = none;
  hovered_session_id = none;
  prompt_draft = "";
}

unfoldable pub toggle_sidebar : UiState → UiState
toggle_sidebar s = record s { sidebar_collapsed = not s.sidebar_collapsed }

unfoldable pub collapse_sidebar : UiState → UiState
collapse_sidebar s = record s { sidebar_collapsed = true }

unfoldable pub set_active_session_id : Option String → UiState → UiState
set_active_session_id id s = record s { active_session_id = id }

unfoldable pub set_hovered_session_id : Option String → UiState → UiState
set_hovered_session_id id s = record s { hovered_session_id = id }

unfoldable pub set_prompt_draft : String → UiState → UiState
set_prompt_draft draft s = record s { prompt_draft = draft }

unfoldable pub reset_identity_state : UiState → UiState
reset_identity_state s = record s {
  active_session_id = none;
  hovered_session_id = none;
  prompt_draft = "";
}
