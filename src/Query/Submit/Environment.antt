-- ===== src/Query/Submit/Environment.antt =====
-- What may happen to the hook while a request is under way: a session is deleted or its deletion is
-- rolled back, the page takes back the messages that it shows, the component is unmounted, another
-- identity takes over, for which the deletion lifecycle is reset.
use query_craft.Common.{
  ℕ, String, Bool, false, List, [], ◌∷◌, Option, none, some, if◌then◌else◌, str_eq, ◌==◌,
}
use query_craft.Request.Scope.{Scope, caller, fire_abort, dispose}
use query_craft.Session.Deletion
use query_craft.Query.Submit.State.{Hook, clear_states, reset_error}

abbrev is_session : Option (Option String) → String → Bool
is_session (some (some active)) sid = str_eq active sid
is_session a sid = false

-- The hook's listener of session deletions.
unfoldable pub on_deletion : String → Hook → Hook
on_deletion sid s =
    if is_session s.active sid then record s { scope = fire_abort caller s.scope } else s

-- The calls of listeners that are the hook's own.
unfoldable pub deliver : List (ℕ × String) → Hook → Hook
deliver [] s = s
deliver ((l, sid) ∷ calls) s = deliver calls (if l == s.listener then on_deletion sid s else s)

unfoldable pub delete_session : String → Hook → Hook
unfolding deliver
delete_session sid s =
    let (l, calls) = Deletion.begin_deletion sid s.lifecycle in
    deliver calls (record s { lifecycle = l })

abbrev close_active : Option (Option String) → Scope → Scope
close_active none scope = scope
close_active (some session) scope = dispose (fire_abort caller scope)

-- The clean-up of the two effects.
unfoldable pub unmount : Hook → Hook
unmount s = record s {
  mounted = false;
  scope = close_active s.active s.scope;
  active = none;
  lifecycle = Deletion.unsubscribe s.listener s.lifecycle;
}

pub data Event : Type 0 where
  deletes rolls_back : String → Event
  unmounts resets resets_error identity_changes : Event

unfoldable pub happen : Hook → Event → Hook
happen s (deletes sid) = delete_session sid s
happen s (rolls_back sid) = record s { lifecycle = Deletion.rollback sid s.lifecycle }
happen s unmounts = unmount s
happen s resets = clear_states s
happen s resets_error = reset_error s
happen s identity_changes = record s { lifecycle = Deletion.reset s.lifecycle }

unfoldable pub pass : Hook → List Event → Hook
pass s [] = s
pass s (e ∷ es) = pass (happen s e) es
