-- ===== src/Workspace/Selection/Laws.antt =====
-- When a choice of frontend/src/hooks/useConnectionSelection.ts is sent to the server.
use query_craft.Common.{
  ◌≡◌, refl, ap, sym, subst, String, Bool, true, false, not, ◌&&◌, ◌++◌, ◌∙◌, ◌⊎◌, inl, inr,
  Bool-cases, List, [], ◌∷◌, Option, none, some, arith, if◌then◌else◌,
}
use query_craft.Workspace.Page.{same_id, is_set}
use query_craft.Workspace.Selection.{
  Selection, Arguments, Event, given, chosen, auto_select_effect, patch_effect, effects, render,
  rerender, mounted, mutate, patch_selected, step, mount, run,
}
use query_craft.Workspace.Selection.{set_selected_connection_id, with_arguments}
use query_craft.Workspace.Selection.Settled.{render-IsSettled}
use query_craft.Workspace.Selection.Rendering.{IsStable, same_id_refl, same_id-eq}

auto-chosen : (s : Selection) → s.user_selected ≡ true → auto_select_effect s ≡ s
unfolding auto_select_effect
auto-chosen s h = ground (arith, h)

-- What an event may send: nothing, or the connection that the user has just chosen, for the session.
abbrev pub IsSent : Selection → Event → Selection → Type 0
IsSent s e t =
    (t.patches ≡ s.patches)
    ⊎ ((session : String) × (connection : String) × (e ≡ chosen (some connection))
        × (s.session_id ≡ some session)
        × (s.can_submit ≡ true)
        × (t.patches ≡ s.patches ++ (session, connection) ∷ []))

-- The choice, as the effect that sends it finds it.
abbrev pub chosen_state : Option String → Selection → Selection
chosen_state id s = rerender (set_selected_connection_id id s)

-- The effect after a choice: the state is compared, and the choice sent unless a request is skipped.
record IsChosen (s : Selection) (id : Option String) (t : Selection) : Type 0 where
  is_shown : t.selected ≡ id
  is_next : t.next ≡ id
  is_compared : t.prev_selected ≡ id
  is_sent : IsSent s (chosen id) t

patch_selected-IsChosen :
    (id : Option String) (s : Selection)
    → IsChosen s id (patch_selected id (record (chosen_state id s) { prev_selected = id }))
unfolding set_selected_connection_id
patch_selected-IsChosen none s = record {
  is_shown = refl;
  is_next = refl;
  is_compared = refl;
  is_sent = inl refl;
}
patch_selected-IsChosen (some c) s = by_skip s.skip_next_patch
  where
    t : Selection
    t = record (chosen_state (some c) s) { prev_selected = some c }

    sent : (o : Option String) → o ≡ s.session_id → IsChosen s (some c) (mutate o c t)
    sent none e = record { is_shown = refl; is_next = refl; is_compared = refl; is_sent = inl refl }
    sent (some session) e = by_permission s.can_submit refl
      where
        by_permission :
            (b : Bool)
            → s.can_submit ≡ b
            → IsChosen s
                (some c)
                (if b then record t { patches = t.patches ++ (session, c) ∷ [] } else t)
        by_permission true k = record {
          is_shown = refl;
          is_next = refl;
          is_compared = refl;
          is_sent = inr (session, c, refl, sym e, k, refl);
        }
        by_permission false k = record {
          is_shown = refl;
          is_next = refl;
          is_compared = refl;
          is_sent = inl refl;
        }

    by_skip :
        (b : Bool)
        → IsChosen s
            (some c)
            (if b then record t { skip_next_patch = false } else mutate s.session_id c t)
    by_skip true = record {
      is_shown = refl;
      is_next = refl;
      is_compared = refl;
      is_sent = inl refl;
    }
    by_skip false = sent s.session_id refl

patch-IsChosen :
    (id : Option String) (s : Selection)
    → IsStable s
    → same_id s.selected id ≡ false
    → IsChosen s id (patch_effect (chosen_state id s))
unfolding patch_effect set_selected_connection_id
patch-IsChosen id s h d = elim (Bool-cases (is_set s.session_id && is_set id)) [
  | inl j ↦ rw (patch_effect, compared, j) (patch_selected-IsChosen id s)
  | inr j ↦
      rw (patch_effect, compared, j)
        (record { is_shown = refl; is_next = refl; is_compared = refl; is_sent = inl refl })
]
  where
    compared : same_id s.prev_selected id ≡ false
    compared = subst (λ o. same_id o id ≡ false) (h.shown ∙ sym h.compared) d

pub render-chosen :
    (s : Selection) (id : Option String)
    → IsStable s
    → same_id s.selected id ≡ false
    → render false (chosen_state id s) ≡ patch_effect (chosen_state id s)
unfolding render effects set_selected_connection_id
render-chosen s id h d =
    subst
      (λ t.
        (if same_id t.selected t.next then t else effects false (rerender t))
        ≡ patch_effect (chosen_state id s))
      (sym (ap patch_effect (auto-chosen (chosen_state id s) chosen_flag))) (rw settled refl)
  where
    w : IsChosen s id (patch_effect (chosen_state id s))
    w = patch-IsChosen id s h d

    chosen_flag : (chosen_state id s).user_selected ≡ true
    chosen_flag = refl

    settled :
        same_id (patch_effect (chosen_state id s)).selected (patch_effect (chosen_state id s)).next
        ≡ true
    settled =
        subst (λ o. same_id (patch_effect (chosen_state id s)).selected o ≡ true)
          (w.is_shown ∙ sym w.is_next) (same_id_refl (patch_effect (chosen_state id s)).selected)

kept :
    (s : Selection) (id : Option String)
    → IsStable s
    → s.selected ≡ id
    → IsStable (set_selected_connection_id id s)
      × IsSent s (chosen id) (set_selected_connection_id id s)
unfolding set_selected_connection_id
kept s id h e = (record { shown = e; compared = h.compared ∙ sym h.shown ∙ e }, inl refl)

-- An event leaves the hook with what it shows selected and compared, and sends nothing, unless it is
-- the user's choice, which alone is sent, for the session and with the permission to submit.
pub step-IsStable :
    (s : Selection) (e : Event) → IsStable s → IsStable (step s e) × IsSent s e (step s e)
unfolding step with_arguments
step-IsStable s (given a) h =
    let r =
      render-IsSettled (not (same_id s.initial_connection_id a.initial_connection_id))
        (with_arguments a s) (record { shown = h.shown; compared = h.compared }) in
    (r.stable, inl r.sent)
step-IsStable s (chosen id) h = elim (Bool-cases (same_id s.selected id)) [
  | inl e ↦ rw (step, e) (kept s id h (same_id-eq s.selected id e))
  | inr e ↦
      rw (step, e)
        (subst (λ t. IsStable t × IsSent s (chosen id) t) (sym (render-chosen s id h e))
          (sent (patch_effect (chosen_state id s)) (patch-IsChosen id s h e)))
]
  where
    sent : (t : Selection) → IsChosen s id t → IsStable t × IsSent s (chosen id) t
    sent t w = (
      record { shown = w.is_shown ∙ sym w.is_next; compared = w.is_compared ∙ sym w.is_next },
      w.is_sent,
    )

pub run-IsStable : (s : Selection) (es : List Event) → IsStable s → IsStable (run s es)
unfolding run
run-IsStable s [] h = h
run-IsStable s (e ∷ es) h = run-IsStable (step s e) es (step-IsStable s e h).0

-- After its first render, and whatever events follow, the hook shows what is selected and has compared
-- it: there is no further render, and no choice left to send.
pub run-mount-IsStable : (a : Arguments) (es : List Event) → IsStable (run (mount a) es)
unfolding mount
run-mount-IsStable a es =
    run-IsStable (mount a) es
      (render-IsSettled true (mounted a) (record { shown = refl; compared = refl })).stable
