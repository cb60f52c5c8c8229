-- ===== src/Workspace/Selection/Settled.antt =====
-- Where a render of frontend/src/hooks/useConnectionSelection.ts ends.
use query_craft.Common.{
  ◌≡◌, refl, sym, subst, String, Bool, true, false, not, ◌&&◌, ◌∙◌, inl, inr, Bool-cases, List,
  Option, none, some, if◌then◌else◌,
}
use query_craft.Workspace.Page.{same_id, is_set}
use query_craft.Workspace.Selection.{
  Selection, sync_effect, auto_select_effect, patch_effect, effects, render, rerender, only, mutate,
  patch_selected,
}
use query_craft.Workspace.Selection.Rendering.{
  IsSkipped, IsPrepared, prepared, IsStable, same_id_refl, same_id-eq,
}

pub patch-same : (s : Selection) → same_id s.prev_selected s.selected ≡ true → patch_effect s ≡ s
unfolding patch_effect
patch-same s h = rw (patch_effect, h) refl

-- Nothing was sent, and nothing is left to do.
pub record IsSettled (patches : List (String × String)) (user : Bool) (t : Selection) : Type 0 where
  pub stable : IsStable t
  pub sent : t.patches ≡ patches
  pub chosen_as : t.user_selected ≡ user

pub auto-same : (s : Selection) → same_id s.selected none ≡ false → auto_select_effect s ≡ s
unfolding auto_select_effect
auto-same s h = by_test s.user_selected
  where
    by_test :
        (b : Bool)
        → (if not b && same_id s.selected none && same_id s.initial_connection_id none
            then elim (only s.available) [
              | none ↦ s
              | some id ↦ record s { skip_next_patch = true; next = some id }
            ]
            else s)
          ≡ s
    by_test true = refl
    by_test false = rw h refl

patch_selected-skips :
    (o : Option String) (s : Selection)
    → s.skip_next_patch ≡ true
    → s.selected ≡ s.next
    → s.prev_selected ≡ s.next
    → IsSettled s.patches s.user_selected (patch_selected o s)
patch_selected-skips none s k e c = record {
  stable = record { shown = e; compared = c };
  sent = refl;
  chosen_as = refl;
}
patch_selected-skips (some id) s k e c =
    subst
      (λ b.
        IsSettled s.patches s.user_selected
          (if b then record s { skip_next_patch = false } else mutate s.session_id id s))
      (sym k)
      (record { stable = record { shown = e; compared = c }; sent = refl; chosen_as = refl })

pub patch-skips :
    (s : Selection)
    → s.skip_next_patch ≡ true
    → s.selected ≡ s.next
    → IsSettled s.patches s.user_selected (patch_effect s)
unfolding patch_effect
patch-skips s k e = elim (Bool-cases (same_id s.prev_selected s.selected)) [
  | inl h ↦
      rw (patch_effect, h)
        (record {
          stable = record { shown = e; compared = same_id-eq s.prev_selected s.selected h ∙ e };
          sent = refl;
          chosen_as = refl;
        })
  | inr h ↦ elim (Bool-cases (is_set s.session_id && is_set s.selected)) [
    | inl j ↦ rw (patch_effect, h, j) (patch_selected-skips s.selected _ k e e)
    | inr j ↦
        rw (patch_effect, h, j)
          (record { stable = record { shown = e; compared = e }; sent = refl; chosen_as = refl })
  ]
]

-- The run of the effects after a connection was selected.
second-IsSettled :
    (t : Selection)
    → t.skip_next_patch ≡ true
    → same_id t.next none ≡ false
    → IsSettled t.patches t.user_selected (effects false (rerender t))
unfolding effects
second-IsSettled t k n =
    subst (λ s. IsSettled t.patches t.user_selected (patch_effect s))
      (sym (auto-same (rerender t) n)) (patch-skips (rerender t) k refl)

pub true_not_false : ¬ (true ≡ false)
true_not_false h = cc

render_first :
    (s t : Selection)
    → IsStable s
    → IsPrepared s t
    → IsSettled s.patches s.user_selected
        (if same_id t.selected t.next then t else effects false (rerender t))
render_first s t h p = by_test (same_id t.selected t.next) refl
  where
    moved :
        same_id t.selected t.next ≡ false
        → IsSkipped s t
        → IsSettled s.patches s.user_selected (effects false (rerender t))
    moved e (inl k) = absurd (
        true_not_false (
          sym (
            subst (λ o. same_id t.selected o ≡ true) (p.same_shown ∙ h.shown ∙ sym k.0)
              (same_id_refl t.selected))
          ∙ e))
    moved e (inr k) =
        let w = second-IsSettled t k.0 k.1 in
        record {
          stable = w.stable;
          sent = w.sent ∙ p.same_sent;
          chosen_as = w.chosen_as ∙ p.same_chosen;
        }

    by_test :
        (b : Bool)
        → same_id t.selected t.next ≡ b
        → IsSettled s.patches s.user_selected (if b then t else effects false (rerender t))
    by_test true e = record {
      stable = record {
        shown = same_id-eq t.selected t.next e;
        compared =
            p.same_compared
            ∙ h.compared
            ∙ sym h.shown
            ∙ sym p.same_shown
            ∙ same_id-eq t.selected t.next e;
      };
      sent = p.same_sent;
      chosen_as = p.same_chosen;
    }
    by_test false e = moved e p.skips

-- A render from a stable state ends in one, and sends nothing.
pub render-IsSettled :
    (b : Bool) (s : Selection) → IsStable s → IsSettled s.patches s.user_selected (render b s)
unfolding render effects
render-IsSettled b s h =
    subst
      (λ t.
        IsSettled s.patches s.user_selected
          (if same_id t.selected t.next then t else effects false (rerender t)))
      (sym (patch-same first same)) (render_first s first h p)
  where
    first : Selection
    first = auto_select_effect (if b then sync_effect s else s)

    p : IsPrepared s first
    p = prepared b s

    same : same_id first.prev_selected first.selected ≡ true
    same =
        subst (λ o. same_id first.prev_selected o ≡ true)
          (p.same_compared ∙ h.compared ∙ sym h.shown ∙ sym p.same_shown)
          (same_id_refl first.prev_selected)
