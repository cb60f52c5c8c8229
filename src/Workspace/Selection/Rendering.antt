-- ===== src/Workspace/Selection/Rendering.antt =====
-- What the effects of frontend/src/hooks/useConnectionSelection.ts do on a render.
use query_craft.Common.{
  ◌≡◌, refl, ap, String, Bool, true, false, not, ◌&&◌, ◌∙◌, ◌⊎◌, inl, inr, Option, none, some,
  arith, str_eq_self, eq_iff, if◌then◌else◌,
}
use query_craft.Workspace.Page.{same_id}
use query_craft.Workspace.Selection.{Selection, sync_effect, auto_select_effect, only}

-- What is rendered is what is selected and what was last compared, between two events.
pub record IsStable (s : Selection) : Type 0 where
  pub shown : s.selected ≡ s.next
  pub compared : s.prev_selected ≡ s.next

pub same_id_refl : (o : Option String) → same_id o o ≡ true
same_id_refl none = refl
same_id_refl (some s) = str_eq_self s

pub same_id-eq : (o p : Option String) → same_id o p ≡ true → o ≡ p
same_id-eq none none h = refl
same_id-eq none (some s) h = cc
same_id-eq (some s) none h = cc
same_id-eq (some s) (some t) h = ap some ((eq_iff s t).0 h)

-- What the first two effects may do: select a connection, with the next request skipped.
abbrev pub IsSkipped : Selection → Selection → Type 0
IsSkipped s t =
    ((t.next ≡ s.next) × (t.skip_next_patch ≡ s.skip_next_patch))
    ⊎ ((t.skip_next_patch ≡ true) × (same_id t.next none ≡ false))

pub record IsPrepared (s t : Selection) : Type 0 where
  pub same_shown : t.selected ≡ s.selected
  pub same_compared : t.prev_selected ≡ s.prev_selected
  pub same_sent : t.patches ≡ s.patches
  pub same_chosen : t.user_selected ≡ s.user_selected
  pub skips : IsSkipped s t

IsPrepared-refl : (s : Selection) → IsPrepared s s
IsPrepared-refl s = record {
  same_shown = refl;
  same_compared = refl;
  same_sent = refl;
  same_chosen = refl;
  skips = inl (refl, refl);
}

IsPrepared-trans : (s t u : Selection) → IsPrepared s t → IsPrepared t u → IsPrepared s u
IsPrepared-trans s t u p q = record {
  same_shown = q.same_shown ∙ p.same_shown;
  same_compared = q.same_compared ∙ p.same_compared;
  same_sent = q.same_sent ∙ p.same_sent;
  same_chosen = q.same_chosen ∙ p.same_chosen;
  skips = skips p.skips q.skips;
}
  where
    skips : IsSkipped s t → IsSkipped t u → IsSkipped s u
    skips h (inr k) = inr k
    skips (inl h) (inl k) = inl (k.0 ∙ h.0, k.1 ∙ h.1)
    skips (inr h) (inl k) = inr (k.1 ∙ h.0, ap (λ o. same_id o none) k.0 ∙ h.1)

if-IsPrepared :
    (b : Bool) (s t : Selection) → (b ≡ true → IsPrepared s t) → IsPrepared s (if b then t else s)
if-IsPrepared true s t h = h refl
if-IsPrepared false s t h = IsPrepared-refl s

sync-IsPrepared : (s : Selection) → IsPrepared s (sync_effect s)
unfolding sync_effect
sync-IsPrepared s =
    if-IsPrepared
      (not s.user_selected
        && not (same_id s.initial_connection_id none)
        && not (same_id s.next s.initial_connection_id))
      s (record s { skip_next_patch = true; next = s.initial_connection_id })
      λ e. record {
        same_shown = refl;
        same_compared = refl;
        same_sent = refl;
        same_chosen = refl;
        skips = inr (refl, ground (arith, e));
      }

auto-IsPrepared : (s : Selection) → IsPrepared s (auto_select_effect s)
unfolding auto_select_effect
auto-IsPrepared s =
    if-IsPrepared
      (not s.user_selected && same_id s.selected none && same_id s.initial_connection_id none) s _
      λ e. by_only (only s.available)
  where
    by_only :
        (o : Option String)
        → IsPrepared s
            (elim o [ none ↦ s | some id ↦ record s { skip_next_patch = true; next = some id } ])
    by_only none = IsPrepared-refl s
    by_only (some id) = record {
      same_shown = refl;
      same_compared = refl;
      same_sent = refl;
      same_chosen = refl;
      skips = inr (refl, refl);
    }

pub prepared :
    (b : Bool) (s : Selection) → IsPrepared s (auto_select_effect (if b then sync_effect s else s))
prepared b s =
    IsPrepared-trans s (if b then sync_effect s else s)
      (auto_select_effect (if b then sync_effect s else s))
      (if-IsPrepared b s (sync_effect s) λ e. sync-IsPrepared s)
      (auto-IsPrepared (if b then sync_effect s else s))
