-- ===== src/Admin/Policies/Places.antt =====
-- Where a saved policy stands.
use query_craft.Common.{
  ◌==◌, length, ltb, get_elem?, ℕ, zero, suc, ◌≡◌, Bool, true, false, List, [], ◌∷◌, ◌++◌, Option,
  none, some, if◌then◌else◌, arith, refl, ap, ◌∙◌, set,
}
use query_craft.Admin.Policies.Page.{shows_form}
use query_craft.Admin.Policies.{
  Policy, Editor, save_error, policy_to_save, next_policies, save_policy, save_active,
}
use query_craft.Admin.Policies.Saving.{save_policy-saves}

save_active-saves :
    (s : Editor) (p : Policy) → s.active_policy ≡ some p → save_active s ≡ save_policy p s
unfolding save_active
save_active-saves s p a = ground (arith, a)

get-append :
    (ps : List Policy) (p : Policy) (k : ℕ)
    → get_elem? (ps ++ p ∷ []) k ≡ (if k == length ps then some p else get_elem? ps k)
get-append [] p zero = refl
get-append [] p (suc k) = ground arith
get-append (q ∷ ps) p zero = ground arith
get-append (q ∷ ps) p (suc k) = ground (arith, get-append ps p k)

get-set :
    (ps : List Policy) (i : ℕ) (p : Policy) (k : ℕ)
    → ltb i (length ps) ≡ true
    → get_elem? (set ps i p) k ≡ (if k == i then some p else get_elem? ps k)
get-set [] i p k h = ground (arith, h)
get-set (q ∷ ps) zero p zero h = refl
get-set (q ∷ ps) zero p (suc k) h = ground arith
get-set (q ∷ ps) (suc i) p zero h = ground arith
get-set (q ∷ ps) (suc i) p (suc k) h = ground (arith, get-set ps i p k)

-- The place of the policy that is edited, or of a new one behind the others.
abbrev pub place : Option ℕ → List Policy → ℕ
place none ps = length ps
place (some i) ps = i

abbrev pub is_place : Option ℕ → List Policy → Bool
is_place none ps = true
is_place (some i) ps = ltb i (length ps)

next_policies-get :
    (e : Option ℕ) (ps : List Policy) (p : Policy) (k : ℕ)
    → is_place e ps ≡ true
    → get_elem? (next_policies p e ps) k ≡ (if k == place e ps then some p else get_elem? ps k)
next_policies-get none ps p k h = get-append ps p k
next_policies-get (some i) ps p k h = get-set ps i p k h

-- Saving a policy that the form accepts closes the form and puts the policy, with its empty masks left
-- out, at the place that was edited, which is one of the list, or behind the others if it is new; at
-- every other place the list is as before.
pub save_active-accepted :
    (s : Editor) (p : Policy) (k : ℕ)
    → s.active_policy ≡ some p
    → save_error p s ≡ none
    → is_place s.editing_index s.policies ≡ true
    → (shows_form (save_active s) ≡ false)
      × (get_elem? (save_active s).policies k ≡ (
          if k == place s.editing_index s.policies
          then some (policy_to_save p)
          else get_elem? s.policies k))
save_active-accepted s p k a h i =
    let e = save_active-saves s p a ∙ save_policy-saves p s h in
    (
      ap shows_form e,
      ap (λ t. get_elem? t.policies k) e
          ∙ next_policies-get s.editing_index s.policies (policy_to_save p) k i,
    )
