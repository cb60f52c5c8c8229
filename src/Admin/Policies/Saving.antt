-- ===== src/Admin/Policies/Saving.antt =====
-- What the editor saves: one policy for each connection, each with what the form demands.
use query_craft.Common.{
  ℕ, zero, suc, ◌+◌, ◌<◌, ◌≡◌, String, Bool, true, false, not, List, [], ◌∷◌, ◌++◌, Option, none,
  some, if◌then◌else◌, str_eq, eq_iff, arith, refl, ap, sym, subst, any, set, remove_at, All,
  All-append, All-set, All-remove_at, keep-All,
}
use query_craft.Admin.Policies.Page.{
  shows_form, edit, Event, adds, edits, deletes, changes, saves, cancels, in_form, act, is_offered,
  step, run,
}
use query_craft.Admin.Policies.{
  Policy, Editor, has_filter_error, has_validation_errors, is_nonempty, is_kept_mask, duplicates,
  save_error, policy_to_save, next_policies, save_policy, save_active, update, add_click,
  edit_click, delete_click,
}

abbrev pub Differs : Policy → Policy → Type 0
Differs p q = str_eq q.connection_id p.connection_id ≡ false

-- No connection has two policies.
abbrev pub Distinct : List Policy → Type 0
Distinct [] = Unit
Distinct (p ∷ ps) = All (Differs p) ps × Distinct ps

-- A policy names its connection and a table, each table has a column, each row filter a table and a
-- condition, and each mask a table and a column.
pub record IsComplete (p : Policy) : Type 0 where
  pub connected : str_eq p.connection_id "" ≡ false
  pub tabled : is_nonempty p.allowed_tables ≡ true
  pub columned : any (λ t. not (is_nonempty t.columns)) p.allowed_tables ≡ false
  pub filtered : any has_filter_error p.row_filters ≡ false
  pub masked : All (λ m. is_kept_mask m ≡ true) p.column_masks

pub record IsValid (s : Editor) : Type 0 where
  pub distinct : Distinct s.policies
  pub complete : All IsComplete s.policies

fresh-append :
    (ps : List Policy) (p : Policy)
    → All (λ q. str_eq q.connection_id p.connection_id ≡ false) ps
    → Distinct ps
    → Distinct (ps ++ p ∷ [])
fresh-append [] p f d = (tt, tt)
fresh-append (q ∷ ps) p f d = (
  All-append (Differs q) ps (p ∷ []) d.0 (
    ground (
      arith,
      f.0,
      eq_iff p.connection_id q.connection_id,
      eq_iff q.connection_id p.connection_id,
    ),
    tt,
  ),
  fresh-append ps p f.1 d.1,
)

duplicates-none :
    (id : String) (i : ℕ) (ps : List Policy)
    → duplicates id none i ps ≡ false
    → All (λ q. str_eq q.connection_id id ≡ false) ps
duplicates-none id i [] h = tt
duplicates-none id i (p ∷ ps) h = (ground arith, duplicates-none id (suc i) ps (ground arith))

duplicates-after :
    (id : String) (e i : ℕ) (ps : List Policy)
    → e < i
    → duplicates id (some e) i ps ≡ false
    → All (λ q. str_eq q.connection_id id ≡ false) ps
duplicates-after id e i [] l h = tt
duplicates-after id e i (p ∷ ps) l h =
    (ground arith, duplicates-after id e (suc i) ps (omega arith) (ground arith))

set-Distinct :
    (e i k : ℕ) (ps : List Policy) (p : Policy)
    → e ≡ k + i
    → duplicates p.connection_id (some e) i ps ≡ false
    → Distinct ps
    → Distinct (set ps k p)
set-Distinct e i k [] p w h d = tt
set-Distinct e i zero (q ∷ ps) p w h d =
    (duplicates-after p.connection_id e (suc i) ps (omega arith) (ground arith), d.1)
set-Distinct e i (suc k) (q ∷ ps) p w h d = (
  All-set (Differs q) ps k p d.0 (
      ground
        (arith, eq_iff p.connection_id q.connection_id, eq_iff q.connection_id p.connection_id)),
  set-Distinct e (suc i) k ps p (omega arith) (ground arith) d.1,
)

next_policies-Distinct :
    (e : Option ℕ) (ps : List Policy) (p : Policy)
    → duplicates p.connection_id e 0 ps ≡ false
    → Distinct ps
    → Distinct (next_policies p e ps)
next_policies-Distinct none ps p h d = fresh-append ps p (duplicates-none p.connection_id 0 ps h) d
next_policies-Distinct (some i) ps p h d = set-Distinct i 0 i ps p (omega arith) h d

next_policies-All :
    (e : Option ℕ) (ps : List Policy) (p : Policy)
    → IsComplete p
    → All IsComplete ps
    → All IsComplete (next_policies p e ps)
next_policies-All none ps p c h = All-append IsComplete ps (p ∷ []) h (c, tt)
next_policies-All (some i) ps p c h = All-set IsComplete ps i p h c

-- What the absence of a message says of the policy.
accepted :
    (p : Policy) (s : Editor)
    → save_error p s ≡ none
    → IsComplete (policy_to_save p)
      × (duplicates p.connection_id s.editing_index 0 s.policies ≡ false)
unfolding save_error has_validation_errors
accepted p s h = (
  record {
    connected = ground arith;
    tabled = ground arith;
    columned = ground arith;
    filtered = ground arith;
    masked = keep-All is_kept_mask p.column_masks;
  },
  ground arith,
)

pub save_policy-saves :
    (p : Policy) (s : Editor)
    → save_error p s ≡ none
    → save_policy p s ≡ record s {
      policies = next_policies (policy_to_save p) s.editing_index s.policies;
      is_adding = false;
      active_policy = none;
    }
unfolding save_policy
save_policy-saves p s h = ground (arith, h)

save_policy-refuses :
    (p : Policy) (s : Editor) (message : String)
    → save_error p s ≡ some message
    → save_policy p s ≡ record s { alerts = message ∷ s.alerts }
unfolding save_policy
save_policy-refuses p s message h = ground (arith, h)

save_policy-IsValid : (p : Policy) (s : Editor) → IsValid s → IsValid (save_policy p s)
save_policy-IsValid p s v = by_error (save_error p s) refl
  where
    by_error : (e : Option String) → save_error p s ≡ e → IsValid (save_policy p s)
    by_error none h = subst IsValid (sym (save_policy-saves p s h)) (record {
      distinct =
          next_policies-Distinct s.editing_index s.policies (policy_to_save p) (accepted p s h).1
            v.distinct;
      complete =
          next_policies-All s.editing_index s.policies (policy_to_save p) (accepted p s h).0
            v.complete;
    })
    by_error (some message) h =
        subst IsValid (sym (save_policy-refuses p s message h))
          (record { distinct = v.distinct; complete = v.complete })

remove_at-Distinct : (ps : List Policy) (i : ℕ) → Distinct ps → Distinct (remove_at ps i)
remove_at-Distinct [] i d = tt
remove_at-Distinct (p ∷ ps) zero d = d.1
remove_at-Distinct (p ∷ ps) (suc i) d =
    (All-remove_at (Differs p) ps i d.0, remove_at-Distinct ps i d.1)

save_active-IsValid : (s : Editor) → IsValid s → IsValid (save_active s)
unfolding save_active
save_active-IsValid s v = by_active s.active_policy refl
  where
    by_active : (a : Option Policy) → s.active_policy ≡ a → IsValid (save_active s)
    by_active none h =
        subst IsValid (sym (ap (λ o. elim o [ none ↦ s | some p ↦ save_policy p s ]) h)) v
    by_active (some p) h =
        subst IsValid (sym (ap (λ o. elim o [ none ↦ s | some p ↦ save_policy p s ]) h))
          (save_policy-IsValid p s v)

update-policies : (f : Policy → Policy) (s : Editor) → (update f s).policies ≡ s.policies
unfolding update
update-policies f s = ground arith

edit_click-policies : (i : ℕ) (s : Editor) → (edit_click i s).policies ≡ s.policies
unfolding edit_click
edit_click-policies i s = ground arith

same-IsValid : (s t : Editor) → t.policies ≡ s.policies → IsValid s → IsValid t
same-IsValid s t h v = record {
  distinct = subst Distinct (sym h) v.distinct;
  complete = subst (All IsComplete) (sym h) v.complete;
}

act-IsValid : (s : Editor) (e : Event) → IsValid s → IsValid (act s e)
unfolding add_click delete_click
act-IsValid s adds v = record { distinct = v.distinct; complete = v.complete }
act-IsValid s (edits i) v = same-IsValid s (edit_click i s) (edit_click-policies i s) v
act-IsValid s (deletes i) v = record {
  distinct = remove_at-Distinct s.policies i v.distinct;
  complete = All-remove_at IsComplete s.policies i v.complete;
}
act-IsValid s (changes e) v =
    same-IsValid s (update (edit s.editing_index e) s) (update-policies (edit s.editing_index e) s)
      v
act-IsValid s saves v = save_active-IsValid s v
act-IsValid s cancels v = record { distinct = v.distinct; complete = v.complete }

if-IsValid : (b : Bool) (s t : Editor) → IsValid s → IsValid t → IsValid (if b then s else t)
if-IsValid true s t v w = v
if-IsValid false s t v w = w

step-IsValid : (s : Editor) (e : Event) → IsValid s → IsValid (step s e)
unfolding step
step-IsValid s e v =
    if-IsValid (is_offered (shows_form s) (in_form e)) (act s e) s (act-IsValid s e v) v

-- Whatever the user does with the editor, from policies that are distinct and complete: no two
-- policies are for the same connection, and every policy names a connection, a table and a column of
-- each table, has no row filter without a table or a condition, and no empty column mask.
pub run-IsValid : (s : Editor) (es : List Event) → IsValid s → IsValid (run s es)
unfolding run
run-IsValid s [] v = v
run-IsValid s (e ∷ es) v = run-IsValid (step s e) es (step-IsValid s e v)
