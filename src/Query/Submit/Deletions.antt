-- ===== src/Query/Submit/Deletions.antt =====
-- Which request a session deletion aborts.
use query_craft.Common.{
  ℕ, ◌≡◌, ◌==◌, refl, Bool, true, false, String, List, [], ◌∷◌, map, none, some, arith, any, str_eq,
  str_eq_self, eq_iff, if◌then◌else◌, sym, ◌∙◌, ap,
}
use query_craft.Request.Scope.{fire_abort}
use query_craft.Session.Deletion.{Lifecycle, is_unavailable, begin_deletion}
use query_craft.Session.Deletion.Laws.{begin-calls}
use query_craft.Query.Submit.State.{Hook}
use query_craft.Query.Submit.Environment.{on_deletion, deliver, delete_session}

on_deletion-aborted :
    (sid : String) (s : Hook) → s.scope.aborted ≡ true → (on_deletion sid s).scope.aborted ≡ true
unfolding on_deletion fire_abort
on_deletion-aborted sid s h = ground arith

deliver-aborted :
    (calls : List (ℕ × String)) (s : Hook)
    → s.scope.aborted ≡ true
    → (deliver calls s).scope.aborted ≡ true
unfolding deliver
deliver-aborted [] s h = h
deliver-aborted ((l, sid) ∷ calls) s h =
    deliver-aborted calls (if l == s.listener then on_deletion sid s else s)
      (ground (arith, on_deletion-aborted sid s h))

on_deletion-own :
    (s : Hook) (sid : String)
    → s.active ≡ some (some sid)
    → s.scope.reason ≡ none
    → (on_deletion sid s).scope.aborted ≡ true
unfolding on_deletion fire_abort
on_deletion-own s sid a r = ground (arith, str_eq_self sid)

on_deletion-other :
    (s : Hook) (sid other : String)
    → s.active ≡ some (some other)
    → str_eq other sid ≡ false
    → on_deletion sid s ≡ s
unfolding on_deletion
on_deletion-other s sid other a d = ground (arith, d)

deliver-other :
    (s : Hook) (sid other : String) (ls : List ℕ)
    → s.active ≡ some (some other)
    → str_eq other sid ≡ false
    → deliver (map (λ l. (l, sid)) ls) s ≡ s
unfolding deliver
deliver-other s sid other [] a d = refl
deliver-other s sid other (l ∷ ls) a d =
    ap (deliver (map (λ k. (k, sid)) ls)) (ground (arith, on_deletion-other s sid other a d))
    ∙ deliver-other s sid other ls a d

deliver-own :
    (s : Hook) (sid : String) (ls : List ℕ)
    → s.active ≡ some (some sid)
    → s.scope.reason ≡ none
    → any (λ k. k == s.listener) ls ≡ true
    → (deliver (map (λ l. (l, sid)) ls) s).scope.aborted ≡ true
unfolding deliver
deliver-own s sid [] a r m = ground arith
deliver-own s sid (l ∷ ls) a r m = by_listener (l == s.listener) refl (deliver-own s sid ls a r)
  where
    by_listener :
        (b : Bool)
        → (l == s.listener) ≡ b
        → (any (λ k. k == s.listener) ls ≡ true
            → (deliver (map (λ k. (k, sid)) ls) s).scope.aborted ≡ true)
        → (deliver
            (map (λ k. (k, sid)) ls)
            (if l == s.listener then on_deletion sid s else s)).scope.aborted
          ≡ true
    by_listener true h later =
        deliver-aborted (map (λ k. (k, sid)) ls) _ (ground (arith, h, on_deletion-own s sid a r))
    by_listener false h later =
        ap (λ t. (deliver (map (λ k. (k, sid)) ls) t).scope.aborted) (ground (arith, h))
        ∙ later (ground (arith, h))

begin-listeners :
    (s : Lifecycle) (sid : String)
    → is_unavailable sid s ≡ false
    → (begin_deletion sid s).1 ≡ map (λ l. (l, sid)) s.listeners
begin-listeners s sid h = begin-calls s sid ∙ ground (arith, h)

-- The deletion of an available session aborts the request that is under way, which nothing has
-- aborted yet, exactly if it is of that session, provided that the hook's listener is subscribed.
pub delete_session-aborts :
    (s : Hook) (sid other : String)
    → s.active ≡ some (some other)
    → s.scope.aborted ≡ false
    → s.scope.reason ≡ none
    → any (λ k. k == s.listener) s.lifecycle.listeners ≡ true
    → is_unavailable sid s.lifecycle ≡ false
    → (delete_session sid s).scope.aborted ≡ str_eq other sid
unfolding delete_session
delete_session-aborts s sid other a live r m free =
    ap (λ calls. (deliver calls t).scope.aborted) (begin-listeners s.lifecycle sid free)
    ∙ by_session (str_eq other sid) refl
  where
    t : Hook
    t = record s { lifecycle = (begin_deletion sid s.lifecycle).0 }

    by_session :
        (b : Bool)
        → str_eq other sid ≡ b
        → (deliver (map (λ l. (l, sid)) s.lifecycle.listeners) t).scope.aborted ≡ str_eq other sid
    by_session true h =
        deliver-own t sid s.lifecycle.listeners
          (a ∙ ap (λ x. some (some x)) ((eq_iff other sid).0 h)) r m
        ∙ sym h
    by_session false h =
        ap (λ u. u.scope.aborted) (deliver-other t sid other s.lifecycle.listeners a h)
        ∙ live
        ∙ sym h
