-- ===== src/Workspace/Showing.antt =====
-- Which saved queries the conversation of frontend/src/pages/WorkspacePage.tsx shows.
use mathlib.Core.List.{reverse, reverse_aux}
use query_craft.Common.{
  ◌≡◌, refl, ap, sym, ◌∙◌, String, Bool, true, false, not, ◌&&◌, ◌||◌, List, [], ◌∷◌, ◌++◌, map,
  Option, none, some, arith, any, keep, contains, str_eq, eq_iff, Bool-cases, inl, inr,
}
use query_craft.Workspace.Turns.{
  RecoveryKind, Turn, Attempt, Connection, with_connection, build_history_turn,
}
use query_craft.Workspace.Page.{
  Page, Served, is_among, cons_some, saved_ids, local_saved_ids_with_active_attempt,
  history_attempts, deduped_local_turns, with_recovery, all_turns,
}
use query_craft.Workspace.Deleting.{has_saved_id}

module _ {ℓ} {A : Type ℓ} (p : A → Bool) where
  any-append : (xs ys : List A) → any p (xs ++ ys) ≡ (any p xs || any p ys)
  any-append [] ys = refl
  any-append (x ∷ xs) ys = ground (arith, any-append xs ys)

  any-keep : (q : A → Bool) (xs : List A) → any p (keep q xs) ≡ any (λ x. q x && p x) xs
  any-keep q [] = refl
  any-keep q (x ∷ xs) = ground (arith, any-keep q xs)

  any-map {κ} : {B : Type κ} (f : B → A) (xs : List B) → any p (map f xs) ≡ any (λ x. p (f x)) xs
  any-map f [] = refl
  any-map f (x ∷ xs) = ap (λ b. p (f x) || b) (any-map f xs)

  any-reverse_aux : (xs ys : List A) → any p (reverse_aux xs ys) ≡ (any p xs || any p ys)
  any-reverse_aux [] ys = refl
  any-reverse_aux (x ∷ xs) ys = ground (arith, any-reverse_aux xs (x ∷ ys))

  any-reverse : (xs : List A) → any p (reverse xs) ≡ any p xs
  any-reverse xs = ground (arith, any-reverse_aux xs [])

  any-and : (c : Bool) (xs : List A) → any (λ x. c && p x) xs ≡ (c && any p xs)
  any-and true xs = refl
  any-and false [] = refl
  any-and false (x ∷ xs) = any-and false xs

  any-keep_imp : (q : A → Bool) (xs : List A) → any p (keep q xs) ≡ true → any p xs ≡ true
  any-keep_imp q [] h = h
  any-keep_imp q (x ∷ xs) h = ground (arith, any-keep_imp q xs)

any-ext {ℓ} :
    {A : Type ℓ} (p q : A → Bool) → ((x : A) → p x ≡ q x) → (xs : List A) → any p xs ≡ any q xs
any-ext p q h [] = refl
any-ext p q h (x ∷ xs) = ground (arith, h x, any-ext p q h xs)

and_at : (f : String → Bool) (s t : String) → (f s && str_eq s t) ≡ (f t && str_eq s t)
and_at f s t = elim (Bool-cases (str_eq s t)) [
  | inl e ↦ ap (λ r. f r && str_eq s t) ((eq_iff s t).0 e)
  | inr e ↦ ground (arith, e)
]

saved-with_recovery :
    (recoveries : List (String × RecoveryKind)) (t : Turn)
    → (with_recovery recoveries t).saved_query_id ≡ t.saved_query_id
unfolding with_recovery
saved-with_recovery recoveries t = ground arith

saved-build_history_turn :
    (a : Attempt) (connections : List Connection)
    → (build_history_turn a connections).saved_query_id ≡ some a.id
unfolding build_history_turn with_connection
saved-build_history_turn a connections = ground arith

-- The conversation shows a saved query by an attempt of the history or by a turn of its own.
shown-by :
    (server : Served) (p : Page) (id : String)
    → any (has_saved_id id) (all_turns server p) ≡ (
        any (λ a. str_eq a.id id) (history_attempts server p)
        || any (has_saved_id id) (deduped_local_turns server p))
unfolding all_turns
shown-by server p id =
    any-map (has_saved_id id) (with_recovery p.saved_turn_recoveries) (history ++ own)
    ∙ any-ext _ (has_saved_id id) noted (history ++ own)
    ∙ any-append (has_saved_id id) history own
    ∙ ap (λ b. b || any (has_saved_id id) own)
        (any-map (has_saved_id id) turn (reverse (history_attempts server p))
          ∙ any-ext _ (λ a. str_eq a.id id) saved (reverse (history_attempts server p))
          ∙ any-reverse (λ a. str_eq a.id id) (history_attempts server p))
  where
    turn : Attempt → Turn
    turn a = build_history_turn a server.connections

    history : List Turn
    history = map turn (reverse (history_attempts server p))

    own : List Turn
    own = deduped_local_turns server p

    noted :
        (t : Turn) → has_saved_id id (with_recovery p.saved_turn_recoveries t) ≡ has_saved_id id t
    noted t = rw (has_saved_id, saved-with_recovery p.saved_turn_recoveries t) refl

    saved : (a : Attempt) → has_saved_id id (turn a) ≡ str_eq a.id id
    saved a = rw (has_saved_id, saved-build_history_turn a server.connections) refl

contains-cons_some :
    (id : String) (o : Option String) (ids : List String)
    → contains (cons_some o ids) id
      ≡ (elim o [ none ↦ false | some s ↦ str_eq s id ] || contains ids id)
contains-cons_some id none ids = refl
contains-cons_some id (some s) ids = refl

contains-saved_ids :
    (id : String) (ts : List Turn) → contains (saved_ids ts) id ≡ any (has_saved_id id) ts
contains-saved_ids id [] = refl
contains-saved_ids id (t ∷ ts) =
    contains-cons_some id t.saved_query_id (saved_ids ts)
    ∙ ap (λ b. has_saved_id id t || b) (contains-saved_ids id ts)

module _ (server : Served) (p : Page) (id : String) where
  history-shown : any (λ a. str_eq a.id id) (history_attempts server p) ≡ (
      (not (contains p.deleted_saved_ids id)
        && not (contains (local_saved_ids_with_active_attempt p) id))
      && any (λ a. str_eq a.id id) server.attempts)
  unfolding history_attempts
  history-shown =
      any-keep (λ a. str_eq a.id id) _ server.attempts
      ∙ any-ext _
          (λ a.
            (not (contains p.deleted_saved_ids id)
              && not (contains (local_saved_ids_with_active_attempt p) id))
            && str_eq a.id id)
          by_id server.attempts
      ∙ any-and (λ a. str_eq a.id id) _ server.attempts
    where
      by_id :
          (a : Attempt)
          → ((not (contains p.deleted_saved_ids a.id)
                && not (contains (local_saved_ids_with_active_attempt p) a.id))
              && str_eq a.id id)
            ≡ ((not (contains p.deleted_saved_ids id)
                  && not (contains (local_saved_ids_with_active_attempt p) id))
                && str_eq a.id id)
      by_id a =
          and_at
            (λ i.
              not (contains p.deleted_saved_ids i)
              && not (contains (local_saved_ids_with_active_attempt p) i))
            a.id id

  own-shown :
      str_eq id "" ≡ false
      → any (has_saved_id id) (deduped_local_turns server p) ≡ (
          (not (any (λ a. str_eq a.id id) (history_attempts server p))
            && not (contains p.deleted_saved_ids id))
          && any (has_saved_id id) p.local_turns)
  unfolding deduped_local_turns
  own-shown n =
      any-keep (has_saved_id id) _ p.local_turns
      ∙ any-ext _
          (λ t.
            (not (any (λ a. str_eq a.id id) (history_attempts server p))
              && not (contains p.deleted_saved_ids id))
            && has_saved_id id t)
          by_id p.local_turns
      ∙ any-and (has_saved_id id) _ p.local_turns
    where
      ids : List String
      ids = map (λ a. a.id) (history_attempts server p)

      at_id :
          (o : Option String)
          → ((not (is_among ids o) && not (is_among p.deleted_saved_ids o))
              && elim o [ none ↦ false | some s ↦ str_eq s id ])
            ≡ ((not (contains ids id) && not (contains p.deleted_saved_ids id))
                && elim o [ none ↦ false | some s ↦ str_eq s id ])
      at_id none = ground arith
      at_id (some s) = elim (Bool-cases (str_eq s id)) [
        | inl e ↦ rw ((eq_iff s id).0 e) (ground (arith, n))
        | inr e ↦ ground (arith, e)
      ]

      by_id :
          (t : Turn)
          → ((not (is_among ids t.saved_query_id)
                && not (is_among p.deleted_saved_ids t.saved_query_id))
              && has_saved_id id t)
            ≡ ((not (any (λ a. str_eq a.id id) (history_attempts server p))
                  && not (contains p.deleted_saved_ids id))
                && has_saved_id id t)
      by_id t =
          at_id t.saved_query_id
          ∙ ap (λ b. (not b && not (contains p.deleted_saved_ids id)) && has_saved_id id t)
              (any-map (λ x. str_eq x id) (λ (a : Attempt). a.id) (history_attempts server p))

  local-own :
      contains (local_saved_ids_with_active_attempt p) id ≡ true
      → any (has_saved_id id) p.local_turns ≡ true
  unfolding local_saved_ids_with_active_attempt
  local-own h =
      any-keep_imp (has_saved_id id) _ p.local_turns
        (sym (contains-saved_ids id (keep _ p.local_turns)) ∙ h)

  -- The conversation shows a saved query exactly when it has not been deleted on the page, and either
  -- the session's history has it or a turn of the page itself holds it.
  pub all_turns-shown :
      str_eq id "" ≡ false
      → any (has_saved_id id) (all_turns server p) ≡ (
          not (contains p.deleted_saved_ids id)
          && (any (λ a. str_eq a.id id) server.attempts || any (has_saved_id id) p.local_turns))
  all_turns-shown n = ground (arith, shown-by server p id, history-shown, own-shown n, local-own)
