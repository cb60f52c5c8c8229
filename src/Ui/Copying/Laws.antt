-- ===== src/Ui/Copying/Laws.antt =====
-- The confirmation that a text was copied is bounded by its one timer.
use query_craft.Common.{
  ℕ, ◌≡◌, ◌≢◌, ◌⊎◌, ◌+◌, inl, inr, Bool-cases, refl, Bool, true, false, List, [], ◌∷◌, none, some,
  arith, ◌==◌,
}
use query_craft.Ui.Copying.{
  CopyStatus, idle, copied, failed, no_clipboard, written, refused, Copying, initial, Event,
  answers, resets, unmounts, fires, clear_timer, schedule_reset, reset_fires, copy_end,
  reset_status, unmount, step, run,
}

-- Either no timer runs and no confirmation is shown on the page, or one timer runs, which the hook holds,
-- and the page shows the confirmation.
pub data IsBounded : Copying → Type 0 where
  at_rest :
      (m : Bool) (s : CopyStatus) (n : ℕ)
      → (m ≡ true → s ≢ copied)
      → IsBounded
          (record { status = s; timer = none; is_mounted = m; running = []; next_timer = n })
  confirming :
      (t n : ℕ)
      → IsBounded (record {
        status = copied;
        timer = some t;
        is_mounted = true;
        running = t ∷ [];
        next_timer = n;
      })

==-self : (n : ℕ) → (n == n) ≡ true
==-self n = ground arith

step-IsBounded : (c : Copying) (e : Event) → IsBounded c → IsBounded (step c e)
unfolding step clear_timer schedule_reset reset_fires copy_end reset_status unmount
step-IsBounded _ (answers written) (at_rest true s n h) = confirming n (n + 1)
step-IsBounded _ (answers no_clipboard) (at_rest true s n h) = at_rest true failed n (λ _ e. cc)
step-IsBounded _ (answers refused) (at_rest true s n h) = at_rest true failed n (λ _ e. cc)
step-IsBounded _ (answers w) (at_rest false s n h) = at_rest false s n h
step-IsBounded _ resets (at_rest true s n h) = at_rest true idle n (λ _ e. cc)
step-IsBounded _ resets (at_rest false s n h) = at_rest false s n h
step-IsBounded _ unmounts (at_rest m s n h) = at_rest false s n (λ e. cc)
step-IsBounded _ (fires t) (at_rest m s n h) = at_rest m s n h
step-IsBounded _ (answers written) (confirming t n) = rw (==-self t) (confirming n (n + 1))
step-IsBounded _ (answers no_clipboard) (confirming t n) =
    rw (==-self t) (at_rest true failed n (λ _ e. cc))
step-IsBounded _ (answers refused) (confirming t n) =
    rw (==-self t) (at_rest true failed n (λ _ e. cc))
step-IsBounded _ resets (confirming t n) = rw (==-self t) (at_rest true idle n (λ _ e. cc))
step-IsBounded _ unmounts (confirming t n) = rw (==-self t) (at_rest false copied n (λ e. cc))
step-IsBounded _ (fires k) (confirming t n) = elim (Bool-cases (t == k)) [
  | inl e ↦ rw e (at_rest true idle n (λ _ e. cc))
  | inr e ↦ rw e (confirming t n)
]

run-IsBounded : (c : Copying) (es : List Event) → IsBounded c → IsBounded (run c es)
unfolding run
run-IsBounded c [] h = h
run-IsBounded c (e ∷ es) h = run-IsBounded (step c e) es (step-IsBounded c e h)

-- A confirmation that the timer `t` ends.
abbrev pub IsEnding : Copying → ℕ → Type 0
IsEnding c t =
    (c.running ≡ t ∷ []) × ((reset_fires t c).status ≡ idle) × ((reset_fires t c).running ≡ [])

IsBounded-ends :
    (c : Copying)
    → IsBounded c
    → ((c.is_mounted ≡ true) × (c.status ≡ copied) × (t : ℕ) × IsEnding c t)
      ⊎ ((c.is_mounted ≡ true → c.status ≢ copied) × (c.running ≡ []))
unfolding reset_fires
IsBounded-ends _ (at_rest m s n h) = inr (h, refl)
IsBounded-ends _ (confirming t n) =
    inl (refl, refl, t, (refl, rw (==-self t) refl, rw (==-self t) refl))

-- Whatever happens after the mount: either the page confirms a copy, and then exactly one timer runs,
-- and when it fires the page is idle and none runs any more; or the page confirms nothing or is gone,
-- and no timer runs.
pub run-initial-ends :
    (es : List Event)
    → (((run initial es).is_mounted ≡ true)
        × ((run initial es).status ≡ copied)
        × (t : ℕ) × IsEnding (run initial es) t)
      ⊎ (((run initial es).is_mounted ≡ true → (run initial es).status ≢ copied)
          × ((run initial es).running ≡ []))
unfolding initial
run-initial-ends es =
    IsBounded-ends (run initial es) (run-IsBounded initial es (at_rest true idle 0 (λ _ e. cc)))
