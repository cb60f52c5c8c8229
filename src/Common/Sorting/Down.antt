-- ===== src/Common/Sorting/Down.antt =====
-- `array.sort((left, right) => key(right) - key(left))`: a stable sort by a falling key. The first
-- item of the result is the first of those with the greatest key.
use mathlib.Core.Option.{some-injective}
use query_craft.Common.{ℕ, ◌≡◌, ◌≤◌, subst, List, [], ◌∷◌, some, arith, leb, if◌then◌else◌, All}
use query_craft.Common.Sorting.{first}

module _ {ℓ} {A : Type ℓ} where
  insert_down : (A → ℕ) → A → List A → List A
  insert_down key x [] = x ∷ []
  insert_down key x (y ∷ ys) =
      let later = insert_down key x ys in if leb (key y) (key x) then x ∷ y ∷ ys else y ∷ later

  unfoldable pub sort_down : (A → ℕ) → List A → List A
  unfolding insert_down
  sort_down key [] = []
  sort_down key (x ∷ xs) = insert_down key x (sort_down key xs)

module _ {ℓ κ} {A : Type ℓ} (key : A → ℕ) (P : A → Type κ) where
  insert_down-All : (x : A) (xs : List A) → P x → All P xs → All P (insert_down key x xs)
  unfolding insert_down
  insert_down-All x [] p h = (p, tt)
  insert_down-All x (y ∷ ys) p h = ground (arith, insert_down-All x ys p h.1)

  insert_down-All_back : (x : A) (xs : List A) → All P (insert_down key x xs) → P x × All P xs
  unfolding insert_down
  insert_down-All_back x [] h = h
  insert_down-All_back x (y ∷ ys) h = ground (arith, insert_down-All_back x ys)

  sort_down-All : (xs : List A) → All P xs → All P (sort_down key xs)
  unfolding sort_down
  sort_down-All [] h = tt
  sort_down-All (x ∷ xs) h = insert_down-All x (sort_down key xs) h.0 (sort_down-All xs h.1)

  sort_down-All_back : (xs : List A) → All P (sort_down key xs) → All P xs
  unfolding sort_down
  sort_down-All_back [] h = tt
  sort_down-All_back (x ∷ xs) h =
      let (here, later) = insert_down-All_back x (sort_down key xs) h in
      (here, sort_down-All_back xs later)

  -- The first item of the sorted list has what all items have.
  pub first-sort_down : (xs : List A) (m : A) → first (sort_down key xs) ≡ some m → All P xs → P m
  first-sort_down xs m e h = head (sort_down key xs) e (sort_down-All xs h)
    where
      head : (ys : List A) → first ys ≡ some m → All P ys → P m
      head [] e h = cc
      head (y ∷ ys) e h = subst P (some-injective _ _ e) h.0

module _ {ℓ} {A : Type ℓ} (key : A → ℕ) where
  abbrev Sorted : List A → Type 0
  Sorted [] = Unit
  Sorted (x ∷ xs) = All (λ y. key y ≤ key x) xs × Sorted xs

  All-weaken : (m n : ℕ) (xs : List A) → m ≤ n → All (λ y. key y ≤ m) xs → All (λ y. key y ≤ n) xs
  All-weaken m n [] h a = tt
  All-weaken m n (x ∷ xs) h a = (omega arith, All-weaken m n xs h a.1)

  insert_down-Sorted : (x : A) (xs : List A) → Sorted xs → Sorted (insert_down key x xs)
  unfolding insert_down
  insert_down-Sorted x [] s = (tt, tt)
  insert_down-Sorted x (y ∷ ys) s = ground (
    arith,
    insert_down-Sorted x ys s.1,
    All-weaken (key y) (key x) ys,
    insert_down-All key (λ z. key z ≤ key y) x ys,
  )

  sort_down-Sorted : (xs : List A) → Sorted (sort_down key xs)
  unfolding sort_down
  sort_down-Sorted [] = tt
  sort_down-Sorted (x ∷ xs) = insert_down-Sorted x (sort_down key xs) (sort_down-Sorted xs)

  -- And no item has a greater key.
  pub first-sort_down_greatest :
      (xs : List A) (m : A) → first (sort_down key xs) ≡ some m → All (λ y. key y ≤ key m) xs
  first-sort_down_greatest xs m e =
      sort_down-All_back key (λ y. key y ≤ key m) xs
        (greatest (sort_down key xs) e (sort_down-Sorted xs))
    where
      greatest : (ys : List A) → first ys ≡ some m → Sorted ys → All (λ y. key y ≤ key m) ys
      greatest [] e s = tt
      greatest (y ∷ ys) e s =
          subst (λ z. All (λ w. key w ≤ key z) (y ∷ ys)) (some-injective _ _ e) (omega arith, s.0)
