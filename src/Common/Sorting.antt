-- ===== src/Common/Sorting.antt =====
-- `array.sort` by a numeric key: a stable sort. The first item of the result is the first of those
-- with the least key.
pub mod Down
use Prim.Native.Nat.{ℕ, ◌≤◌}
use mathlib.Core.Path.{◌≡◌, refl, subst}
use mathlib.Core.List.{List, [], ◌∷◌}
use mathlib.Core.Option.{Option, none, some, some-injective}
use native.Mathlib.Omega.{arith}
use query_craft.Common.Tests.{leb, if◌then◌else◌}
use query_craft.Common.Lists.{All}

module _ {ℓ} {A : Type ℓ} where
  insert_by : (A → ℕ) → A → List A → List A
  insert_by key x [] = x ∷ []
  insert_by key x (y ∷ ys) =
      let later = insert_by key x ys in if leb (key x) (key y) then x ∷ y ∷ ys else y ∷ later

  unfoldable pub sort_by : (A → ℕ) → List A → List A
  unfolding insert_by
  sort_by key [] = []
  sort_by key (x ∷ xs) = insert_by key x (sort_by key xs)

  abbrev pub first : List A → Option A
  first [] = none
  first (x ∷ xs) = some x

module _ {ℓ κ} {A : Type ℓ} (key : A → ℕ) (P : A → Type κ) where
  insert_by-All : (x : A) (xs : List A) → P x → All P xs → All P (insert_by key x xs)
  unfolding insert_by
  insert_by-All x [] p h = (p, tt)
  insert_by-All x (y ∷ ys) p h = ground (arith, insert_by-All x ys p h.1)

  pub sort_by-All : (xs : List A) → All P xs → All P (sort_by key xs)
  unfolding sort_by
  sort_by-All [] h = tt
  sort_by-All (x ∷ xs) h = insert_by-All x (sort_by key xs) h.0 (sort_by-All xs h.1)

module _ {ℓ} {A : Type ℓ} (key : A → ℕ) where
  -- Nothing in the list has a smaller key than its head.
  abbrev pub IsLeast : List A → Type 0
  IsLeast [] = Unit
  IsLeast (x ∷ xs) = All (λ y. key x ≤ key y) xs

  abbrev Sorted : List A → Type 0
  Sorted [] = Unit
  Sorted (x ∷ xs) = All (λ y. key x ≤ key y) xs × Sorted xs

  All-weaken : (m n : ℕ) (xs : List A) → m ≤ n → All (λ y. n ≤ key y) xs → All (λ y. m ≤ key y) xs
  All-weaken m n [] h a = tt
  All-weaken m n (x ∷ xs) h a = (omega arith, All-weaken m n xs h a.1)

  insert_by-Sorted : (x : A) (xs : List A) → Sorted xs → Sorted (insert_by key x xs)
  unfolding insert_by
  insert_by-Sorted x [] s = (tt, tt)
  insert_by-Sorted x (y ∷ ys) s = ground (
    arith,
    insert_by-Sorted x ys s.1,
    All-weaken (key x) (key y) ys,
    insert_by-All key (λ z. key y ≤ key z) x ys,
  )

  pub sort_by-Sorted : (xs : List A) → Sorted (sort_by key xs)
  unfolding sort_by
  sort_by-Sorted [] = tt
  sort_by-Sorted (x ∷ xs) = insert_by-Sorted x (sort_by key xs) (sort_by-Sorted xs)

module _ {ℓ κ} {A : Type ℓ} (key : A → ℕ) (P : A → Type κ) where
  insert_by-All_back : (x : A) (xs : List A) → All P (insert_by key x xs) → P x × All P xs
  unfolding insert_by
  insert_by-All_back x [] h = h
  insert_by-All_back x (y ∷ ys) h = ground (arith, insert_by-All_back x ys)

  pub sort_by-All_back : (xs : List A) → All P (sort_by key xs) → All P xs
  unfolding sort_by
  sort_by-All_back [] h = tt
  sort_by-All_back (x ∷ xs) h =
      let (here, later) = insert_by-All_back x (sort_by key xs) h in
      (here, sort_by-All_back xs later)

  -- The first item of the sorted list is one of the items, so that it has what they all have.
  pub first-sort_by : (xs : List A) (m : A) → first (sort_by key xs) ≡ some m → All P xs → P m
  first-sort_by xs m e h = head (sort_by key xs) e (sort_by-All key P xs h)
    where
      head : (ys : List A) → first ys ≡ some m → All P ys → P m
      head [] e h = cc
      head (y ∷ ys) e h = subst P (some-injective _ _ e) h.0

module _ {ℓ} {A : Type ℓ} (key : A → ℕ) where
  -- And no item has a smaller key.
  pub first-sort_by_least :
      (xs : List A) (m : A) → first (sort_by key xs) ≡ some m → All (λ y. key m ≤ key y) xs
  first-sort_by_least xs m e =
      sort_by-All_back key (λ y. key m ≤ key y) xs
        (least (sort_by key xs) e (sort_by-Sorted key xs))
    where
      least : (ys : List A) → first ys ≡ some m → Sorted key ys → All (λ y. key m ≤ key y) ys
      least [] e s = tt
      least (y ∷ ys) e s =
          subst (λ z. All (λ w. key z ≤ key w) (y ∷ ys)) (some-injective _ _ e) (omega arith, s.0)

  pub first-sort_by-none : (xs : List A) → first (sort_by key xs) ≡ none → xs ≡ []
  unfolding sort_by insert_by
  first-sort_by-none [] e = refl
  first-sort_by-none (x ∷ xs) e = absurd (some_first x (sort_by key xs) e)
    where
      some_first : (y : A) (ys : List A) → first (insert_by key y ys) ≡ none → ⊥
      some_first y [] e = cc
      some_first y (z ∷ zs) e = ground arith
