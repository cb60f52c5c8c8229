-- ===== src/Api/Sanitizing/Within.antt =====
-- What it is to be a part of a value, for the bodies that
-- frontend/src/api/responseValidation.ts sanitizes, and how a part grows.
use query_craft.Common.{
  ◌≡◌, refl, sym, subst, String, Bool, true, false, arith, str_eq, str_eq_self, eq_iff, All,
  All-imp, if◌then◌else◌,
}
use query_craft.Common.Value.{
  Value, Items, Fields, Proto, arr, obj, nil, cons, end, field, read, has_own, put, spread_from,
  has_own-put, read-put,
}
use query_craft.Api.Sanitizing.{Outcome, done, failed, exhausted, ◌>>=◌, names}

-- Every list of a part has the items of the whole, as many and in their order, and every object of
-- a part has no other names; what stands in them is a part in turn.
mutual
  pub data IsPart : Value → Value → Type 0 where
    same : (v : Value) → IsPart v v
    of_items : {ws vs : Items} → ArePart ws vs → IsPart (arr ws) (arr vs)
    of_fields :
        {p q : Proto} {ws vs : Fields}
        → ((k : String) → has_own k ws ≡ true → has_own k vs ≡ true)
        → ((k : String) → has_own k ws ≡ true → IsPart (read k ws) (read k vs))
        → IsPart (obj p ws) (obj q vs)

  pub data ArePart : Items → Items → Type 0 where
    none_left : ArePart nil nil
    one_more :
        {w v : Value} {ws vs : Items} → IsPart w v → ArePart ws vs → ArePart (cons w ws) (cons v vs)

pub bind_done {ℓ κ} :
    {A : Type ℓ} {B : Type κ} (m : Outcome A) (f : A → Outcome B) {b : B}
    → (m >>= f) ≡ done b
    → (a : A) × (m ≡ done a) × (f a ≡ done b)
bind_done (done a) f h = (a, refl, h)
bind_done failed f h = cc
bind_done exhausted f h = cc

pub done-injective {ℓ} : {A : Type ℓ} {a b : A} → done a ≡ done b → a ≡ b
done-injective h = cc

-- What is sanitized so far of an object.
abbrev pub Within : Fields → Fields → Type 0
Within ws vs =
    ((k : String) → has_own k ws ≡ true → has_own k vs ≡ true)
    × ((k : String) → has_own k ws ≡ true → IsPart (read k ws) (read k vs))

pub put-Within :
    (k : String) (w : Value) (ws vs : Fields)
    → has_own k vs ≡ true
    → IsPart w (read k vs)
    → Within ws vs
    → Within (put k w ws) vs
put-Within k w ws vs h p within = (has_it, is_part)
  where
    has_it : (j : String) → has_own j (put k w ws) ≡ true → has_own j vs ≡ true
    has_it j e = ground (arith, has_own-put k j w ws, eq_iff k j, within.0 j)

    by_key :
        (j : String) (b : Bool)
        → str_eq k j ≡ b
        → has_own j (put k w ws) ≡ true
        → IsPart (if b then w else read j ws) (read j vs)
    by_key j true e o = subst (λ i. IsPart w (read i vs)) ((eq_iff k j).0 e) p
    by_key j false e o = within.1 j (ground (arith, has_own-put k j w ws, e))

    is_part :
        (j : String) → has_own j (put k w ws) ≡ true → IsPart (read j (put k w ws)) (read j vs)
    is_part j e =
        subst (λ r. IsPart r (read j vs)) (sym (read-put k j w ws)) (by_key j (str_eq k j) refl e)

pub spread_from-Within :
    (extra base fs vs : Fields)
    → Within extra vs
    → ((k : String) → has_own k fs ≡ true → has_own k extra ≡ true)
    → Within base vs
    → Within (spread_from extra base fs) vs
spread_from-Within extra base end vs e i b = b
spread_from-Within extra base (field k v fs) vs e i b =
    spread_from-Within extra (put k (read k extra) base) fs vs e
      (λ j h. i j (ground (arith, h, eq_iff k j)))
      (put-Within k (read k extra) base vs (e.0 k here) (e.1 k here) b)
  where
    here : has_own k extra ≡ true
    here = i k (ground (arith, str_eq_self k))

pub self-Within : (vs : Fields) → Within vs vs
self-Within vs = (λ k h. h, λ k h. same (read k vs))

pub nothing-Within : (vs : Fields) → Within end vs
nothing-Within vs = (λ k h. cc, λ k h. cc)

pub names-own : (fs : Fields) → All (λ k. has_own k fs ≡ true) (names fs)
names-own end = tt
names-own (field k v fs) = (
  ground (arith, str_eq_self k),
  All-imp _ _ (λ j h. ground (arith, h)) (names fs) (names-own fs),
)
