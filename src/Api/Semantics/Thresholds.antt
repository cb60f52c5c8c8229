-- ===== src/Api/Semantics/Thresholds.antt =====
-- Thresholds of the detection that pass the checks of frontend/src/api/responseValidation.ts.
use query_craft.Common.{
  ℕ, ◌*◌, ◌≡◌, ◌<◌, ◌≤◌, refl, sym, ap, ◌∙◌, String, Bool, true, false, not, ◌&&◌, [], ◌∷◌, some,
  arith, contains, ltb,
}
use query_craft.Common.Int.{ℤ, pos, negsuc}
use query_craft.Common.Value.{Value, undefined, null, nan, bool, int, real, str, arr, obj, get}
use query_craft.Common.Number.{number, double, unit, multiple_of, less_int, less, is_finite}
use query_craft.Api.Semantics.{validate_detection_thresholds, validate_semantic_contract}

-- Two thresholds from 0 to 1, as multiples of the least double, the first below the second.
abbrev pub AreThresholds : Value → Value → Type 0
AreThresholds flag block =
    (f : ℕ) × (b : ℕ) × (number flag ≡ some (pos f))
    × (number block ≡ some (pos b))
    × (f < b)
    × (b ≤ unit)

finite-number : (v : Value) → is_finite v ≡ true → (z : ℤ) × (number v ≡ some z)
unfolding is_finite number
finite-number (int z) h = (multiple_of z, refl)
finite-number (real n) h = (double n, refl)
finite-number undefined h = cc
finite-number null h = cc
finite-number nan h = cc
finite-number (bool b) h = cc
finite-number (str s) h = cc
finite-number (arr vs) h = cc
finite-number (obj p fs) h = cc

less-at : (v w : Value) (y z : ℤ) → number v ≡ some y → number w ≡ some z → less v w ≡ less_int y z
unfolding less
less-at v w y z e k = rw (less, e, k)

number-pos : (n : ℕ) → number (int (pos n)) ≡ some (pos (n * unit))
unfolding number multiple_of
number-pos n = refl

from_zero : (z : ℤ) → less_int z (pos (0 * unit)) ≡ false → (n : ℕ) × (z ≡ pos n)
unfolding less_int
from_zero (pos n) h = (n, refl)
from_zero (negsuc n) h = cc

up_to_one : (n : ℕ) → less_int (pos (1 * unit)) (pos n) ≡ false → n ≤ unit
unfolding less_int
up_to_one n h = from_test unit h
  where
    from_test : (u : ℕ) → ltb (1 * u) n ≡ false → n ≤ u
    from_test u k = ground (arith, k)

below-pos : (m n : ℕ) → less_int (pos m) (pos n) ≡ true → m < n
unfolding less_int
below-pos m n h = ground (arith, h)

in_unit :
    (v : Value)
    → is_finite v ≡ true
    → less v (int (pos 0)) ≡ false
    → less (int (pos 1)) v ≡ false
    → (n : ℕ) × (number v ≡ some (pos n)) × (n ≤ unit)
in_unit v finite low high =
    let (z, e) = finite-number v finite in
    let (n, k) = from_zero z (sym (less-at v (int (pos 0)) z _ e (number-pos 0)) ∙ low) in
    let e' = e ∙ ap some k in
    (n, e', up_to_one n (sym (less-at (int (pos 1)) v _ (pos n) (number-pos 1) e') ∙ high))

thresholds-parts :
    (v : Value)
    → validate_detection_thresholds v ≡ true
    → (is_finite (get "block_confidence" v) ≡ true)
      × (is_finite (get "flag_confidence" v) ≡ true)
      × (less (get "block_confidence" v) (int (pos 0)) ≡ false)
      × (less (int (pos 1)) (get "block_confidence" v) ≡ false)
      × (less (get "flag_confidence" v) (int (pos 0)) ≡ false)
      × (less (int (pos 1)) (get "flag_confidence" v) ≡ false)
      × (less (get "flag_confidence" v) (get "block_confidence" v) ≡ true)
unfolding validate_detection_thresholds
thresholds-parts v h = seven _ _ _ _ _ _ _ h
  where
    seven :
        (a b c d e f g : Bool)
        → (a && b && not c && not d && not e && not f && g) ≡ true
        → (a ≡ true)
          × (b ≡ true)
          × (c ≡ false)
          × (d ≡ false)
          × (e ≡ false)
          × (f ≡ false)
          × (g ≡ true)
    seven a b c d e f g k = ground (arith, k)

thresholds-AreThresholds :
    (v : Value)
    → validate_detection_thresholds v ≡ true
    → AreThresholds (get "flag_confidence" v) (get "block_confidence" v)
thresholds-AreThresholds v h =
    let (fb, ff, b0, b1, f0, f1, l) = thresholds-parts v h in
    let (b, eb, hb) = in_unit (get "block_confidence" v) fb b0 b1 in
    let (f, ef, hf) = in_unit (get "flag_confidence" v) ff f0 f1 in
    (
      f,
      b,
      ef,
      eb,
      below-pos f b (
          sym (less-at (get "flag_confidence" v) (get "block_confidence" v) (pos f) (pos b) ef eb)
          ∙ l),
      hb,
    )

detection-passes :
    (parses_date : String → Bool) (operation : String) (status : ℕ) (v : Value)
    → validate_semantic_contract parses_date operation status v ≡ true
    → status < 400
    → contains ("getDetectionConfig" ∷ "updateDetectionConfig" ∷ []) operation ≡ true
    → validate_detection_thresholds v ≡ true
unfolding validate_semantic_contract
detection-passes parses_date operation status v h s o = ground (arith, h, o)

pub semantic_contract-AreThresholds :
    (parses_date : String → Bool) (operation : String) (status : ℕ) (v : Value)
    → validate_semantic_contract parses_date operation status v ≡ true
    → status < 400
    → contains ("getDetectionConfig" ∷ "updateDetectionConfig" ∷ []) operation ≡ true
    → AreThresholds (get "flag_confidence" v) (get "block_confidence" v)
semantic_contract-AreThresholds parses_date operation status v h s o =
    thresholds-AreThresholds v (detection-passes parses_date operation status v h s o)
