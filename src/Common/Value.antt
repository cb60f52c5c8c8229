-- ===== src/Common/Value.antt =====
-- JavaScript values of unknown shape: what `unknown`, thrown errors and parsed JSON are.
use Prim.Native.Nat.{ℕ}
use Prim.Native.String.{String}
use mathlib.Core.Path.{◌≡◌}
use mathlib.Core.Bool.{Bool, true, false, not, ◌&&◌, ◌||◌}
use native.Mathlib.Omega.{arith}
use text.Mathlib.TextEquality.{eq_iff}
use mathlib.Core.Option.{Option, none, some}
use text.Mathlib.Text.{◌==◌ as str_eq}
use query_craft.Common.Tests.{◌==◌, if◌then◌else◌}
use query_craft.Common.Int.{ℤ, pos, negsuc, is_nat}

-- What `instanceof` tells apart: the program's own error classes, any other `Error` (a
-- `DOMException` among them), and an object that is no error.
pub data Proto : Type 0 where
  plain error : Proto
  request_aborted_error request_deadline_error : Proto
  session_deletion_error permission_required_error client_contract_error : Proto

-- A number is an integer, NaN, or by its bit pattern any other double.
mutual
  pub data Value : Type 0 where
    undefined null nan : Value
    bool : Bool → Value
    int : ℤ → Value
    real : ℕ → Value
    str : String → Value
    arr : Items → Value
    obj : Proto → Fields → Value

  pub data Items : Type 0 where
    nil : Items
    cons : Value → Items → Items

  pub data Fields : Type 0 where
    end : Fields
    field : String → Value → Fields → Fields

-- Reading a property that is not there gives `undefined`; `in` asks whether it is there.
abbrev pub read : String → Fields → Value
read k end = undefined
read k (field j v fs) = let rest = read k fs in if str_eq j k then v else rest

abbrev pub has_own : String → Fields → Bool
has_own k end = false
has_own k (field j v fs) = let rest = has_own k fs in if str_eq j k then true else rest

-- `v?.k` for a property that the built-in prototypes do not have.
abbrev pub get : String → Value → Value
get k (obj p fs) = read k fs
get k v = undefined

-- Only objects are asked with `in`.
abbrev pub has : String → Value → Bool
has k (obj p fs) = has_own k fs
has k v = false

abbrev pub is_truthy : Value → Bool
is_truthy undefined = false
is_truthy null = false
is_truthy nan = false
is_truthy (bool b) = b
is_truthy (int z) = not (is_nat 0 z)
is_truthy (real n) = true
is_truthy (str s) = not (str_eq s "")
is_truthy (arr xs) = true
is_truthy (obj p fs) = true

-- `a || b`.
abbrev pub or_else : Value → Value → Value
or_else a b = if is_truthy a then a else b

-- `a ?? b`.
abbrev pub if_nullish : Value → Value → Value
if_nullish undefined b = b
if_nullish null b = b
if_nullish a b = a

-- `v !== null && typeof v === 'object'`.
abbrev pub is_object : Value → Bool
is_object (arr xs) = true
is_object (obj p fs) = true
is_object v = false

-- `v === 's'` and `v === n`, against a literal.
abbrev pub is_str : String → Value → Bool
is_str s (str t) = str_eq t s
is_str s v = false

abbrev pub is_int : ℕ → Value → Bool
is_int n (int z) = is_nat n z
is_int n v = false

-- `v === w`. Minus zero is zero, and two objects that were read apart are never the same.
unfoldable pub is_same : Value → Value → Bool
is_same undefined undefined = true
is_same null null = true
is_same (bool true) (bool b) = b
is_same (bool false) (bool b) = not b
is_same (int (pos m)) (int (pos n)) = m == n
is_same (int (negsuc m)) (int (negsuc n)) = m == n
is_same (real m) (real n) = m == n
is_same (int z) (real n) = is_nat 0 z && n == 0x8000000000000000
is_same (real m) (int z) = is_nat 0 z && m == 0x8000000000000000
is_same (str s) (str t) = str_eq s t
is_same v w = false

-- `typeof v === 'string'`, with the text.
abbrev pub as_str : Value → Option String
as_str (str s) = some s
as_str v = none

abbrev pub is_error : Proto → Bool
is_error plain = false
is_error p = true

-- How a promise settles: `err` is what the rejection carries.
pub data Settled {ℓ} (A : Type ℓ) : Type ℓ where
  resolved : A → Settled A
  rejected : Value → Settled A

abbrev pub error_of : Proto → String → String → Value
error_of p message name = obj p (field "message" (str message) (field "name" (str name) end))

-- `result[k] = v` on an object: a name keeps its place.
abbrev pub put : String → Value → Fields → Fields
put k v end = field k v end
put k v (field j w fs) =
    let rest = put k v fs in if str_eq j k then field k v fs else field j w rest

-- `{ ...base, ...extra }`. The value of a name of `extra` is what `extra` reads there.
abbrev pub spread_from : Fields → Fields → Fields → Fields
spread_from extra base end = base
spread_from extra base (field k v fs) = spread_from extra (put k (read k extra) base) fs

abbrev pub spread : Fields → Fields → Fields
spread base extra = spread_from extra base extra

pub has_own-put :
    (k j : String) (v : Value) (fs : Fields) → has_own j (put k v fs) ≡ (str_eq k j || has_own j fs)
has_own-put k j v end = ground arith
has_own-put k j v (field i w fs) =
    ground (arith, eq_iff k j, eq_iff i k, eq_iff i j, has_own-put k j v fs)

pub read-put :
    (k j : String) (v : Value) (fs : Fields)
    → read j (put k v fs) ≡ (if str_eq k j then v else read j fs)
read-put k j v end = ground arith
read-put k j v (field i w fs) =
    ground (arith, eq_iff k j, eq_iff i k, eq_iff i j, read-put k j v fs)
