-- ===== src/Common/Strings.antt =====
-- JavaScript's `Set<string>` and `Map<string, V>`, and its white space, over the native texts.
use Prim.Native.Nat.{ℕ, zero, suc, ◌+◌, ◌/◌, ◌%◌}
use Prim.Native.Char.{code}
use Prim.Native.String.{String, char_at, ◌++◌ as append}
use mathlib.Core.Path.{◌≡◌, refl}
use mathlib.Core.Bool.{Bool, true, false, ◌&&◌, ◌||◌, not}
use mathlib.Core.List.{List, [], ◌∷◌}
use mathlib.Core.Option.{Option, none, some}
use native.Mathlib.Omega.{arith}
use text.Mathlib.Text.{◌==◌ as str_eq}
use text.Mathlib.TextEquality.{eq_iff}
use text.Mathlib.TextPositions.{eq_refl}
use query_craft.Common.Tests.{ltb, leb, ◌==◌, if◌then◌else◌}
use query_craft.Common.Lists.{any, all}

-- `array.includes(s)` and `set.has(s)`.
abbrev pub contains : List String → String → Bool
contains xs s = any (λ x. str_eq x s) xs

-- `set.add(s)`: a set keeps the first occurrence and its place.
unfoldable pub add : List String → String → List String
add xs s = if contains xs s then xs else s ∷ xs

-- `set.delete(s)`, and `filter(x => x !== s)`.
abbrev pub without : List String → String → List String
without [] s = []
without (x ∷ xs) s = let rest = without xs s in if str_eq x s then rest else x ∷ rest

pub str_eq_self : (s : String) → str_eq s s ≡ true
str_eq_self s = eq_refl s

pub contains-add :
    (xs : List String) (s t : String) → contains (add xs s) t ≡ (str_eq s t || contains xs t)
unfolding add
contains-add xs s t = elim_on (contains xs s) refl
  where
    member : (ys : List String) → contains ys s ≡ true → str_eq s t ≡ true → contains ys t ≡ true
    member [] h e = h
    member (y ∷ ys) h e = ground (arith, member ys, eq_iff s t, eq_iff y s, eq_iff y t)

    elim_on :
        (b : Bool)
        → contains xs s ≡ b
        → contains (if contains xs s then xs else s ∷ xs) t ≡ (str_eq s t || contains xs t)
    elim_on true e = ground (arith, member xs)
    elim_on false e = ground arith

pub contains-without :
    (xs : List String) (s t : String)
    → contains (without xs s) t ≡ (contains xs t && not (str_eq s t))
contains-without [] s t = refl
contains-without (x ∷ xs) s t =
    ground (arith, contains-without xs s t, eq_iff s t, eq_iff x s, eq_iff x t)

module _ {ℓ} {V : Type ℓ} where
  -- `map.get(k)` and `map.set(k, v)`.
  abbrev pub lookup : String → List (String × V) → Option V
  lookup k [] = none
  lookup k ((j, v) ∷ m) = let rest = lookup k m in if str_eq j k then some v else rest

  abbrev pub insert : String → V → List (String × V) → List (String × V)
  insert k v [] = (k, v) ∷ []
  insert k v ((j, w) ∷ m) =
      let rest = insert k v m in if str_eq j k then (k, v) ∷ m else (j, w) ∷ rest

  -- `map.delete(k)`.
  abbrev pub discard : String → List (String × V) → List (String × V)
  discard k [] = []
  discard k ((j, v) ∷ m) = let rest = discard k m in if str_eq j k then rest else (j, v) ∷ rest

  pub lookup-discard :
      (k j : String) (m : List (String × V))
      → lookup j (discard k m) ≡ (if str_eq k j then none else lookup j m)
  lookup-discard k j [] = ground arith
  lookup-discard k j ((i, v) ∷ m) =
      ground (arith, eq_iff k j, eq_iff i k, eq_iff i j, lookup-discard k j m)

  pub lookup-insert :
      (k j : String) (v : V) (m : List (String × V))
      → lookup j (insert k v m) ≡ (if str_eq k j then some v else lookup j m)
  lookup-insert k j v [] = refl
  lookup-insert k j v ((i, w) ∷ m) =
      ground (arith, eq_iff k j, eq_iff i k, eq_iff i j, lookup-insert k j v m)

-- The code points of a text.
abbrev pub codes : String → List ℕ
codes String.[] = []
codes (String.◌∷◌ c s) = code c ∷ codes s

-- ECMAScript's WhiteSpace and LineTerminator, which `trim` removes.
unfoldable pub is_space : ℕ → Bool
is_space c =
    (leb 9 c && leb c 13)
    || c == 32
    || c == 0xa0
    || c == 0x1680
    || (leb 0x2000 c && leb c 0x200a)
    || c == 0x2028
    || c == 0x2029
    || c == 0x202f
    || c == 0x205f
    || c == 0x3000
    || c == 0xfeff

-- `s.trim() === ''`.
unfoldable pub is_blank : String → Bool
unfolding is_space
is_blank s = all is_space (codes s)

trim_start : List ℕ → List ℕ
unfolding is_space
trim_start [] = []
trim_start (c ∷ s) = let rest = trim_start s in if is_space c then rest else c ∷ s

-- A space stays only where something stays behind it.
close_space : ℕ → List ℕ → List ℕ
unfolding is_space
close_space c [] = if is_space c then [] else c ∷ []
close_space c (d ∷ s) = c ∷ d ∷ s

trim_end : List ℕ → List ℕ
unfolding close_space
trim_end [] = []
trim_end (c ∷ s) = close_space c (trim_end s)

-- `s.trim()` on code points.
unfoldable pub trim : List ℕ → List ℕ
unfolding trim_start trim_end
trim s = trim_end (trim_start s)

-- `toLowerCase` for a text that is then compared with ASCII literals only: the ASCII capitals, and
-- the Kelvin sign, the one other character whose lower case is an ASCII letter.
unfoldable pub lower : ℕ → ℕ
lower c = if leb b'A' c && leb c b'Z' then c + 32 else if c == 0x212a then b'k' else c

unfoldable pub codes_eq : List ℕ → List ℕ → Bool
codes_eq [] [] = true
codes_eq (a ∷ s) (b ∷ t) = a == b && codes_eq s t
codes_eq _ _ = false

unfoldable pub is_prefix : List ℕ → List ℕ → Bool
is_prefix [] t = true
is_prefix (a ∷ s) [] = false
is_prefix (a ∷ s) (b ∷ t) = a == b && is_prefix s t

-- `t.includes(s)` and `t.startsWith(s)` on code points.
unfoldable pub is_infix : List ℕ → List ℕ → Bool
unfolding is_prefix
is_infix s [] = is_prefix s []
is_infix s (b ∷ t) = is_prefix s (b ∷ t) || is_infix s t

unfoldable pub includes_text : String → String → Bool
unfolding is_infix
includes_text t s = is_infix (codes s) (codes t)

-- `String(n)` of a whole number, and `s.split('/').at(-1)`.
digit : ℕ → String
digit n = String.◌∷◌ (char_at "0123456789" (n % 10)) String.[]

decimal : ℕ → ℕ → String
unfolding digit
decimal zero n = digit n
decimal (suc fuel) n = elim (ltb n 10) [
  | true ↦ digit n
  | false ↦ append (decimal fuel (n / 10)) (digit n)
]

unfoldable pub show : ℕ → String
unfolding decimal
show n = decimal n n

unfoldable pub last_segment : String → String
last_segment s = after s s
  where
    -- The text behind the last slash, or else `found`.
    after : String → String → String
    after found String.[] = found
    after found (String.◌∷◌ c s) = after (if code c == b'/' then s else found) s
