-- ===== src/Api/Download.antt =====
-- frontend/src/api/auditDownload.ts: the name under which an exported audit is saved, on the code
-- points of texts. `decodeURIComponent` is a parameter; it gives nothing where it throws.
pub mod Laws
mod Tests
use query_craft.Common.{
  ℕ, zero, suc, ◌+◌, String, Bool, true, false, not, ◌&&◌, ◌||◌, List, [], ◌∷◌, ◌++◌, map, Option,
  none, some, leb, ◌==◌, if◌then◌else◌, any, length, codes, codes_eq, is_prefix, is_infix, is_space,
  trim, lower,
}

infixl 1 ◌>>=◌
abbrev pub ◌>>=◌ {ℓ κ} : {A : Type ℓ} {B : Type κ} → Option A → (A → Option B) → Option B
none >>= f = none
some a >>= f = f a

abbrev with_head : ℕ → Option (List ℕ) → Option (List ℕ)
with_head c none = none
with_head c (some s) = some (c ∷ s)

-- `AuditExportFormat`.
pub data Format : Type 0 where
  csv json : Format

abbrev pub extension : Format → String
extension csv = ".csv"
extension json = ".json"

abbrev in_range : ℕ → ℕ → ℕ → Bool
in_range low high c = leb low c && leb c high

unfoldable pub is_forbidden : ℕ → Bool
is_forbidden c =
    leb c 0x1f
    || c == 0x7f
    || c == 0xad
    || in_range 0x600 0x605 c
    || c == 0x61c
    || c == 0x6dd
    || c == 0x70f
    || c == 0x8e2
    || c == 0x180e
    || in_range 0x200b 0x200f c
    || in_range 0x202a 0x202e c
    || in_range 0x2060 0x2064 c
    || in_range 0x2066 0x206f c
    || c == 0xfeff
    || in_range 0xfff9 0xfffb c

unfoldable pub has_forbidden_characters : List ℕ → Bool
unfolding is_forbidden
has_forbidden_characters name = any is_forbidden name

abbrev pub is_digit : ℕ → Bool
is_digit c = leb b'0' c && leb c b'9'

-- What stays of a text behind a literal, and behind so many digits.
unfoldable pub after_literal : List ℕ → List ℕ → Option (List ℕ)
after_literal [] s = some s
after_literal (c ∷ cs) [] = none
after_literal (c ∷ cs) (d ∷ s) = let rest = after_literal cs s in if c == d then rest else none

unfoldable pub after_digits : ℕ → List ℕ → Option (List ℕ)
after_digits zero s = some s
after_digits (suc n) [] = none
after_digits (suc n) (d ∷ s) = let rest = after_digits n s in if is_digit d then rest else none

unfoldable pub after_stamp : List ℕ → Option (List ℕ)
unfolding after_literal after_digits
after_stamp name = do
  day ← after_literal (codes "audit_export_") name
  letter ← after_digits 8 day
  time ← after_literal (codes "T") letter
  end ← after_digits 6 time
  after_literal (codes "Z.") end

-- `AUDIT_EXPORT_FILENAME_PATTERN`.
unfoldable pub filename_pattern : List ℕ → Bool
unfolding after_stamp
filename_pattern name = elim (after_stamp name) [
  | none ↦ false
  | some rest ↦ codes_eq rest (codes "csv") || codes_eq rest (codes "json")
]

unfoldable pub ends_with : List ℕ → List ℕ → Bool
ends_with s [] = codes_eq s []
ends_with s (c ∷ t) = codes_eq s (c ∷ t) || ends_with s t

-- Code points are counted, not units: it is the same for the names that the pattern takes.
unfoldable pub is_acceptable_basename : List ℕ → Format → Bool
unfolding has_forbidden_characters filename_pattern ends_with
is_acceptable_basename name format =
    not (codes_eq name [])
    && leb (length name) 100
    && not (any (λ c. c == b'/' || c == b'\\') name)
    && not (is_infix (codes "..") name)
    && not (has_forbidden_characters name)
    && filename_pattern name
    && ends_with (codes (extension format)) name

-- A literal without regard to case, at the start of a text.
abbrev after_name : List ℕ → List ℕ → Option (List ℕ)
after_name literal s = if is_prefix literal (map lower s) then some (dropped literal s) else none
  where
    dropped : List ℕ → List ℕ → List ℕ
    dropped [] t = t
    dropped (c ∷ cs) [] = []
    dropped (c ∷ cs) (d ∷ t) = dropped cs t

-- A text up to the first `mark`, and behind it.
abbrev split_at : ℕ → List ℕ → Option (List ℕ × List ℕ)
split_at mark [] = none
split_at mark (c ∷ s) =
    let rest = split_at mark s in
    if c == mark
    then some ([], s)
    else elim rest [ none ↦ none | some (before, after) ↦ some (c ∷ before, after) ]

abbrev take_until : (ℕ → Bool) → List ℕ → List ℕ
take_until stop [] = []
take_until stop (c ∷ s) = let rest = take_until stop s in if stop c then [] else c ∷ rest

-- `filename*=(?:([^']*)')([^']*)'([^;]*)` at the start of a text: the charset and the value.
unfoldable pub extended_at : List ℕ → Option (List ℕ × List ℕ)
extended_at s = do
  rest ← after_name (codes "filename*=") s
  (charset, tagged) ← split_at b'\'' rest
  (language, value) ← split_at b'\'' tagged
  some (charset, take_until (λ c. c == b';') value)

unfoldable pub is_line_terminator : ℕ → Bool
is_line_terminator c = c == 10 || c == 13 || c == 0x2028 || c == 0x2029

-- `((?:[^"\\]|\\.)*)"`, with what stands behind a backslash taken without it.
unfoldable pub quoted : List ℕ → Option (List ℕ)
unfolding is_line_terminator
quoted [] = none
quoted (c ∷ []) = if c == b'"' then some [] else none
quoted (c ∷ d ∷ s) =
    let escaped = quoted s in
    let rest = quoted (d ∷ s) in
    if c == b'"'
    then some []
    else if c == b'\\'
    then (if is_line_terminator d then none else with_head d escaped)
    else with_head c rest

-- `filename=(?:"((?:[^"\\]|\\.)*)"|([^";]+))` at the start of a text: the name that it stands for.
unfoldable pub plain_at : List ℕ → Option (List ℕ)
unfolding quoted
plain_at s = do rest ← after_name (codes "filename=") s; name rest
  where
    bare : List ℕ → Option (List ℕ)
    bare [] = none
    bare (c ∷ t) = some (trim (c ∷ t))

    name : List ℕ → Option (List ℕ)
    name [] = none
    name (c ∷ t) =
        if c == b'"' then quoted t else bare (take_until (λ d. d == b'"' || d == b';') (c ∷ t))

-- `regexp.exec`: the leftmost match.
abbrev pub exec {ℓ} : {A : Type ℓ} → (List ℕ → Option A) → List ℕ → Option A
exec at [] = at []
exec at (c ∷ s) = let rest = exec at s in elim (at (c ∷ s)) [ none ↦ rest | some a ↦ some a ]

abbrev opens : List ℕ → Bool
opens [] = true
opens (c ∷ s) = is_space c || c == b';'

-- `isAttachment`: the disposition is one of an attachment.
unfoldable pub is_attachment : List ℕ → Bool
is_attachment trimmed = elim (after_name (codes "attachment") trimmed) [
  | none ↦ false
  | some rest ↦ opens rest
]

-- The tests that come before the name is looked for.
unfoldable pub is_refused : List ℕ → Bool
unfolding is_attachment
is_refused disposition =
    any (λ c. c == 13 || c == 10 || c == 0) disposition || not (is_attachment (trim disposition))

module _ (decode_uri_component : List ℕ → Option (List ℕ)) where
  unfoldable pub candidate : List ℕ → Option (List ℕ)
  unfolding extended_at plain_at
  candidate trimmed = elim (exec extended_at trimmed) [
    | none ↦ exec plain_at trimmed
    | some (charset, value) ↦
        if codes_eq (map lower charset) (codes "utf-8") then decode_uri_component value else none
  ]

  unfoldable pub parse_audit_export_filename : Option (List ℕ) → Format → Option (List ℕ)
  unfolding candidate is_refused is_acceptable_basename
  parse_audit_export_filename none format = none
  parse_audit_export_filename (some disposition) format =
      if is_refused disposition then none else elim (candidate (trim disposition)) [
        | none ↦ none
        | some name ↦ if is_acceptable_basename name format then some name else none
      ]
