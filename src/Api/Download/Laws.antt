-- ===== src/Api/Download/Laws.antt =====
-- No name of a server reaches the file system but one of the contract's shape.
use query_craft.Common.{
  ℕ, zero, suc, ◌≡◌, inl, inr, refl, sym, ap, subst, ◌∙◌, Bool, true, false, not, ◌&&◌, ◌||◌, List,
  [], ◌∷◌, ◌++◌, Option, none, some, arith, any, all, length, leb, is_infix, codes, codes_eq, trim,
  Bool-cases, Option-cases, ◌==◌,
}
use query_craft.Api.Download.{
  Format, csv, json, extension, is_digit, after_literal, after_digits, after_stamp,
  filename_pattern, ends_with, is_acceptable_basename, has_forbidden_characters, is_refused,
  candidate, parse_audit_export_filename, ◌>>=◌,
}

>>=-some :
    {A B : Type 0} (m : Option A) (f : A → Option B) (b : B)
    → (m >>= f) ≡ some b
    → (a : A) × (m ≡ some a) × (f a ≡ some b)
>>=-some none f b h = cc
>>=-some (some a) f b h = (a, refl, h)

false_not_true : ¬ (false ≡ true)
false_not_true h = cc

none_not_some : {s : List ℕ} → ¬ (none ≡ some s)
none_not_some h = cc

some_eq : {s t : List ℕ} → some s ≡ some t → s ≡ t
some_eq h = cc

after_literal-append : (p s r : List ℕ) → after_literal p s ≡ some r → s ≡ p ++ r
unfolding after_literal
after_literal-append [] s r h = some_eq h
after_literal-append (c ∷ p) [] r h = cc
after_literal-append (c ∷ p) (d ∷ s) r h = elim (Bool-cases (c == d)) [
  | inl e ↦
      let k = after_literal-append p s r (rw e at h) in
      let q : d ≡ c = ground (arith, e) in rw (q, k)
  | inr e ↦ ground (arith, e)
]

abbrev pub Digits : ℕ → List ℕ → Type 0
Digits n ds = (length ds ≡ n) × (all is_digit ds ≡ true)

after_digits-append :
    (n : ℕ) (s r : List ℕ) → after_digits n s ≡ some r → (ds : List ℕ) × Digits n ds × (s ≡ ds ++ r)
unfolding after_digits
after_digits-append zero s r h = ([], (refl, refl), some_eq h)
after_digits-append (suc n) [] r h = cc
after_digits-append (suc n) (d ∷ s) r h = elim (Bool-cases (is_digit d)) [
  | inl e ↦
      let (ds, (l, a), k) = after_digits-append n s r (rw e at h) in
      (d ∷ ds, (ap suc l, rw e a), ap (λ t. d ∷ t) k)
  | inr e ↦ ground (arith, e)
]

codes_eq-eq : (s t : List ℕ) → codes_eq s t ≡ true → s ≡ t
unfolding codes_eq
codes_eq-eq [] [] h = refl
codes_eq-eq [] (b ∷ t) h = cc
codes_eq-eq (a ∷ s) [] h = cc
codes_eq-eq (a ∷ s) (b ∷ t) h =
    let q : a ≡ b = ground (arith, h) in
    let k : codes_eq s t ≡ true = ground (arith, h) in rw (q, codes_eq-eq s t k)

abbrev tag : Format → List ℕ
tag csv = codes "csv"
tag json = codes "json"

-- `audit_export_YYYYMMDDTHHMMSSZ` with some digits, and the extension of the format.
abbrev pub HasShape : List ℕ → Format → Type 0
HasShape name format =
    (day : List ℕ) × (time : List ℕ) × Digits 8 day
    × Digits 6 time
    × (name
        ≡ codes "audit_export_"
          ++ (day ++ (codes "T" ++ (time ++ (codes "Z" ++ codes (extension format))))))

abbrev IsStamped : List ℕ → List ℕ → Type 0
IsStamped name rest =
    (day : List ℕ) × (time : List ℕ) × Digits 8 day
    × Digits 6 time
    × (name ≡ codes "audit_export_" ++ (day ++ (codes "T" ++ (time ++ (codes "Z." ++ rest)))))

after_stamp-IsStamped : (name rest : List ℕ) → after_stamp name ≡ some rest → IsStamped name rest
unfolding after_stamp
after_stamp-IsStamped name rest h =
    let (a, p, h1) = >>=-some (after_literal (codes "audit_export_") name) _ rest h in
    let (b, q, h2) = >>=-some (after_digits 8 a) _ rest h1 in
    let (c, r, h3) = >>=-some (after_literal (codes "T") b) _ rest h2 in
    let (d, s, h4) = >>=-some (after_digits 6 c) _ rest h3 in
    let (day, day_ok, k1) = after_digits-append 8 a b q in
    let (time, time_ok, k2) = after_digits-append 6 c d s in
    let j0 = after_literal-append (codes "audit_export_") name a p in
    let j1 = after_literal-append (codes "T") b c r in
    let j2 = after_literal-append (codes "Z.") d rest h4 in
    (
      day,
      time,
      day_ok,
      time_ok,
      j0
          ∙ ap (λ t. codes "audit_export_" ++ t)
              (k1
                ∙ ap (λ t. day ++ t) (j1 ∙ ap (λ t. codes "T" ++ t) (k2 ∙ ap (λ t. time ++ t) j2))),
    )

last_of : ℕ → List ℕ → ℕ
last_of c [] = c
last_of c (d ∷ s) = last_of d s

last_of-append : (c b d : ℕ) (s t : List ℕ) → last_of c (s ++ (d ∷ t)) ≡ last_of b (d ∷ t)
unfolding last_of
last_of-append c b d [] t = refl
last_of-append c b d (e ∷ s) t = last_of-append e b d s t

last_of-ends_with :
    (c d : ℕ) (s t : List ℕ) → ends_with (d ∷ t) s ≡ true → last_of c s ≡ last_of c (d ∷ t)
unfolding last_of ends_with codes_eq
last_of-ends_with c d [] t h = cc
last_of-ends_with c d (e ∷ s) t h = elim (Bool-cases (codes_eq (d ∷ t) (e ∷ s))) [
  | inl k ↦ ap (last_of c) (sym (codes_eq-eq (d ∷ t) (e ∷ s) k))
  | inr k ↦ last_of-ends_with e d s t (rw k at h)
]

stamp-last :
    (name rest : List ℕ) (d : ℕ) → IsStamped name (d ∷ rest) → last_of 0 name ≡ last_of 0 (d ∷ rest)
unfolding last_of
stamp-last name rest d (day, time, p, q, e) =
    ap (last_of 0) e
    ∙ last_of-append b'_' 0 b'T' day (time ++ (codes "Z." ++ (d ∷ rest)))
    ∙ last_of-append b'T' 0 b'Z' time (codes "." ++ (d ∷ rest))

-- The pattern's own extension, when it is not the one that is asked for.
kind_of :
    (name rest : List ℕ) (format : Format)
    → after_stamp name ≡ some rest
    → codes_eq rest (codes "csv") || codes_eq rest (codes "json") ≡ true
    → ends_with (codes (extension format)) name ≡ true
    → rest ≡ tag format
unfolding last_of
kind_of name rest format e k h = elim (Bool-cases (codes_eq rest (codes "csv"))) [
  | inl a ↦
      let q = codes_eq-eq rest (codes "csv") a in
      csv_case format h q
        (stamp-last name _ b'c' (subst (IsStamped name) q (after_stamp-IsStamped name rest e)))
  | inr a ↦
      let q = codes_eq-eq rest (codes "json") (ground (arith, a, k)) in
      json_case format h q
        (stamp-last name _ b'j' (subst (IsStamped name) q (after_stamp-IsStamped name rest e)))
]
  where
    csv_case :
        (f : Format)
        → ends_with (codes (extension f)) name ≡ true
        → rest ≡ codes "csv"
        → last_of 0 name ≡ b'v'
        → rest ≡ tag f
    csv_case csv h q l = q
    csv_case json h q l =
        let m = last_of-ends_with 0 b'.' name (codes "json") h in absurd (ground (arith, l, m))

    json_case :
        (f : Format)
        → ends_with (codes (extension f)) name ≡ true
        → rest ≡ codes "json"
        → last_of 0 name ≡ b'n'
        → rest ≡ tag f
    json_case json h q l = q
    json_case csv h q l =
        let m = last_of-ends_with 0 b'.' name (codes "csv") h in absurd (ground (arith, l, m))

last_two :
    (a b c d e f g : Bool) → (a && b && c && d && e && f && g) ≡ true → (f ≡ true) × (g ≡ true)
last_two a b c d e f g h = ground (arith, h)

acceptable-parts :
    (name : List ℕ) (format : Format)
    → is_acceptable_basename name format ≡ true
    → (filename_pattern name ≡ true) × (ends_with (codes (extension format)) name ≡ true)
unfolding is_acceptable_basename
acceptable-parts name format h =
    last_two (not (codes_eq name [])) (leb (length name) 100)
      (not (any (λ c. c == b'/' || c == b'\\') name)) (not (is_infix (codes "..") name))
      (not (has_forbidden_characters name)) (filename_pattern name)
      (ends_with (codes (extension format)) name) h

IsStamped-HasShape :
    (name : List ℕ) (format : Format) → IsStamped name (tag format) → HasShape name format
IsStamped-HasShape name csv h = h
IsStamped-HasShape name json h = h

acceptable-HasShape :
    (name : List ℕ) (format : Format)
    → is_acceptable_basename name format ≡ true
    → HasShape name format
unfolding filename_pattern
acceptable-HasShape name format h =
    let (p, q) = acceptable-parts name format h in
    elim (Option-cases (after_stamp name)) [
      | inl e ↦ absurd (false_not_true (rw (filename_pattern, e) at p))
      | inr (rest, e) ↦ IsStamped-HasShape name format (
          subst (IsStamped name) (kind_of name rest format e (rw (filename_pattern, e) at p) q)
            (after_stamp-IsStamped name rest e))
    ]

module _ (decode_uri_component : List ℕ → Option (List ℕ)) where
  -- A name that is taken from the header of a response has the shape of the contract, with the extension
  -- of the format that was asked for, whatever the header is and however it is decoded.
  pub parse_audit_export_filename-HasShape :
      (disposition : Option (List ℕ)) (format : Format) (name : List ℕ)
      → parse_audit_export_filename decode_uri_component disposition format ≡ some name
      → HasShape name format
  unfolding parse_audit_export_filename
  parse_audit_export_filename-HasShape none format name h = cc
  parse_audit_export_filename-HasShape (some d) format name h = elim (Bool-cases (is_refused d)) [
    | inl a ↦ absurd (none_not_some (rw (parse_audit_export_filename, a) at h))
    | inr a ↦ elim (Option-cases (candidate decode_uri_component (trim d))) [
      | inl b ↦ absurd (none_not_some (rw (parse_audit_export_filename, a, b) at h))
      | inr (n, b) ↦ elim (Bool-cases (is_acceptable_basename n format)) [
        | inl c ↦
            subst (λ m. HasShape m format)
              (some_eq (rw (parse_audit_export_filename, a, b, c) at h))
              (acceptable-HasShape n format c)
        | inr c ↦ absurd (none_not_some (rw (parse_audit_export_filename, a, b, c) at h))
      ]
    ]
  ]
