-- ===== src/Locale/Laws.antt =====
-- The order in which frontend/src/i18n/locale.ts asks for a language, and the choice of a user.
use query_craft.Common.{
  ◌≡◌, ◌⊎◌, inl, inr, refl, String, true, false, List, [], ◌∷◌, ◌++◌, map, Option, none, some,
  Bool-cases, Option-cases, includes_text, lookup-insert, str_eq_self,
}
use query_craft.Locale.{
  Language, en, ar, tag, Browser, or_else, normalize_app_language, read_stored_language,
  read_query_language, first_language, resolve_initial_language, persist_language, safe_get,
  safe_set, language_storage_key,
}
use query_craft.Common.{codes_eq, trim, lower, is_prefix}
use query_craft.Locale.Toggle.{change_end}
use query_craft.Locale.{apply_document_language}

-- The first language that a list of sources names.
abbrev pub first_of : List (Option Language) → Option Language
first_of [] = none
first_of (none ∷ os) = first_of os
first_of (some l ∷ os) = some l

first_of-cons :
    (o rest html : Option Language) (os : List (Option Language))
    → first_of os ≡ (elim rest [ none ↦ html | some l ↦ some l ])
    → first_of (o ∷ os)
      ≡ (elim (elim o as (λ x. Option Language) [ none ↦ rest | some l ↦ some l ]) [
        | none ↦ html
        | some l ↦ some l
      ])
first_of-cons none rest html os h = h
first_of-cons (some l) rest html os h = refl

first_of-candidates :
    (candidates : List String) (html : Option Language)
    → first_of (map (λ c. normalize_app_language (some c)) candidates ++ html ∷ [])
      ≡ (elim (first_language candidates) [ none ↦ html | some l ↦ some l ])
unfolding first_language
first_of-candidates [] none = refl
first_of-candidates [] (some l) = refl
first_of-candidates (c ∷ cs) html =
    first_of-cons (normalize_app_language (some c)) _ html _ (first_of-candidates cs html)

last :
    (o html : Option Language) (b : Browser)
    → (elim o as (λ x. Language × Browser) [ some l ↦ (l, b) | none ↦ (or_else html en, b) ]).0
      ≡ or_else (elim o as (λ x. Option Language) [ none ↦ html | some l ↦ some l ]) en
last none html b = refl
last (some l) html b = refl

module _ (get_param : String → String → Option String) where
  -- The initial language is the first that is named by the address, by the device, by the navigator's
  -- languages in their order, or by the document, in this order, and English where none is.
  pub resolve_initial_language-first_of :
      (navigator_languages : Option (List String)) (search : Option String) (b : Browser)
      → (resolve_initial_language get_param navigator_languages search b).0
        ≡ or_else
            (first_of (
              read_query_language get_param (or_else search b.search)
                ∷ read_stored_language b
                ∷ map
                    (λ c. normalize_app_language (some c))
                    (or_else navigator_languages (b.languages ++ b.language ∷ []))
              ++ normalize_app_language (some b.html_lang) ∷ []))
            en
  unfolding resolve_initial_language
  resolve_initial_language-first_of ns address b =
      elim (Option-cases (read_query_language get_param (or_else address b.search))) [
        | inr (q, e) ↦ rw (resolve_initial_language, e)
        | inl e ↦ elim (Option-cases (read_stored_language b)) [
          | inr (l, k) ↦ rw (resolve_initial_language, e, k)
          | inl k ↦
              rw
                (
                  resolve_initial_language,
                  e,
                  k,
                  first_of-candidates (or_else ns (b.languages ++ b.language ∷ []))
                      (normalize_app_language (some b.html_lang)),
                )
                (last (first_language (or_else ns (b.languages ++ b.language ∷ [])))
                  (normalize_app_language (some b.html_lang)) b)
        ]
      ]

normalize-tag : (l : Language) → normalize_app_language (some (tag l)) ≡ some l
unfolding normalize_app_language codes_eq trim lower is_prefix
normalize-tag en = refl
normalize-tag ar = refl

pub stored-persist :
    (l : Language) (b : Browser)
    → b.storage.is_readable ≡ true
    → b.storage.is_writable ≡ true
    → read_stored_language (persist_language l b) ≡ some l
unfolding read_stored_language persist_language safe_get safe_set
stored-persist l b r w =
    rw
      (
        read_stored_language,
        persist_language,
        safe_set,
        w,
        safe_get,
        r,
        lookup-insert language_storage_key language_storage_key (tag l) b.storage.entries,
        str_eq_self language_storage_key,
      )
      (normalize-tag l)

module _ (get_param : String → String → Option String)
    (set_param : String → String → String → String) where
  change_end-stored :
      (next : Language) (b : Browser)
      → b.storage.is_readable ≡ true
      → b.storage.is_writable ≡ true
      → read_stored_language (change_end set_param next b) ≡ some next
  unfolding change_end persist_language read_stored_language apply_document_language
  change_end-stored next b r w = elim (Bool-cases (includes_text b.search "lng=")) [
    | inl e ↦ rw (change_end, e) (stored-persist next b r w)
    | inr e ↦ rw (change_end, e) (stored-persist next b r w)
  ]

  change_end-query :
      (next : Language) (b : Browser)
      → ((address value : String) → get_param (set_param address "lng" value) "lng" ≡ some value)
      → (includes_text b.search "lng=" ≡ false → read_query_language get_param b.search ≡ none)
      → (read_query_language get_param (change_end set_param next b).search ≡ some next)
        ⊎ (read_query_language get_param (change_end set_param next b).search ≡ none)
  unfolding change_end persist_language apply_document_language read_query_language
  change_end-query next b sets silent = elim (Bool-cases (includes_text b.search "lng=")) [
    | inl e ↦
        inl (rw (change_end, e, read_query_language, sets b.search (tag next)) (normalize-tag next))
    | inr e ↦ inr (rw (change_end, e) (silent e))
  ]

  resolve-query :
      (ns : Option (List String)) (b : Browser) (l : Language)
      → read_query_language get_param b.search ≡ some l
      → (resolve_initial_language get_param ns none b).0 ≡ l
  unfolding resolve_initial_language
  resolve-query ns b l e = rw (resolve_initial_language, e)

  resolve-stored :
      (ns : Option (List String)) (b : Browser) (l : Language)
      → read_query_language get_param b.search ≡ none
      → read_stored_language b ≡ some l
      → (resolve_initial_language get_param ns none b).0 ≡ l
  unfolding resolve_initial_language
  resolve-stored ns b l e k = rw (resolve_initial_language, e, k)

  -- A choice of the user is what a reload starts with, where the device takes and gives what is stored:
  -- whatever the address, the navigator and the document say. The address is either one that the toggle
  -- rewrites, and then the platform reads the parameter that it has set, or names no language.
  pub resolve_initial_language-change_end :
      (next : Language) (b : Browser)
      → b.storage.is_readable ≡ true
      → b.storage.is_writable ≡ true
      → ((search value : String) → get_param (set_param search "lng" value) "lng" ≡ some value)
      → (includes_text b.search "lng=" ≡ false → read_query_language get_param b.search ≡ none)
      → (navigator_languages : Option (List String))
      → (resolve_initial_language get_param navigator_languages none
          (change_end set_param next b)).0
        ≡ next
  resolve_initial_language-change_end next b r w sets silent ns =
      elim (change_end-query next b sets silent) [
        | inl e ↦ resolve-query ns _ next e
        | inr e ↦ resolve-stored ns _ next e (change_end-stored next b r w)
      ]
